-- ===== src/ProcessPool/Serve.antt =====
-- What `run_child` of process_pool/process_pool.h does for its clients, and when it ends.
use socket_test.Common.{
  ℕ, ◌<◌, ◌≡◌, refl, sym, ap, ◌⊎◌, ℕ_discrete, ◌∙◌, subst, Bool, true, false, List, [], ◌∷◌, none,
  some, arith, ◌==◌, ltb, ◌&&◌, ◌||◌, inr,
}
use socket_test.Common.Array
use socket_test.Common.Run.{Ends, ends, Ends-bind, Ends-mono, if-Ends}
use socket_test.ProcessPool.{Signal, sigchld, sigterm, sigint, other_signal}
use socket_test.ProcessPool.Child.{
  user_per_process, Connection, Child, ChildEvent, told, signalled, readable, ignored, ChildWaited,
  failed, interrupted, ready, stops, child_signals, accept_client, child_event, child_events,
  run_child,
}

unfoldable pub contains : List ℕ → ℕ → Bool
contains [] fd = false
contains (x ∷ xs) fd = (x == fd) || contains xs fd

-- the descriptors that epoll may report behind an event
unfoldable pub added_by : {I : Type 0} → ChildEvent I → List ℕ → List ℕ
added_by (told false client) fds = fds
added_by (told true none) fds = fds
added_by (told true (some (fd, addr))) fds = fd ∷ fds
added_by (signalled gs) fds = fds
added_by (readable fd i) fds = fds
added_by ignored fds = fds

unfoldable pub any_stops : List Signal → Bool
any_stops [] = false
any_stops (sigterm ∷ gs) = true
any_stops (sigint ∷ gs) = true
any_stops (sigchld reaped ∷ gs) = any_stops gs
any_stops (other_signal ∷ gs) = any_stops gs

-- whether one of the events is a signal that ends the child
unfoldable pub asks : {I : Type 0} → ChildEvent I → Bool
asks (signalled gs) = any_stops gs
asks (told b client) = false
asks (readable fd i) = false
asks ignored = false

unfoldable pub asks_to_stop : {I : Type 0} → List (ChildEvent I) → Bool
asks_to_stop [] = false
asks_to_stop (e ∷ es) = asks e || asks_to_stop es

-- whether the loop ends at one of the rounds
unfoldable pub leaves : {I : Type 0} → List (ChildWaited I) → Bool
leaves [] = false
leaves (failed ∷ rs) = true
leaves (interrupted ∷ rs) = leaves rs
leaves (ready es ∷ rs) = asks_to_stop es || leaves rs

module _ {U I : Type 0} (conn : Connection U I) (fine : I → Bool) where
  -- What is relied on: `accept` gives descriptors that fit the array, epoll reports those that were
  -- added, and the answers for the clients are as `fine` says.
  unfoldable pub is_reported : ChildEvent I → List ℕ → Bool
  is_reported (told false client) fds = true
  is_reported (told true none) fds = true
  is_reported (told true (some (fd, addr))) fds = ltb fd user_per_process
  is_reported (signalled gs) fds = true
  is_reported (readable fd i) fds = contains fds fd && fine i
  is_reported ignored fds = true

  unfoldable pub are_reported : List (ChildEvent I) → List ℕ → Bool
  are_reported [] fds = true
  are_reported (e ∷ es) fds = is_reported e fds && are_reported es (added_by e fds)

  unfoldable pub added_by_all : List (ChildEvent I) → List ℕ → List ℕ
  added_by_all [] fds = fds
  added_by_all (e ∷ es) fds = added_by_all es (added_by e fds)

  unfoldable pub rounds_reported : List (ChildWaited I) → List ℕ → Bool
  rounds_reported [] fds = true
  rounds_reported (failed ∷ rs) fds = rounds_reported rs fds
  rounds_reported (interrupted ∷ rs) fds = rounds_reported rs fds
  rounds_reported (ready es ∷ rs) fds =
      are_reported es fds && rounds_reported rs (added_by_all es fds)

-- every descriptor that was added has a client in the array, of which `P` holds
abbrev pub IsServed : {U : Type 0} → (ℕ → ℕ → U → Type 0) → Child U → Type 0
IsServed P s =
    (fd : ℕ) → contains s.added fd ≡ true → (fd < user_per_process) × P s.epollfd fd (s.users fd)

-- what a piece of the loop leaves
record IsHandled {U : Type 0} (P : ℕ → ℕ → U → Type 0) (added : List ℕ) (stop : Bool) (s' : Child U)
    : Type 0 where
  pub served : IsServed P s'
  pub added_as : s'.added ≡ added
  pub stop_as : s'.stop ≡ stop

or-false : (b : Bool) → b ≡ (b || false)
or-false true = refl
or-false false = refl

or-true : (b : Bool) → (b || true) ≡ true
or-true true = refl
or-true false = refl

or_assoc : (a b c : Bool) → ((a || b) || c) ≡ (a || (b || c))
or_assoc true b c = refl
or_assoc false b c = refl

child_signals-stop :
    {U : Type 0} (gs : List Signal) (s : Child U)
    → child_signals gs s ≡ record s { stop = s.stop || any_stops gs }
unfolding child_signals any_stops stops
child_signals-stop [] s = ap (λ b. record s { stop = b }) (or-false s.stop)
child_signals-stop (sigchld reaped ∷ gs) s = child_signals-stop gs s
child_signals-stop (other_signal ∷ gs) s = child_signals-stop gs s
child_signals-stop (sigterm ∷ gs) s =
    child_signals-stop gs (record s { stop = true })
    ∙ ap (λ b. record s { stop = b }) (sym (or-true s.stop))
child_signals-stop (sigint ∷ gs) s =
    child_signals-stop gs (record s { stop = true })
    ∙ ap (λ b. record s { stop = b }) (sym (or-true s.stop))

stopped_now : (a b : Bool) → a ≡ true → true ≡ (a || b)
stopped_now true b e = refl
stopped_now false b e = cc

module _ {U I : Type 0} (conn : Connection U I) (fine : I → Bool) (P : ℕ → ℕ → U → Type 0)
    (born : (e fd addr : ℕ) (u : U) → P e fd (conn.init e fd addr u))
    (kept : (e fd : ℕ) (i : I) (u : U)
      → fine i ≡ true
      → P e fd u
      → Ends (P e fd) (conn.process i u)) where
  -- Where one client of the array changes, the others are as before.
  update-IsServed :
      (s : Child U) (fd : ℕ) (u : U) (added : List ℕ)
      → IsServed P s
      → fd < user_per_process
      → P s.epollfd fd u
      → ((q : ℕ) → contains added q ≡ true → (fd ≡ q) ⊎ (contains s.added q ≡ true))
      → IsServed P (record s { users = Array.update s.users fd u; added = added })
  update-IsServed s fd u added v room good others q b = elim (ℕ_discrete fd q) [
    | yes same ↦
        let test : (fd == q) ≡ true = ground arith in
        rw test (omega arith, subst (λ d. P s.epollfd d u) same good)
    | no apart ↦
        let test : (fd == q) ≡ false = ground arith in rw test (v q (ground (arith, others q b)))
  ]

  child_event-IsHandled :
      (e : ChildEvent I) (s : Child U)
      → IsServed P s
      → is_reported conn fine e s.added ≡ true
      → Ends (IsHandled P (added_by e s.added) (s.stop || asks e)) (child_event conn e s)
  unfolding child_event added_by is_reported asks contains accept_client
  child_event-IsHandled (told false client) s v r =
      ends (record { served = v; added_as = refl; stop_as = or-false s.stop })
  child_event-IsHandled (told true none) s v r =
      ends (record { served = v; added_as = refl; stop_as = or-false s.stop })
  child_event-IsHandled (told true (some (fd, addr))) s v r = rw r (
      ends (record {
        served =
            update-IsServed s fd (conn.init s.epollfd fd addr (s.users fd)) (fd ∷ s.added) v
              (ground (arith, r)) (born s.epollfd fd addr (s.users fd)) (λ q b. ground (arith, b));
        added_as = refl;
        stop_as = or-false s.stop;
      }))
  child_event-IsHandled (signalled gs) s v r =
      rw (child_signals-stop gs s) (ends (record { served = v; added_as = refl; stop_as = refl }))
  child_event-IsHandled (readable fd i) s v r =
      let known : contains s.added fd ≡ true = ground (arith, r) in
      let (room, good) = v fd known in
      let fits : ltb fd user_per_process ≡ true = ground arith in
      rw fits (
        Ends-bind (kept s.epollfd fd i (s.users fd) (ground (arith, r)) good) λ u p. ends (record {
          served = update-IsServed s fd u s.added v room p (λ q b. inr b);
          added_as = refl;
          stop_as = or-false s.stop;
        }))
  child_event-IsHandled ignored s v r =
      ends (record { served = v; added_as = refl; stop_as = or-false s.stop })

  child_events-IsHandled :
      (es : List (ChildEvent I)) (s : Child U)
      → IsServed P s
      → are_reported conn fine es s.added ≡ true
      → Ends
          (IsHandled P (added_by_all conn fine es s.added) (s.stop || asks_to_stop es))
          (child_events conn es s)
  unfolding child_events asks_to_stop are_reported added_by_all
  child_events-IsHandled [] s v r =
      ends (record { served = v; added_as = refl; stop_as = or-false s.stop })
  child_events-IsHandled (e ∷ es) s v r =
      Ends-bind (child_event-IsHandled e s v (ground (arith, r))) λ s' h.
        let rest : are_reported conn fine es s'.added ≡ true = rw h.added_as (ground (arith, r)) in
        Ends-mono (child_events-IsHandled es s' h.served rest) λ t g. record {
          served = g.served;
          added_as = g.added_as ∙ ap (added_by_all conn fine es) h.added_as;
          stop_as =
              g.stop_as
              ∙ ap (λ b. b || asks_to_stop es) h.stop_as
              ∙ or_assoc s.stop (asks e) (asks_to_stop es);
        }

  -- Where `init` establishes `P` of a client and its descriptor, `process` keeps it on the answers that
  -- are fine, `accept` gives descriptors that fit the array and epoll reports only descriptors that
  -- were added: then every call of `process` is of a client that was initialised for the descriptor
  -- reported, and the loop makes its rounds without a fault; it leaves `P` of every such client. It
  -- ends exactly where `m_stop` was set before, or a round has SIGTERM, SIGINT or a failure of epoll.
  pub run_child-IsServed :
      (rs : List (ChildWaited I)) (s : Child U)
      → IsServed P s
      → rounds_reported conn fine rs s.added ≡ true
      → Ends (λ r. IsServed P r.0 × (r.1 ≡ (s.stop || leaves rs))) (run_child conn rs s)
  unfolding run_child leaves rounds_reported
  run_child-IsServed [] s v r = ends (v, or-false s.stop)
  run_child-IsServed (failed ∷ rs) s v r = ends (v, sym (or-true s.stop))
  run_child-IsServed (interrupted ∷ rs) s v r =
      if-Ends s.stop (λ stopped. ends (v, stopped_now s.stop (leaves rs) stopped))
        λ going. run_child-IsServed rs s v r
  run_child-IsServed (ready es ∷ rs) s v r =
      if-Ends s.stop
        (λ stopped. ends (v, stopped_now s.stop (asks_to_stop es || leaves rs) stopped))
        λ going. Ends-bind (child_events-IsHandled es s v (ground (arith, r))) λ s' h.
          let rest : rounds_reported conn fine rs s'.added ≡ true =
            rw h.added_as (ground (arith, r)) in
          Ends-mono (run_child-IsServed rs s' h.served rest) λ t g. (
            g.0,
            g.1
                ∙ ap (λ b. b || leaves rs) h.stop_as
                ∙ or_assoc s.stop (asks_to_stop es) (leaves rs),
          )
