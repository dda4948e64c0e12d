-- ===== src/ProcessPool/Signals.antt =====
-- What the signals do to the parent of process_pool.h, and when it stops.
use socket_test.Common.{
  ℕ, zero, suc, ◌+◌, ◌<◌, ◌≡◌, refl, sym, subst, ap, ◌∙◌, ◌↔◌, Bool, true, false, ◌||◌, List, [],
  ◌∷◌, ◌++◌, map, Option, none, some, arith, ◌==◌, if◌then◌else◌, length, length-map,
}
use socket_test.ProcessPool.{
  notify, Parent, live_at, join_loop, reap, none_live, on_sigchld, on_sigterm, Signal, sigchld,
  sigterm, sigint, other_signal, on_signal, on_signals, Event, connection, signals, other_event,
  on_events, Waited, failed, interrupted, ready, parent_round, run_parent,
}
use socket_test.ProcessPool.Dispatch.{told, stopped, dispatch-Dispatched}

abbrev pub contains : List ℕ → ℕ → Bool
contains [] p = false
contains (x ∷ xs) p = p == x || contains xs p

-- a child's pid once the children with the given pids have been reaped
abbrev pub forget : List ℕ → Option ℕ → Option ℕ
forget reaped none = none
forget reaped (some p) = if contains reaped p then none else some p

join_loop-map :
    (ps : List (Option ℕ)) (pid i : ℕ) → (join_loop ps pid i).0 ≡ map (forget (pid ∷ [])) ps
unfolding join_loop
join_loop-map [] pid i = refl
join_loop-map (none ∷ ps) pid i = ground (arith, join_loop-map ps pid (i + 1))
join_loop-map (some p ∷ ps) pid i = ground (arith, join_loop-map ps pid (i + 1))

forget-nil : (ps : List (Option ℕ)) → map (forget []) ps ≡ ps
forget-nil [] = refl
forget-nil (none ∷ ps) = ap (◌∷◌ none) (forget-nil ps)
forget-nil (some p ∷ ps) = ap (◌∷◌ (some p)) (forget-nil ps)

forget-forget :
    (pid : ℕ) (more : List ℕ) (ps : List (Option ℕ))
    → map (forget more) (map (forget (pid ∷ [])) ps) ≡ map (forget (pid ∷ more)) ps
forget-forget pid more [] = refl
forget-forget pid more (none ∷ ps) = ap (◌∷◌ none) (forget-forget pid more ps)
forget-forget pid more (some p ∷ ps) = ground (arith, forget-forget pid more ps)

reap-map :
    (reaped : List ℕ) (s : Parent)
    → ((reap reaped s).pids ≡ map (forget reaped) s.pids)
      × ((reap reaped s).sub_process_counter ≡ s.sub_process_counter)
unfolding reap
reap-map [] s = (sym (forget-nil s.pids), refl)
reap-map (pid ∷ more) s =
    let (pids, counter) = reap-map more (record s {
      pids = (join_loop s.pids pid 0).0;
      calls = s.calls ++ (join_loop s.pids pid 0).1;
    }) in
    (
      pids ∙ ap (map (forget more)) (join_loop-map s.pids pid 0) ∙ forget-forget pid more s.pids,
      counter,
    )

none_live_iff :
    (ps : List (Option ℕ))
    → (none_live ps ≡ true) ↔ ((j : ℕ) → j < length ps → live_at ps j ≡ false)
unfolding none_live live_at
none_live_iff [] = (λ e j h. refl, λ h. refl)
none_live_iff (p ∷ ps) = (
  λ e. elim [
    | zero ↦ λ h. ground arith
    | suc j ↦ λ h. (none_live_iff ps).0 (ground arith) j (omega arith)
  ],
  λ h. ground (arith, h 0, (none_live_iff ps).1 (λ j b. h (suc j) (omega arith))),
)

-- At SIGCHLD the parent forgets exactly the children that `waitpid` reaps, and it is to stop exactly
-- if no child is left then.
pub on_sigchld-forgets :
    (reaped : List ℕ) (s : Parent)
    → ((on_sigchld reaped s).pids ≡ map (forget reaped) s.pids)
      × (((on_sigchld reaped s).stop ≡ true)
          ↔ ((j : ℕ) → j < length s.pids → live_at (map (forget reaped) s.pids) j ≡ false))
unfolding on_sigchld
on_sigchld-forgets reaped s =
    let e = (reap-map reaped s).0 in
    let (to, from) = none_live_iff (map (forget reaped) s.pids) in
    let same = length-map s.pids (forget reaped) in
    (
      e,
      (
        λ h j b. to (subst (λ ps. none_live ps ≡ true) e h) j (omega (arith, same)),
        λ h. subst (λ ps. none_live ps ≡ true) (sym e) (from (λ j b. h j (omega (arith, same)))),
      ),
    )

-- The turn is at one of the children, and where the parent is to stop none of them lives.
pub record IsRunning (n : ℕ) (s : Parent) : Type 0 where
  pub sized : length s.pids ≡ n
  pub in_turn : s.sub_process_counter < n
  pub stopped_dead : s.stop ≡ true → none_live s.pids ≡ true

on_signal-IsRunning :
    (n : ℕ) (g : Signal) (s : Parent) → IsRunning n s → IsRunning n (on_signal g s)
unfolding on_signal
on_signal-IsRunning n (sigchld reaped) s v =
    let (e, c) = reap-map reaped s in
    record {
      sized = ap length e ∙ length-map s.pids (forget reaped) ∙ v.sized;
      in_turn = rw c v.in_turn;
      stopped_dead = λ h. h;
    }
on_signal-IsRunning n sigterm s v = record {
  sized = v.sized;
  in_turn = v.in_turn;
  stopped_dead = v.stopped_dead;
}
on_signal-IsRunning n sigint s v = record {
  sized = v.sized;
  in_turn = v.in_turn;
  stopped_dead = v.stopped_dead;
}
on_signal-IsRunning n other_signal s v = v

on_signals-IsRunning :
    (n : ℕ) (gs : List Signal) (s : Parent) → IsRunning n s → IsRunning n (on_signals gs s)
unfolding on_signals
on_signals-IsRunning n [] s v = v
on_signals-IsRunning n (g ∷ gs) s v =
    on_signals-IsRunning n gs (on_signal g s) (on_signal-IsRunning n g s v)

-- a round over events ends, in a state of the same kind
on_events-IsRunning :
    (n : ℕ) (es : List Event) (s : Parent)
    → IsRunning n s
    → (t : Parent) × (on_events es s ≡ some t) × IsRunning n t
unfolding on_events
on_events-IsRunning n [] s v = (s, refl, v)
on_events-IsRunning n (signals gs ∷ es) s v =
    on_events-IsRunning n es (on_signals gs s) (on_signals-IsRunning n gs s v)
on_events-IsRunning n (other_event ∷ es) s v = on_events-IsRunning n es s v
on_events-IsRunning n (connection ∷ es) s v =
    elim (dispatch-Dispatched s (omega (arith, v.in_turn, v.sized))) [
      | stopped all e ↦ (
        record s { stop = true },
        rw (e, on_events) refl,
        record {
          sized = v.sized;
          in_turn = v.in_turn;
          stopped_dead = λ h. (none_live_iff s.pids).1 all;
        },
      )
      | told i b live dead e ↦
          let (t, et, vt) =
            on_events-IsRunning n es
              (record s {
                sub_process_counter = if i + 1 == length s.pids then 0 else i + 1;
                calls = s.calls ++ notify i ∷ [];
              })
              (record {
                sized = v.sized;
                in_turn = ground (arith, v.sized);
                stopped_dead = v.stopped_dead;
              }) in
          (t, rw (e, on_events) et, vt)
    ]

parent_round-IsRunning :
    (n : ℕ) (b : Bool) (r : Waited) (rest : Parent → Option Parent) (s : Parent)
    → ((u : Parent) → IsRunning n u → (t : Parent) × (rest u ≡ some t) × IsRunning n t)
    → IsRunning n s
    → (t : Parent) × (parent_round b r rest s ≡ some t) × IsRunning n t
unfolding parent_round
parent_round-IsRunning n true r rest s more v = (s, refl, v)
parent_round-IsRunning n false failed rest s more v = (
  on_sigterm s,
  refl,
  record { sized = v.sized; in_turn = v.in_turn; stopped_dead = v.stopped_dead },
)
parent_round-IsRunning n false interrupted rest s more v = more s v
parent_round-IsRunning n false (ready es) rest s more v =
    let (u, eu, vu) = on_events-IsRunning n es s v in
    let (t, et, vt) = more u vu in (t, rw (eu, parent_round) et, vt)

-- From a state where the turn is at one of the children and `m_stop` is set only if none lives:
-- whatever the kernel reports, the parent's loop makes its rounds to their end (no search for a
-- child runs on for ever), in a state of the same kind.
pub run_parent-IsRunning :
    (n : ℕ) (rs : List Waited) (s : Parent)
    → IsRunning n s
    → (t : Parent) × (run_parent rs s ≡ some t) × IsRunning n t
unfolding run_parent
run_parent-IsRunning n [] s v = (s, refl, v)
run_parent-IsRunning n (r ∷ rs) s v =
    parent_round-IsRunning n s.stop r (run_parent rs) s (λ u. run_parent-IsRunning n rs u) v
