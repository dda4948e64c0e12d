-- ===== src/TimeHeap/Tick.antt =====
-- `tick` of min_heap_timer.h.
use mathlib.Core.List.{append_assoc, append-nil}
use socket_test.Common.{
  ℕ, zero, suc, ◌≤◌, ◌<◌, ◌≡◌, refl, sym, ◌∙◌, ap, ◌≢◌, ◌↔◌, ◌⊎◌, inl, inr, true, false, arith,
  ◌==◌, ltb, ◌||◌, if◌then◌else◌, ℕ_discrete, Bool, Bool-cases, List, [], ◌∷◌, ◌++◌,
}
use socket_test.Common.Run.{
  ok, fault, bad_pointer, ◌>>=◌, Ends, ends, Ends-bind, Ends-mono, Ends-value,
}
use socket_test.TimeHeap.{Timers, TimeHeap, slot, pop_timer, tick_loop, tick}
use socket_test.TimeHeap.Order.{expire_of-ok}
use socket_test.TimeHeap.Valid.{Contains, IsValid}
use socket_test.TimeHeap.Pop.{
  root, root_first, root-live, slot-root, IsPopped, pop_timer-IsPopped, pop_timer-single,
}

abbrev pub Among : ℕ → List ℕ → Type 0
Among p [] = ⊥
Among p (q ∷ qs) = (p ≡ q) ⊎ Among p qs

-- The timers of the list are distinct, and none expires before one that stands earlier.
abbrev pub IsAscending : (ℕ → ℕ) → List ℕ → Type 0
IsAscending e [] = Unit {0}
IsAscending e (q ∷ qs) = ((p : ℕ) → Among p qs → (p ≢ q) × (e q ≤ e p)) × IsAscending e qs

-- the callbacks made for the timers of a list, by the data that they are called on
abbrev pub called : (ℕ → Bool) → (ℕ → ℕ) → List ℕ → List ℕ
called cb u [] = []
called cb u (q ∷ qs) = if cb q then u q ∷ called cb u qs else called cb u qs

-- The outcome of `tick` at time `cur`: exactly the timers that are due are gone, and their callbacks
-- were made in the order in which they expire.
pub record IsTicked (cur : ℕ) (h : TimeHeap) (fired : List ℕ) (r : TimeHeap × List ℕ) : Type 0 where
  pub valid : IsValid r.0
  pub left : (p : ℕ) → Contains r.0 p ↔ (Contains h p × (cur < h.timers.expire p))
  pub gone : List ℕ
  pub due : (p : ℕ) → Among p gone ↔ (Contains h p × (h.timers.expire p ≤ cur))
  pub ascending : IsAscending h.timers.expire gone
  pub calls : r.1 ≡ fired ++ called h.timers.cb_func h.timers.user_data gone
  pub expires : r.0.timers.expire ≡ h.timers.expire
  pub callbacks : r.0.timers.cb_func ≡ h.timers.cb_func
  pub owners : r.0.timers.user_data ≡ h.timers.user_data
  pub capacity : r.0.capacity ≡ h.capacity

module _ (cur : ℕ) (h : TimeHeap) (fired : List ℕ) (v : IsValid h) where
  -- A heap whose root is not due is left alone.
  IsTicked-rest : cur < h.timers.expire (root h) → IsTicked cur h fired (h, fired)
  IsTicked-rest late = record {
    valid = v;
    left = λ p. (λ c. (c, omega (arith, root_first h p v c)), λ x. x.0);
    gone = [];
    due = λ p. (λ x. absurd x, λ x. absurd (omega (arith, x.1, root_first h p v x.0)));
    ascending = tt;
    calls = sym (append-nil fired);
    expires = refl;
    callbacks = refl;
    owners = refl;
    capacity = refl;
  }

  -- A round that removes the root, followed by the others.
  IsTicked-round :
      0 < h.cur_size
      → h.timers.expire (root h) ≤ cur
      → (h' : TimeHeap) → IsPopped h h'
      → (r : TimeHeap × List ℕ)
      → IsTicked cur h'
          (if h.timers.cb_func (root h) then fired ++ h.timers.user_data (root h) ∷ [] else fired)
          r
      → IsTicked cur h fired r
  IsTicked-round pos due h' popped r done = record {
    valid = done.valid;
    left = λ p. (
      λ c.
          let (c', late) = (done.left p).0 c in
          (((popped.members p).0 c').0, ground (arith, same p)),
      λ (c, late).
          (done.left p).1 ((popped.members p).1 (c, λ e. ground arith), ground (arith, same p)),
    );
    gone = root h ∷ done.gone;
    due = λ p. (
      λ x. elim x [
        | inl e ↦ ((0, pos, sym e), ground arith)
        | inr later ↦
            let (c, early) = (done.due p).0 later in
            (((popped.members p).0 c).0, ground (arith, same p))
      ],
      λ (c, early). elim (ℕ_discrete p (root h)) [
        | yes e ↦ inl e
        | no o ↦ inr ((done.due p).1 ((popped.members p).1 (c, o), ground (arith, same p)))
      ],
    );
    ascending = (
      λ p later.
          let (c, o) = (popped.members p).0 ((done.due p).0 later).0 in (o, root_first h p v c),
      rw (ap (λ (t : Timers). t.expire) popped.deleted) at done.ascending,
    );
    calls = calls;
    expires = done.expires ∙ ap (λ (t : Timers). t.expire) popped.deleted;
    callbacks = done.callbacks ∙ ap (λ (t : Timers). t.cb_func) popped.deleted;
    owners = done.owners ∙ ap (λ (t : Timers). t.user_data) popped.deleted;
    capacity = done.capacity ∙ popped.kept;
  }
    where
      same : (p : ℕ) → h'.timers.expire p ≡ h.timers.expire p
      same p = ap (λ (t : Timers). t.expire p) popped.deleted

      kept :
          called h'.timers.cb_func h'.timers.user_data done.gone
          ≡ called h.timers.cb_func h.timers.user_data done.gone
      kept = ap (λ (t : Timers). called t.cb_func t.user_data done.gone) popped.deleted

      calls : r.1 ≡ fired ++ called h.timers.cb_func h.timers.user_data (root h ∷ done.gone)
      calls = elim (Bool-cases (h.timers.cb_func (root h))) [
        | inl set_up ↦ rw (set_up, done.calls, kept, set_up) (append_assoc fired _ _)
        | inr unset ↦ rw (unset, done.calls, kept, unset)
      ]

module _ (k cur : ℕ) (h : TimeHeap) (fired : List ℕ) (v : IsValid h) (pos : 0 < h.cur_size) where
  going : ((h.cur_size == 0) || (root h == 0)) ≡ false
  going = ground (arith, v.null, root-live h v pos)

  -- a round of the loop that finds the root not due
  round_late :
      ltb cur (h.timers.expire (root h)) ≡ true
      → tick_loop (suc k) cur h (root h) fired ≡ ok (h, fired)
  unfolding tick_loop
  round_late late =
      rw (going, tick_loop, expire_of-ok h.timers (root h) (root-live h v pos), ◌>>=◌, late)

  -- a round of the loop that finds the root due
  round_due :
      ltb cur (h.timers.expire (root h)) ≡ false
      → tick_loop (suc k) cur h (root h) fired ≡ (do
        h' ← pop_timer h
        tmp' ← slot h'.slots 0
        tick_loop k cur h' tmp' (
            if h.timers.cb_func (root h) then fired ++ h.timers.user_data (root h) ∷ [] else fired))
  unfolding tick_loop
  round_due due = rw (
    going,
    tick_loop,
    expire_of-ok h.timers (root h) (root-live h v pos),
    ◌>>=◌,
    due,
    slot-root h v (omega (arith, v.filled.room)),
    ◌>>=◌,
    root-live h v pos,
  )

tick_loop-IsTicked :
    (k cur : ℕ) (h : TimeHeap) (fired : List ℕ)
    → IsValid h
    → h.cur_size < k
    → (p : ℕ) → Contains h p
    → cur < h.timers.expire p
    → Ends (IsTicked cur h fired) (tick_loop k cur h (root h) fired)
tick_loop-IsTicked zero cur h fired v fuel p c late = absurd (omega arith)
tick_loop-IsTicked (suc k) cur h fired v fuel p c late =
    let pos : 0 < h.cur_size = omega (arith, c.1) in
    elim (Bool-cases (ltb cur (h.timers.expire (root h)))) [
      | inl rest ↦
          rw (round_late k cur h fired v pos rest)
            (ends (IsTicked-rest cur h fired v (ground arith)))
      | inr due ↦
          let other : p ≢ root h = λ e. ground arith in
          let several : 1 < h.cur_size = ground (arith, c.1, c.2) in
          rw (round_due k cur h fired v pos due) (
            Ends-bind (pop_timer-IsPopped h v several) λ h' popped.
              rw (slot-root h' popped.valid (omega (arith, popped.kept, v.filled.room, pos))) (
                Ends-mono
                  (tick_loop-IsTicked k cur h' _ popped.valid (omega (arith, popped.shrunk)) p
                    ((popped.members p).1 (c, other))
                    (rw (ap (λ (t : Timers). t.expire) popped.deleted) late))
                  λ r done. IsTicked-round cur h fired v pos (ground arith) h' popped r done))
    ]

-- `tick` at time `cur` on a well-formed heap with a timer that is not due yet: it makes the
-- callbacks of the due timers in the order in which they expire, removes exactly those, and leaves
-- a well-formed heap.
pub tick-IsTicked :
    (cur : ℕ) (h : TimeHeap) (p : ℕ)
    → IsValid h
    → Contains h p
    → cur < h.timers.expire p
    → Ends (IsTicked cur h []) (tick cur h)
unfolding tick
tick-IsTicked cur h p v c late =
    rw (slot-root h v (omega (arith, c.1, v.filled.room)))
      (tick_loop-IsTicked (suc h.cur_size) cur h [] v (omega arith) p c late)

all_due-fault :
    (k cur : ℕ) (h : TimeHeap) (fired : List ℕ)
    → IsValid h
    → h.cur_size < k
    → 0 < h.cur_size
    → ((p : ℕ) → Contains h p → h.timers.expire p ≤ cur)
    → tick_loop k cur h (root h) fired ≡ fault bad_pointer
all_due-fault zero cur h fired v fuel pos due = absurd (omega arith)
all_due-fault (suc k) cur h fired v fuel pos due =
    let rest : ltb cur (h.timers.expire (root h)) ≡ false =
      ground (arith, due (root h) (0, pos, refl)) in
    rw (round_due k cur h fired v pos rest) (elim (ℕ_discrete h.cur_size 1) [
      | yes one ↦ rw (pop_timer-single h v one)
      | no more ↦
          let (h', e, popped) = Ends-value (pop_timer-IsPopped h v (omega arith)) in
          rw (e, slot-root h' popped.valid (omega (arith, popped.kept, v.filled.room, pos)))
            (all_due-fault k cur h' _ popped.valid (omega (arith, popped.shrunk))
              (omega (arith, popped.shrunk))
              λ p c.
                rw (ap (λ (t : Timers). t.expire) popped.deleted)
                  (due p ((popped.members p).0 c).0))
    ])

-- `tick` on a well-formed heap that is not empty, with every timer due, ends in a write through a
-- deleted pointer.
pub tick-all_due :
    (cur : ℕ) (h : TimeHeap)
    → IsValid h
    → 0 < h.cur_size
    → ((p : ℕ) → Contains h p → h.timers.expire p ≤ cur)
    → tick cur h ≡ fault bad_pointer
unfolding tick
tick-all_due cur h v pos due =
    rw (slot-root h v (omega (arith, v.filled.room)))
      (all_due-fault (suc h.cur_size) cur h [] v (omega arith) pos due)
