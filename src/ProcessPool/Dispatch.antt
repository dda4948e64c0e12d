-- ===== src/ProcessPool/Dispatch.antt =====
-- How process_pool.h picks the child for a connection.
use socket_test.Common.{
  ℕ, zero, suc, ◌+◌, ◌-◌, ◌%◌, ◌<◌, ◌≡◌, refl, inl, inr, Bool, true, false, List, [], ◌∷◌, ◌++◌,
  Option, some, arith, ◌==◌, leb, if◌then◌else◌, length, Bool-cases, ℕ_discrete,
}
use socket_test.ProcessPool.{Parent, live_at, find_child, dispatch, notify}

-- how many steps after `start` a child has its turn
abbrev pub distance : ℕ → ℕ → ℕ → ℕ
distance n start i = if leb start i then i - start else i + n - start

next-mod : (i n : ℕ) → i < n → (i + 1) % n ≡ (if i + 1 == n then 0 else i + 1)
next-mod i n h = grind arith

-- no child whose turn is before that of `i` is live
abbrev pub DeadBefore : List (Option ℕ) → ℕ → ℕ → Type 0
DeadBefore ps start i =
    (j : ℕ)
    → j < length ps
    → distance (length ps) start j < distance (length ps) start i
    → live_at ps j ≡ false

-- the child found is the first live one, or the start, with no live child at all
pub data Found (ps : List (Option ℕ)) (start i : ℕ) : Type 0 where
  first : i < length ps → live_at ps i ≡ true → DeadBefore ps start i → Found ps start i
  nobody : i ≡ start → ((j : ℕ) → j < length ps → live_at ps j ≡ false) → Found ps start i

find_child-Found :
    (k : ℕ) (ps : List (Option ℕ)) (start i : ℕ)
    → start < length ps
    → i < length ps
    → length ps < k + distance (length ps) start i + 1
    → DeadBefore ps start i
    → (j : ℕ) × (find_child k ps start i ≡ some j) × Found ps start j
unfolding find_child
find_child-Found zero ps start i hs hi fuel dead = absurd (ground arith)
find_child-Found (suc k) ps start i hs hi fuel dead =
    let next = (i + 1) % length ps in
    let wrap = next-mod i (length ps) hi in
    elim (Bool-cases (live_at ps i)) [
      | inl live ↦ (i, rw live refl, first hi live dead)
      | inr gone ↦ elim (Bool-cases (next == start)) [
        | inl round ↦ (
          next,
          rw (gone, round) refl,
          nobody (ground arith) λ j hj. elim (ℕ_discrete j i) [
            | yes same ↦ rw same gone
            | no other ↦ dead j hj (ground arith)
          ],
        )
        | inr further ↦
            let (j, e, f) =
              find_child-Found k ps start next hs (ground arith) (ground arith) λ m hm less.
                elim (ℕ_discrete m i) [
                  | yes same ↦ rw same gone
                  | no other ↦ dead m hm (ground arith)
                ] in
            (j, rw (gone, further) e, f)
      ]
    ]

-- What a connection leads to: the first live child in turn is told and the turn passes to the one
-- after it, or, where no child lives, the parent stops and leaves the other events.
pub data Dispatched (s : Parent) (r : Option (Parent × Bool)) : Type 0 where
  told :
      (i : ℕ)
      → i < length s.pids
      → live_at s.pids i ≡ true
      → DeadBefore s.pids s.sub_process_counter i
      → r
        ≡ some (
          record s {
            sub_process_counter = if i + 1 == length s.pids then 0 else i + 1;
            calls = s.calls ++ notify i ∷ [];
          },
          false,
        )
      → Dispatched s r
  stopped :
      ((j : ℕ) → j < length s.pids → live_at s.pids j ≡ false)
      → r ≡ some (record s { stop = true }, true)
      → Dispatched s r

-- Where the turn is at one of the children, the search for a child ends, and finds the first live
-- one in turn if there is one; else the parent stops.
pub dispatch-Dispatched :
    (s : Parent) → s.sub_process_counter < length s.pids → Dispatched s (dispatch s)
unfolding dispatch
dispatch-Dispatched s h =
    let start = s.sub_process_counter in
    let n = length s.pids in
    let (i, e, f) =
      find_child-Found (suc n) s.pids start start h h (ground arith)
        (λ j hj less. absurd (ground arith)) in
    rw (e, dispatch)
      (elim f [
        | first hi live dead ↦ rw live (told i hi live dead (rw (next-mod i n hi)))
        | nobody at all ↦
            let gone : live_at s.pids i ≡ false = rw at (all start h) in rw gone (stopped all refl)
      ])
