-- ===== src/TimeHeap/Valid.antt =====
-- What makes a `time_heap` well formed, and `add_timer` of min_heap_timer.h.
use socket_test.Common.{
  ℕ, suc, ◌+◌, ◌*◌, ℕ_discrete, ◌<◌, ◌≡◌, refl, sym, ◌∙◌, ◌≢◌, ◌⊎◌, ◌↔◌, inl, inr, true, false,
  arith, ◌==◌, leb, if◌then◌else◌, Bool-cases, replicate, length-replicate,
}
use socket_test.Common.Array
use socket_test.Common.Run.{Ends, ends, Ends-bind, Ends-mono}
use socket_test.TimeHeap.{Slots, TimeHeap, resize, sift_in, add_timer}
use socket_test.TimeHeap.Order.{
  parent, view, Holds, IsOrderedFrom, IsCells, IsFilled, IsHeapOf-placed,
}
use socket_test.TimeHeap.Up.{IsRaised, up_loop-IsSifted, copy_loop-IsCopied}

⊎-map {ℓ κ μ} : {A : Type ℓ} {B : Type κ} {C : Type μ} → (A → B) → A ⊎ C → B ⊎ C
⊎-map f (inl a) = inl (f a)
⊎-map f (inr c) = inr c

-- the heap holds the timer `p`
abbrev pub Contains : TimeHeap → ℕ → Type 0
Contains h = Holds h.cur_size (Array.get h.slots.array)

pub record IsValid (h : TimeHeap) : Type 0 where
  pub filled : IsFilled h.timers h.cur_size h.capacity h.slots
  pub ordered : IsOrderedFrom 0 h.timers h.cur_size (Array.get h.slots.array)
  pub null : h.timers.live 0 ≡ false

-- the outcome of `add_timer`: the timer is added to the others, in a well-formed heap
pub record IsAdded (h : TimeHeap) (timer : ℕ) (h' : TimeHeap) : Type 0 where
  pub valid : IsValid h'
  pub members : (p : ℕ) → Contains h' p ↔ (Contains h p ⊎ (p ≡ timer))
  pub grown : h'.cur_size ≡ h.cur_size + 1
  pub kept : h'.timers ≡ h.timers
  pub doubled : h'.capacity ≡ (if leb h.capacity h.cur_size then 2 * h.capacity else h.capacity)

-- Without its room `resize` keeps the first entries, so validity does not change.
resize-IsValid :
    (h : TimeHeap)
    → IsValid h
    → 0 < h.capacity
    → Ends
        (λ r.
          IsValid r
          × ((p : ℕ) → Contains r p ↔ Contains h p)
          × (r.cur_size ≡ h.cur_size)
          × (r.timers ≡ h.timers)
          × (r.capacity ≡ 2 * h.capacity))
        (resize h)
unfolding resize Array.get
resize-IsValid h v pos =
    let old = h.slots.array in
    let n = h.cur_size in
    let room = v.filled.room in
    Ends-bind
      (copy_loop-IsCopied n 0 n (2 * h.capacity) h.timers old
        (record h.slots { array = replicate (2 * h.capacity) 0 }) (omega arith) (omega arith)
        (omega (arith, v.filled.sized)) v.filled.live v.filled.distinct
        (record {
          sized = length-replicate (2 * h.capacity) 0;
          copied = λ j b. absurd (omega arith);
          indexed = λ j b. absurd (omega arith);
        }))
      λ s c. ends (
        record {
          filled = record {
            sized = c.sized;
            room = omega arith;
            live = λ i b. ground (arith, c.copied i, v.filled.live i);
            distinct =
                λ i j b d e. v.filled.distinct i j b d (sym (c.copied i b) ∙ e ∙ c.copied j d);
            indexed = λ i b. ground (arith, c.copied i, c.indexed i);
          };
          ordered = λ m p q l. ground (arith, c.copied m, c.copied (parent m), v.ordered m);
          null = v.null;
        },
        λ p. (λ (i, b, e). (i, b, sym (c.copied i b) ∙ e), λ (i, b, e). (i, b, c.copied i b ∙ e)),
        refl,
        refl,
        refl,
      )

-- What the slots hold with `timer` in the first free entry.
Holds-view :
    (n : ℕ) (s : Slots) (timer p : ℕ)
    → Holds (n + 1) (view s n timer) p ↔ (Holds n (Array.get s.array) p ⊎ (p ≡ timer))
Holds-view n s timer p = (
  λ (i, b, e). elim (ℕ_discrete i n) [
    | yes last ↦ inr (ground arith)
    | no other ↦ inl (i, omega arith, ground arith)
  ],
  λ held. elim held [
    | inl (i, b, e) ↦ (i, omega arith, ground arith)
    | inr e ↦ (n, omega arith, ground arith)
  ],
)

module _ (h : TimeHeap) (timer : ℕ) (v : IsValid h) (room : h.cur_size < h.capacity)
    (alive : h.timers.live timer ≡ true) (fresh : ¬ Contains h timer) where
  IsCells-last : IsCells h.timers (h.cur_size + 1) h.capacity timer h.slots h.cur_size
  IsCells-last = record {
    sized = v.filled.sized;
    room = omega arith;
    live = λ i b. ground (arith, v.filled.live i);
    distinct = λ i j b d e. elim (ℕ_discrete i h.cur_size) [
      | yes last ↦ elim (ℕ_discrete j h.cur_size) [
        | yes both ↦ omega arith
        | no other ↦ absurd (fresh (j, omega arith, ground arith))
      ]
      | no first ↦ elim (ℕ_discrete j h.cur_size) [
        | yes last ↦ absurd (fresh (i, omega arith, ground arith))
        | no other ↦ ground (arith, v.filled.distinct i j)
      ]
    ];
    indexed = λ i b o. ground (arith, v.filled.indexed i);
  }

  IsRaised-last : IsRaised h.timers (h.cur_size + 1) (view h.slots h.cur_size timer) h.cur_size
  IsRaised-last = record {
    edges = λ c p q o. ground (arith, v.ordered c);
    bridged = λ c p q e o. absurd (omega arith);
  }

  sift_in-IsAdded :
      Ends
        (λ r.
          IsValid r
          × ((p : ℕ) → Contains r p ↔ (Contains h p ⊎ (p ≡ timer)))
          × (r.cur_size ≡ h.cur_size + 1)
          × (r.timers ≡ h.timers)
          × (r.capacity ≡ h.capacity))
        (sift_in h timer)
  unfolding sift_in
  sift_in-IsAdded =
      Ends-bind
        (up_loop-IsSifted (suc h.cur_size) h.slots h.cur_size (omega arith) (omega arith)
          IsCells-last IsRaised-last)
        λ (s, hole) sifted. Ends-bind (IsHeapOf-placed sifted) λ s' done. ends (
          record { filled = done.filled; ordered = done.ordered; null = v.null },
          λ p. (
            λ x. (Holds-view h.cur_size h.slots timer p).0 ((done.same p).1 x),
            λ x. (done.same p).0 ((Holds-view h.cur_size h.slots timer p).1 x),
          ),
          refl,
          refl,
          refl,
        )

-- On a well-formed heap whose capacity is not 0, `add_timer` of a timer that exists and is not in
-- the heap adds exactly it, whether or not the array is full, and keeps the heap well formed; a
-- full array is doubled.
pub add_timer-IsAdded :
    (h : TimeHeap) (timer : ℕ)
    → IsValid h
    → 0 < h.capacity
    → h.timers.live timer ≡ true
    → ¬ Contains h timer
    → Ends (IsAdded h timer) (add_timer h timer)
unfolding add_timer
add_timer-IsAdded h timer v pos alive fresh =
    let real : timer ≢ 0 = λ e. ground (arith, v.null) in
    let test : (timer == 0) ≡ false = ground arith in
    rw test (elim (Bool-cases (leb h.capacity h.cur_size)) [
      | inl full ↦ rw full (
          Ends-bind (resize-IsValid h v pos) λ r (valid, same, size, timers, cap).
            Ends-mono
              (sift_in-IsAdded r timer valid (ground arith) (rw timers alive)
                λ c. fresh ((same timer).0 c))
              λ r' (valid', members, size', timers', cap'). record {
                valid = valid';
                members = λ p. (
                  λ c. ⊎-map (same p).0 ((members p).0 c),
                  λ c. (members p).1 (⊎-map (same p).1 c),
                );
                grown = omega arith;
                kept = timers' ∙ timers;
                doubled = rw full (cap' ∙ cap);
              })
      | inr some_room ↦ rw some_room (
          Ends-mono (sift_in-IsAdded h timer v (ground arith) alive fresh)
            λ r' (valid', members, size', timers', cap'). record {
              valid = valid';
              members = members;
              grown = size';
              kept = timers';
              doubled = rw some_room cap';
            })
    ])
