-- ===== src/SharedChat/Block.antt =====
-- What `run_child` of multi process/shm_test.cc does to the shared memory.
use socket_test.Common.{
  ℕ, zero, suc, ◌+◌, ◌-◌, ◌*◌, ◌≤◌, ◌<◌, ◌≡◌, refl, ◌∙◌, ◌⊎◌, Bool, true, List, [], ◌∷◌, arith, ltb,
  ◌&&◌, length, set, replicate, take, length-replicate,
}
use socket_test.Common.Array
use socket_test.Common.Run.{Ends, ends, Ends-bind, if-Ends}
use socket_test.HttpConn.Recv.{Recv, bytes, again, error, write_at}
use socket_test.SharedChat.{user_limit}
use socket_test.SharedChat.Child.{
  buffer_size, Child, write_block, ChildEvent, from_client, closed_pipe, no_notice, notice, ignored,
  after_recv, child_event, child_events, ChildWaited, failed, interrupted, terminated, ready,
  run_child,
}

set-elsewhere :
    (b : List ℕ) (j v i : ℕ) → (i < j) ⊎ (j < i) → Array.get (set b j v) i ≡ Array.get b i
unfolding Array.get
set-elsewhere [] j v i h = refl
set-elsewhere (x ∷ b) zero v zero h = absurd (omega arith)
set-elsewhere (x ∷ b) zero v (suc i) h = refl
set-elsewhere (x ∷ b) (suc j) v zero h = refl
set-elsewhere (x ∷ b) (suc j) v (suc i) h = set-elsewhere b j v i (ground arith)

-- A write changes only the bytes where it stands.
write_at-elsewhere :
    (b : List ℕ) (off : ℕ) (text : List ℕ) (i : ℕ)
    → (i < off) ⊎ (off + length text ≤ i)
    → Array.get (write_at b off text) i ≡ Array.get b i
unfolding write_at
write_at-elsewhere b off [] i h = refl
write_at-elsewhere b off (x ∷ text) i h =
    write_at-elsewhere (set b off x) (off + 1) text i (ground arith)
    ∙ set-elsewhere b off x i (ground arith)

length-take : (n : ℕ) (xs : List ℕ) → length (take n xs) ≤ n
length-take zero xs = omega arith
length-take (suc n) [] = omega arith
length-take (suc n) (x ∷ xs) = omega (arith, length-take n xs)

-- `mem'` is `mem` outside of the block `idx`
abbrev pub IsOwnBlock : ℕ → List ℕ → List ℕ → Type 0
IsOwnBlock idx mem mem' =
    (i : ℕ)
    → (i < idx * buffer_size) ⊎ (idx * buffer_size + buffer_size ≤ i)
    → Array.get mem' i ≡ Array.get mem i

-- the notices are of clients that have a block
unfoldable pub has_block : ChildEvent → Bool
has_block (from_client r) = true
has_block closed_pipe = true
has_block no_notice = true
has_block (notice client) = ltb client user_limit
has_block ignored = true

unfoldable pub all_have_block : List ChildEvent → Bool
all_have_block [] = true
all_have_block (e ∷ es) = has_block e && all_have_block es

unfoldable pub rounds_have_block : List ChildWaited → Bool
rounds_have_block [] = true
rounds_have_block (failed ∷ rs) = rounds_have_block rs
rounds_have_block (interrupted ∷ rs) = rounds_have_block rs
rounds_have_block (terminated ∷ rs) = rounds_have_block rs
rounds_have_block (ready es ∷ rs) = all_have_block es && rounds_have_block rs

module _ (idx : ℕ) (inside : idx < user_limit) where
  write_block-IsOwnBlock :
      (text : List ℕ) (mem : List ℕ) (s : Child)
      → length text ≤ buffer_size
      → IsOwnBlock idx mem s.share_mem
      → Ends (λ s'. IsOwnBlock idx mem s'.share_mem) (write_block idx text s)
  unfolding write_block
  write_block-IsOwnBlock text mem s short v =
      let fits : ltb idx user_limit ≡ true = ground arith in
      rw fits (
        ends
          λ i h. write_at-elsewhere s.share_mem (idx * buffer_size) text i (ground arith) ∙ v i h)

  child_event-IsOwnBlock :
      (e : ChildEvent) (mem : List ℕ) (s : Child)
      → has_block e ≡ true
      → IsOwnBlock idx mem s.share_mem
      → Ends (λ s'. IsOwnBlock idx mem s'.share_mem) (child_event idx e s)
  unfolding child_event has_block after_recv
  child_event-IsOwnBlock (from_client r) mem s p v =
      Ends-bind
        (write_block-IsOwnBlock (replicate buffer_size 0) mem s
          (omega (arith, length-replicate {A = ℕ} buffer_size 0)) v)
        λ s1 w. received r s1 w
    where
      received :
          (r : Recv) (s1 : Child)
          → IsOwnBlock idx mem s1.share_mem
          → Ends (λ s'. IsOwnBlock idx mem s'.share_mem) (after_recv idx r s1)
      received again s1 w = ends w
      received error s1 w = ends w
      received (bytes []) s1 w = ends w
      received (bytes (x ∷ xs)) s1 w =
          Ends-bind
            (write_block-IsOwnBlock (take (buffer_size - 1) (x ∷ xs)) mem s1
              (omega (arith, length-take (buffer_size - 1) (x ∷ xs))) w)
            λ s2 u. ends u
  child_event-IsOwnBlock closed_pipe mem s p v = ends v
  child_event-IsOwnBlock no_notice mem s p v = ends v
  child_event-IsOwnBlock (notice client) mem s p v = rw p (ends v)
  child_event-IsOwnBlock ignored mem s p v = ends v

  child_events-IsOwnBlock :
      (es : List ChildEvent) (mem : List ℕ) (s : Child)
      → all_have_block es ≡ true
      → IsOwnBlock idx mem s.share_mem
      → Ends (λ s'. IsOwnBlock idx mem s'.share_mem) (child_events idx es s)
  unfolding child_events all_have_block
  child_events-IsOwnBlock [] mem s p v = ends v
  child_events-IsOwnBlock (e ∷ es) mem s p v =
      Ends-bind (child_event-IsOwnBlock e mem s (ground (arith, p)) v)
        λ s' w. child_events-IsOwnBlock es mem s' (ground (arith, p)) w

  run_child_from :
      (rs : List ChildWaited) (mem : List ℕ) (s : Child)
      → rounds_have_block rs ≡ true
      → IsOwnBlock idx mem s.share_mem
      → Ends (λ s'. IsOwnBlock idx mem s'.share_mem) (run_child idx rs s)
  unfolding run_child rounds_have_block
  run_child_from [] mem s p v = ends v
  run_child_from (failed ∷ rs) mem s p v = ends v
  run_child_from (interrupted ∷ rs) mem s p v =
      if-Ends s.stop (λ h. ends v) λ h. run_child_from rs mem s p v
  run_child_from (terminated ∷ rs) mem s p v = if-Ends s.stop (λ h. ends v) λ h. ends v
  run_child_from (ready es ∷ rs) mem s p v =
      if-Ends s.stop (λ h. ends v)
        λ h.
          Ends-bind (child_events-IsOwnBlock es mem s (ground (arith, p)) v)
            λ s' w. run_child_from rs mem s' (ground (arith, p)) w

-- For one of the first USER_LIMIT clients, and notices of such clients only: the child's loop makes its
-- rounds without an access outside the shared memory, and of the memory it changes its own block only.
pub run_child-IsOwnBlock :
    (idx : ℕ) (rs : List ChildWaited) (s : Child)
    → idx < user_limit
    → rounds_have_block rs ≡ true
    → Ends (λ s'. IsOwnBlock idx s.share_mem s'.share_mem) (run_child idx rs s)
run_child-IsOwnBlock idx rs s inside p = run_child_from idx inside rs s.share_mem s p (λ i h. refl)
