-- ===== src/Chat/Bounds.antt =====
-- Where the loop of Chat/chat_server.cc over its table of descriptors ends.
use socket_test.Common.{
  ℕ, zero, suc, ◌+◌, ◌-◌, ◌*◌, ◌≤◌, ◌<◌, ◌≡◌, refl, ap, ◌∙◌, Bool, true, false, List, [], ◌∷◌,
  Option, some, arith, ltb, if◌then◌else◌, length, ℕ_discrete,
}
use socket_test.Common.Run.{Run, fault, out_of_bounds, ◌>>=◌}
use socket_test.Chat.{user_limit, Mask, PollFd, Chat, Answer, on_entry, entries_loop, report, serve}
use socket_test.Chat.Steps.{rank, IsStep, outside, goes_on, comes_back, on_entry-IsStep, at-outside}

step-outside :
    {s : Chat} {r : Run (Chat × Bool)} (f : Chat × Bool → Run Chat)
    → IsStep s r
    → ((s' : Chat)
        → length s'.fds ≡ length s.fds
        → rank s'.user_counter ≤ suc (rank s.user_counter)
        → f (s', false) ≡ fault out_of_bounds)
    → ((s' : Chat)
        → length s'.fds ≡ length s.fds
        → suc (rank s'.user_counter) ≡ rank s.user_counter
        → f (s', true) ≡ fault out_of_bounds)
    → (r >>= f) ≡ fault out_of_bounds
step-outside f outside on back = refl
step-outside f (goes_on len less) on back = on _ len less
step-outside f (comes_back len less) on back = back _ len less

-- an entry behind the table
on_entry-outside :
    (a : Answer) (i : ℕ) (s : Chat) → length s.fds ≤ i → on_entry a i s ≡ fault out_of_bounds
unfolding on_entry
on_entry-outside a i s h = rw (at-outside s.fds i h) refl

entries_loop-outside :
    (k : ℕ) (a : ℕ → Answer) (i : ℕ) (s : Chat)
    → length s.fds ≡ user_limit
    → i ≤ user_limit
    → 2 * (user_limit + 1 - i) + rank s.user_counter < k
    → entries_loop k a i s ≡ fault out_of_bounds
unfolding entries_loop
entries_loop-outside zero a i s len inside fuel = absurd (omega arith)
entries_loop-outside (suc k) a i s len inside fuel =
    let more : ltb i (user_limit + 1) ≡ true = ground arith in
    elim (ℕ_discrete i user_limit) [
      | yes last ↦
          let behind : on_entry (a k) i s ≡ fault out_of_bounds =
            on_entry-outside (a k) i s (omega arith) in
          rw (more, behind) refl
      | no earlier ↦ rw more (
          step-outside (λ r. entries_loop k a (if r.1 then i else i + 1) r.0)
            (on_entry-IsStep (a k) i s)
            (λ s' same less.
              entries_loop-outside k a (i + 1) s' (same ∙ len) (omega arith) (omega arith))
            (λ s' same less. entries_loop-outside k a i s' (same ∙ len) inside (omega arith)))
    ]

length-report : (ms : List Mask) (ps : List PollFd) → length (report ms ps) ≡ length ps
unfolding report
length-report ms [] = refl
length-report [] (p ∷ ps) = refl
length-report (m ∷ ms) (p ∷ ps) = ap suc (length-report ms ps)

-- On a table of `USER_LIMIT` entries, whatever `poll` reports, unless it fails, and whatever the calls
-- that follow return: the first round of the server accesses an element outside of an array. It gets
-- there within 14 rounds of the loop over the entries, and one more for each client counted.
pub serve-out_of_bounds :
    (k : ℕ) (a : ℕ → Answer) (ms : List Mask) (rs : List (Option (List Mask))) (s : Chat)
    → length s.fds ≡ user_limit
    → 12 + rank s.user_counter < k
    → serve k a (some ms ∷ rs) s ≡ fault out_of_bounds
unfolding serve
serve-out_of_bounds k a ms rs s len fuel =
    let s0 = record s { fds = report ms s.fds } in
    let done : entries_loop k a 0 s0 ≡ fault out_of_bounds =
      entries_loop-outside k a 0 s0 (length-report ms s.fds ∙ len) (omega arith) (omega arith) in
    rw done refl
