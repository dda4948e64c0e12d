-- ===== src/HttpConn/Response/Sending.antt =====
-- `write` of http_conn.cc.
use socket_test.Common.{
  ℕ, ◌+◌, ◌-◌, ◌*◌, ◌≤◌, ◌<◌, ◌≡◌, true, false, none, if◌then◌else◌, not, List, [], ◌∷◌, ◌++◌, map,
  arith, ◌==◌, leb,
}
use socket_test.Common.Int.{pos, ◌+ℤ◌, ◌-ℤ◌, ltb_ℤ}
use socket_test.Common.Run.{ok}
use socket_test.HttpConn.{HttpConn, Shared, modfd, call, reset}
use socket_test.HttpConn.Response.{Sent, sent, write, write_loop, write_done, unmap}

abbrev pub sum : List ℕ → ℕ
sum [] = 0
sum (n ∷ ns) = n + sum ns

sub-pos : (a b : ℕ) → b ≤ a → pos a -ℤ pos b ≡ pos (a - b)
unfolding ◌-ℤ◌
sub-pos a b h = ground arith

add-pos : (a b : ℕ) → pos a +ℤ pos b ≡ pos (a + b)
unfolding ◌+ℤ◌
add-pos a b = ground arith

-- the test that ends the loop, after a call that has sent `m` bytes
ends_by :
    (left total m : ℕ)
    → not (ltb_ℤ (pos total +ℤ pos m) (pos left -ℤ pos m)) ≡ leb left (total + m + m)
unfolding ◌+ℤ◌ ◌-ℤ◌
ends_by left total m = ground arith

write_loop-half :
    (ns : List ℕ) (n : ℕ) (rs : List Sent) (left total : ℕ) (s : Shared × HttpConn)
    → total + 2 * sum ns < left
    → left ≤ total + 2 * (sum ns + n)
    → write_loop (map sent ns ++ sent n ∷ rs) (pos left) (pos total) s ≡ ok (write_done s)
unfolding write_loop
write_loop-half [] n rs left total s below above =
    let stop : leb left (total + n + n) ≡ true = ground arith in rw (ends_by left total n, stop)
write_loop-half (m ∷ ns) n rs left total s below above =
    let go : leb left (total + m + m) ≡ false = ground arith in
    rw (ends_by left total m, go, sub-pos left m (omega arith), add-pos total m)
      (write_loop-half ns n rs (left - m) (total + m) s (omega arith) (omega arith))

-- `write` takes the response for sent as soon as half of its bytes are: whatever the next calls of
-- `writev` would return, it unmaps the file, and prepares for the next request or gives up the
-- connection, though up to half of the header is unsent. It returns `m_linger`, no file is mapped then,
-- and the index of the response is back at 0 where the connection is kept.
pub write-half :
    (ns : List ℕ) (n : ℕ) (rs : List Sent) (w : Shared) (c : HttpConn)
    → 2 * sum ns < c.write_idx
    → c.write_idx ≤ 2 * (sum ns + n)
    → (write (map sent ns ++ sent n ∷ rs) (w, c) ≡ ok (write_done (w, c)))
      × ((write_done (w, c)).1 ≡ c.linger)
      × ((write_done (w, c)).0.1.file_address ≡ none)
      × ((write_done (w, c)).0.1.write_idx ≡ (if c.linger then 0 else c.write_idx))
unfolding write write_done unmap modfd call reset
write-half ns n rs w c below above =
    let some_left : (c.write_idx == 0) ≡ false = ground arith in
    (
      rw some_left (write_loop-half ns n rs c.write_idx 0 (w, c) (omega arith) (omega arith)),
      ground arith,
      ground arith,
      ground arith,
    )
