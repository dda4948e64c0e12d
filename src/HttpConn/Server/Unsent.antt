-- ===== src/HttpConn/Server/Unsent.antt =====
-- What `write` of http_conn.cc leaves alone.
use socket_test.Common.{
  ℕ, ◌≡◌, refl, not, List, [], ◌∷◌, arith, length-replicate, Bool-cases, inl, inr, length, ◌==◌,
}
use socket_test.Common.Int.{ℤ, pos, ◌+ℤ◌, ◌-ℤ◌, ltb_ℤ}
use socket_test.Common.Run.{Ends, ends}
use socket_test.HttpConn.{HttpConn, Shared, read_buffer_size, call, modfd, reset}
use socket_test.HttpConn.Response.{Sent, sent, again, error, unmap, write_done, write_loop, write}

-- the connection still has its socket, and its read buffer its size
pub record IsKept (s s' : Shared × HttpConn) : Type 0 where
  pub count : s'.0.user_count ≡ s.0.user_count
  pub socket : s'.1.sockfd ≡ s.1.sockfd
  pub sized : length s.1.read_buf ≡ read_buffer_size → length s'.1.read_buf ≡ read_buffer_size

-- at some call there is no room for now, or an error is reported
abbrev pub Settles : List Sent → Type 0
Settles [] = ⊥
Settles (again ∷ rs) = Unit
Settles (error ∷ rs) = Unit
Settles (sent n ∷ rs) = Settles rs

unmap-IsKept : (s : Shared × HttpConn) → IsKept s (unmap s)
unfolding unmap call
unmap-IsKept (w, c) = record {
  count = ground arith;
  socket = ground arith;
  sized = λ e. ground arith;
}

write_done-IsKept : (s : Shared × HttpConn) → IsKept s (write_done s).0
unfolding write_done modfd call reset
write_done-IsKept s =
    let k = unmap-IsKept s in
    let zeros = length-replicate {A = ℕ} 2048 0 in
    record {
      count = ground (arith, k.count);
      socket = ground (arith, k.socket);
      sized = λ e. ground (arith, k.sized e, zeros);
    }

write_loop-IsKept :
    (rs : List Sent) (left total : ℤ) (s : Shared × HttpConn)
    → Settles rs
    → Ends (λ r. IsKept s r.0) (write_loop rs left total s)
unfolding write_loop modfd call
write_loop-IsKept [] left total s h = absurd h
write_loop-IsKept (again ∷ rs) left total s h =
    ends (record { count = refl; socket = refl; sized = λ e. e })
write_loop-IsKept (error ∷ rs) left total s h = ends (unmap-IsKept s)
write_loop-IsKept (sent n ∷ rs) left total s h =
    elim (Bool-cases (not (ltb_ℤ (total +ℤ pos n) (left -ℤ pos n)))) [
      | inl all ↦ rw (all, write_loop) (ends (write_done-IsKept s))
      | inr some_left ↦
          rw (some_left, write_loop) (write_loop-IsKept rs (left -ℤ pos n) (total +ℤ pos n) s h)
    ]

pub write-IsKept :
    (rs : List Sent) (s : Shared × HttpConn) → Settles rs → Ends (λ r. IsKept s r.0) (write rs s)
unfolding write modfd call reset
write-IsKept rs (w, c) h = elim (Bool-cases (c.write_idx == 0)) [
  | inl nothing ↦
      rw (nothing, write)
        (ends
          (record { count = refl; socket = refl; sized = λ e. length-replicate {A = ℕ} 2048 0 }))
  | inr some_left ↦ rw (some_left, write) (write_loop-IsKept rs (pos c.write_idx) (pos 0) (w, c) h)
]
