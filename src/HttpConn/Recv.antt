-- ===== src/HttpConn/Recv.antt =====
-- `read` of http_conn.cc, which receives what has arrived.
pub mod Stored
use socket_test.Common.{
  ℕ, zero, suc, ◌+◌, ◌-◌, Bool, true, false, List, [], ◌∷◌, ◌++◌, leb, if◌then◌else◌, set, length,
  take, drop,
}
use socket_test.Common.Run.{Run, ok, fault, out_of_fuel, out_of_bounds, ◌>>=◌, access}
use socket_test.HttpConn.{HttpConn, read_buffer_size}

-- What one call of `recv` returns: bytes, of which none means that the peer has closed; EAGAIN or
-- EWOULDBLOCK; another error.
pub data Recv : Type 0 where
  bytes : List ℕ → Recv
  again error : Recv

-- the bytes written over the buffer from an offset on
unfoldable pub write_at : List ℕ → ℕ → List ℕ → List ℕ
write_at b off [] = b
write_at b off (x ∷ xs) = write_at (set b off x) (off + 1) xs

-- what `recv` stores, if it stays in the buffer
unfoldable pub store : HttpConn → List ℕ → Run HttpConn
unfolding write_at
store c xs =
    access (leb (c.read_idx + length xs) (length c.read_buf)) out_of_bounds
      (record c { read_buf = write_at c.read_buf c.read_idx xs; read_idx = c.read_idx + length xs })

-- The loop, over what the calls of `recv` return. Where these are used up, the next call has not
-- returned.
unfoldable pub read_loop : List Recv → HttpConn → Run (HttpConn × Bool)
unfolding store
read_loop [] c = out_of_fuel
read_loop (again ∷ rs) c = ok (c, true)
read_loop (error ∷ rs) c = ok (c, false)
read_loop (bytes [] ∷ rs) c = ok (c, false)
read_loop (bytes (x ∷ xs) ∷ rs) c = store c (x ∷ xs) >>= λ c'. read_loop rs c'

unfoldable pub read : List Recv → HttpConn → Run (HttpConn × Bool)
unfolding read_loop
read rs c = if leb read_buffer_size c.read_idx then ok (c, false) else read_loop rs c
