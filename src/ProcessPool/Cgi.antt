-- ===== src/ProcessPool/Cgi.antt =====
-- process_pool/process_pool.cc: `cgi_conn`, the client of the process pool.
use socket_test.Common.{
  ℕ, ◌+◌, ◌-◌, ◌<◌, ◌≡◌, refl, ◌∙◌, subst, Bool, true, false, List, [], ◌∷◌, arith, ◌==◌, leb, ltb,
  ◌&&◌, if◌then◌else◌, length, replicate, set, inl, inr, ◌⊎◌,
}
use socket_test.Common.Array
use socket_test.Common.Run.{Run, ok, fault, out_of_fuel, out_of_bounds, Ends, ends, ◌>>=◌, access}
use socket_test.ProcessPool.Child.{Connection}
use socket_test.HttpConn.Recv.Stored.{IsReceivable}
use socket_test.HttpConn.Response.Written.{length-write_at}
use socket_test.HttpConn.Recv.{Recv, bytes, again, error, write_at}

abbrev pub buffer_size : ℕ
buffer_size = 1024

pub record CgiConn : Type 0 where
  pub epollfd : ℕ
  pub sockfd : ℕ
  pub address : ℕ
  pub buf : List ℕ
  pub read_idx : ℕ

-- `init`
unfoldable pub init : ℕ → ℕ → ℕ → CgiConn
init epollfd sockfd addr = record {
  epollfd = epollfd;
  sockfd = sockfd;
  address = addr;
  buf = replicate buffer_size 0;
  read_idx = 0;
}

-- How `process` leaves its loop: at EAGAIN or at a line end with the connection kept, with the
-- connection removed, or at the call of `access` with a file name, from which on the program is run.
pub data Outcome : Type 0 where
  kept removed : Outcome
  looks_up : List ℕ → Outcome

-- What follows a `recv` that has stored bytes, from the empty loop on: `for(; idx < m_read_idx;
-- ++idx);` leaves `idx` at `m_read_idx`, and the block behind it is run once. `none` means that the
-- loop of `process` goes on.
unfoldable pub after_recv : CgiConn → ℕ → Run (Bool × Outcome)
after_recv c idx =
    if leb 1 idx
    then access (ltb idx (length c.buf)) out_of_bounds (
        if Array.get c.buf (idx - 1) == b'\r' && Array.get c.buf idx == b'\n'
        then (true, kept)
        else if idx == c.read_idx
        then (false, kept)
        else (true, looks_up (set c.buf (idx - 1) 0)))
    else ok (if idx == c.read_idx then (false, kept) else (true, looks_up (set c.buf (idx - 1) 0)))

-- `process`, over what the calls of `recv` return, of which each is given room for 1023 bytes.
unfoldable pub process : List Recv → CgiConn → Run (CgiConn × Outcome)
unfolding after_recv
process [] c = out_of_fuel
process (again ∷ rs) c = ok (c, kept)
process (error ∷ rs) c = ok (c, removed)
process (bytes [] ∷ rs) c = ok (c, removed)
process (bytes (x ∷ xs) ∷ rs) c =
    let n = c.read_idx + length (x ∷ xs) in
    let c' = record c { buf = write_at c.buf c.read_idx (x ∷ xs); read_idx = n } in
    let rest = process rs c' in
    if ltb (length c.buf) n
    then fault out_of_bounds
    else (do (leaves, outcome) ← after_recv c' n; if leaves then ok (c', outcome) else rest)

after_recv-goes_on :
    (c : CgiConn) (idx : ℕ)
    → idx < length c.buf
    → idx ≡ c.read_idx
    → (after_recv c idx ≡ ok (false, kept)) ⊎ (after_recv c idx ≡ ok (true, kept))
unfolding after_recv
after_recv-goes_on c idx h e = ground arith

-- `process` never looks up the file that the client names, and so never runs a program: while the
-- bytes received fit in the buffer with one to spare, it ends with the connection kept or removed.
pub process-Ends :
    (rs : List Recv) (c : CgiConn)
    → length c.buf ≡ buffer_size
    → IsReceivable (buffer_size - 1 - c.read_idx) rs
    → c.read_idx < buffer_size
    → Ends (λ (c', o). (o ≡ kept) ⊎ (o ≡ removed)) (process rs c)
unfolding process
process-Ends [] c sized h room = absurd h
process-Ends (again ∷ rs) c sized h room = ends (inl refl)
process-Ends (error ∷ rs) c sized h room = ends (inr refl)
process-Ends (bytes [] ∷ rs) c sized h room = ends (inr refl)
process-Ends (bytes (x ∷ xs) ∷ rs) c sized (fits, h) room =
    let d = x ∷ xs in
    let n = c.read_idx + length d in
    let c' = record c { buf = write_at c.buf c.read_idx d; read_idx = n } in
    let len = length-write_at c.buf c.read_idx d in
    let inside : ltb (length c.buf) n ≡ false = ground (arith, sized) in
    let left : buffer_size - 1 - c.read_idx - length d ≡ buffer_size - 1 - n = omega arith in
    rw inside (elim (after_recv-goes_on c' n (omega (arith, len, sized)) refl) [
      | inl e ↦
          rw (e, process)
            (process-Ends rs c' (len ∙ sized) (subst (λ k. IsReceivable k rs) left h) (omega arith))
      | inr e ↦ rw (e, process) (ends (inl refl))
    ])

-- `cgi_conn` as the class of clients of the pool
abbrev pub cgi_class : Connection CgiConn (List Recv)
cgi_class = record {
  init = λ e fd addr c. init e fd addr;
  process = λ rs c. do
    (c', outcome) ← process rs c
    ok c';
}

-- the first `recv` gives no data
abbrev pub is_idle : List Recv → Bool
is_idle [] = false
is_idle (again ∷ rs) = true
is_idle (error ∷ rs) = true
is_idle (bytes [] ∷ rs) = true
is_idle (bytes (x ∷ xs) ∷ rs) = false

abbrev pub IsClientOf : ℕ → ℕ → CgiConn → Type 0
IsClientOf e fd c = (c.epollfd ≡ e) × (c.sockfd ≡ fd)

pub process-idle :
    (e fd : ℕ) (rs : List Recv) (c : CgiConn)
    → is_idle rs ≡ true
    → IsClientOf e fd c
    → Ends (IsClientOf e fd) (cgi_class.process rs c)
unfolding process
process-idle e fd [] c h v = cc
process-idle e fd (again ∷ rs) c h v = ends v
process-idle e fd (error ∷ rs) c h v = ends v
process-idle e fd (bytes [] ∷ rs) c h v = ends v
process-idle e fd (bytes (x ∷ xs) ∷ rs) c h v = cc

pub init-IsClientOf : (e fd addr : ℕ) (c : CgiConn) → IsClientOf e fd (cgi_class.init e fd addr c)
unfolding init
init-IsClientOf e fd addr c = (refl, refl)
