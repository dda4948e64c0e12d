-- ===== src/HttpConn/Recv/Stored.antt =====
-- What `read` of http_conn.cc leaves in the read buffer.
use mathlib.Core.List.{append_assoc, append-nil}
use socket_test.Common.{
  ℕ, ◌+◌, ◌-◌, ◌≤◌, ◌<◌, ◌≡◌, refl, sym, ap, subst, ◌∙◌, Bool, true, false, List, [], ◌∷◌, ◌++◌,
  arith, leb, length, take,
}
use socket_test.Common.Run.{Ends, ends, Ends-mono}
use socket_test.HttpConn.{HttpConn, read_buffer_size}
use socket_test.HttpConn.Response.Written.{take-write_at, length-write_at}
use socket_test.HttpConn.Recv.{Recv, bytes, again, error, write_at, store, read_loop, read}

-- the bytes received before the connection has no more for now, is closed or fails
abbrev pub received : List Recv → List ℕ
received [] = []
received (again ∷ rs) = []
received (error ∷ rs) = []
received (bytes [] ∷ rs) = []
received (bytes (x ∷ xs) ∷ rs) = x ∷ xs ++ received rs

-- What `recv` promises of its results: no call returns more bytes than it is given room for, and at
-- some call there is nothing more for now, the peer has closed or an error is reported.
abbrev pub IsReceivable : ℕ → List Recv → Type 0
IsReceivable room [] = ⊥
IsReceivable room (again ∷ rs) = Unit
IsReceivable room (error ∷ rs) = Unit
IsReceivable room (bytes [] ∷ rs) = Unit
IsReceivable room (bytes (x ∷ xs) ∷ rs) =
    (length (x ∷ xs) ≤ room) × IsReceivable (room - length (x ∷ xs)) rs

-- the first call that does not return bytes reports that there is nothing more for now
abbrev pub waits : List Recv → Bool
waits [] = false
waits (again ∷ rs) = true
waits (error ∷ rs) = false
waits (bytes [] ∷ rs) = false
waits (bytes (x ∷ xs) ∷ rs) = waits rs

-- the data in the read buffer
abbrev pub held : HttpConn → List ℕ
held c = take c.read_idx c.read_buf

-- `c` with more data in the read buffer
pub record IsFed (c : HttpConn) (data_in : List ℕ) (c' : HttpConn) : Type 0 where
  pub sized : length c'.read_buf ≡ read_buffer_size
  pub room : c'.read_idx ≤ read_buffer_size
  pub result : held c' ≡ held c ++ data_in
  pub same : c' ≡ record c { read_buf = c'.read_buf; read_idx = c'.read_idx }

read_loop-IsFed :
    (rs : List Recv) (c : HttpConn)
    → length c.read_buf ≡ read_buffer_size
    → c.read_idx ≤ read_buffer_size
    → IsReceivable (read_buffer_size - c.read_idx) rs
    → Ends (λ (c', b). IsFed c (received rs) c' × (b ≡ waits rs)) (read_loop rs c)
unfolding read_loop
read_loop-IsFed [] c sized room h = absurd h
read_loop-IsFed (again ∷ rs) c sized room h =
    ends
      (record { sized = sized; room = room; result = sym (append-nil (held c)); same = refl }, refl)
read_loop-IsFed (error ∷ rs) c sized room h =
    ends
      (record { sized = sized; room = room; result = sym (append-nil (held c)); same = refl }, refl)
read_loop-IsFed (bytes [] ∷ rs) c sized room h =
    ends
      (record { sized = sized; room = room; result = sym (append-nil (held c)); same = refl }, refl)
read_loop-IsFed (bytes (x ∷ xs) ∷ rs) c sized room (fits, h) =
    let d = x ∷ xs in
    let inside : leb (c.read_idx + length d) (length c.read_buf) ≡ true = ground (arith, sized) in
    let c' = record c {
      read_buf = write_at c.read_buf c.read_idx d;
      read_idx = c.read_idx + length d;
    } in
    let left : read_buffer_size - c.read_idx - length d
        ≡ read_buffer_size - (c.read_idx + length d) =
      omega arith in
    let here : held c' ≡ held c ++ d =
      rw (append-nil d) at (take-write_at c.read_buf c.read_idx d [] (omega (arith, sized))) in
    rw (inside, store)
      (Ends-mono
        (read_loop-IsFed rs c' (length-write_at c.read_buf c.read_idx d ∙ sized) (omega arith)
          (subst (λ k. IsReceivable k rs) left h))
        λ (c'', b) (fed, e). (
          record {
            sized = fed.sized;
            room = fed.room;
            result =
                fed.result
                ∙ ap (λ t. t ++ received rs) here
                ∙ append_assoc (held c) d (received rs);
            same = cc (fed.same);
          },
          e,
        ))

-- While there is room, and where each `recv` keeps to the room that it is given and some call
-- returns no data, `read` returns without a write past the buffer: what `recv` returns is added
-- behind the data, and the outcome is true exactly where the last call finds nothing more for now.
pub read-IsFed :
    (rs : List Recv) (c : HttpConn)
    → length c.read_buf ≡ read_buffer_size
    → c.read_idx < read_buffer_size
    → IsReceivable (read_buffer_size - c.read_idx) rs
    → Ends (λ (c', b). IsFed c (received rs) c' × (b ≡ waits rs)) (read rs c)
unfolding read
read-IsFed rs c sized room h =
    let some_room : leb read_buffer_size c.read_idx ≡ false = ground arith in
    rw some_room (read_loop-IsFed rs c sized (omega arith) h)
