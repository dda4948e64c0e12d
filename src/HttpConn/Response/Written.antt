-- ===== src/HttpConn/Response/Written.antt =====
-- What `add_response` of http_conn.cc leaves in the write buffer.
use mathlib.Core.List.{append_assoc, append-nil}
use socket_test.Common.{
  ℕ, zero, suc, ◌+◌, ◌-◌, ◌≤◌, ◌<◌, ◌≡◌, refl, ap, ◌∙◌, ◌≢◌, Bool, false, List, [], ◌∷◌, ◌++◌,
  arith, ◌==◌, leb, if◌then◌else◌, length, set, take, length-set, length-append, Bool-cases, inl,
  inr,
}
use socket_test.Common.Run.{Ends, ends, Ends-bind, if-Ends}
use socket_test.HttpConn.{HttpConn, write_buffer_size}
use socket_test.HttpConn.Recv.{write_at}
use socket_test.HttpConn.Response.{vsnprintf, add_response}

pub length-write_at : (b : List ℕ) (off : ℕ) (xs : List ℕ) → length (write_at b off xs) ≡ length b
unfolding write_at
length-write_at b off [] = refl
length-write_at b off (x ∷ xs) = length-write_at (set b off x) (off + 1) xs ∙ length-set b off x

take-set : (b : List ℕ) (n off x : ℕ) → n ≤ off → take n (set b off x) ≡ take n b
take-set b zero off x h = refl
take-set [] (suc n) off x h = refl
take-set (y ∷ b) (suc n) zero x h = absurd (omega arith)
take-set (y ∷ b) (suc n) (suc off) x h = ap (◌∷◌ y) (take-set b n off x (omega arith))

-- what stands before the offset is kept
pub take-write_at_before :
    (b : List ℕ) (n off : ℕ) (xs : List ℕ) → n ≤ off → take n (write_at b off xs) ≡ take n b
unfolding write_at
take-write_at_before b n off [] h = refl
take-write_at_before b n off (x ∷ xs) h =
    take-write_at_before (set b off x) n (off + 1) xs (omega arith) ∙ take-set b n off x h

take-suc-set :
    (b : List ℕ) (off x : ℕ) → off < length b → take (suc off) (set b off x) ≡ take off b ++ x ∷ []
take-suc-set [] off x h = absurd (omega arith)
take-suc-set (y ∷ b) zero x h = refl
take-suc-set (y ∷ b) (suc off) x h = ap (◌∷◌ y) (take-suc-set b off x (omega arith))

-- the bytes written stand behind what stood before the offset
pub take-write_at :
    (b : List ℕ) (off : ℕ) (xs ys : List ℕ)
    → off + length xs ≤ length b
    → take (off + length xs) (write_at b off (xs ++ ys)) ≡ take off b ++ xs
unfolding write_at
take-write_at b off [] ys h =
    let here : off + 0 ≡ off = omega arith in
    rw (here, append-nil (take off b)) (take-write_at_before b off off ys (omega arith))
take-write_at b off (x ∷ xs) ys h =
    let shift : off + suc (length xs) ≡ off + 1 + length xs = omega arith in
    let one : off + 1 ≡ suc off = omega arith in
    let room : off + 1 + length xs ≤ length (set b off x) = omega (arith, length-set b off x) in
    rw
      (
        shift,
        take-write_at (set b off x) (off + 1) xs ys room,
        one,
        take-suc-set b off x (omega arith),
      )
      (append_assoc (take off b) (x ∷ []) xs)

-- the response so far
abbrev pub written : HttpConn → List ℕ
written c = take c.write_idx c.write_buf

-- The write buffer has its size, and the response so far fits with a NUL behind it.
pub record IsWritable (c : HttpConn) : Type 0 where
  pub sized : length c.write_buf ≡ write_buffer_size
  pub room : c.write_idx < write_buffer_size

-- `c'` is `c` but for the response.
abbrev pub SameRequest : HttpConn → HttpConn → Type 0
SameRequest c c' = c' ≡ record c { write_buf = c'.write_buf; write_idx = c'.write_idx }

-- what `add_response` of `text` returns
pub record IsAppended (c : HttpConn) (text : List ℕ) (r : HttpConn × Bool) : Type 0 where
  pub writable : IsWritable r.0
  pub same : SameRequest c r.0
  pub fits : r.1 ≡ leb (c.write_idx + length text + 2) write_buffer_size
  pub result : written r.0 ≡ (if r.1 then written c ++ text else written c)
  pub index : r.0.write_idx ≡ (if r.1 then c.write_idx + length text else c.write_idx)

length-take_le : (n : ℕ) (xs : List ℕ) → length (take n xs) ≤ n
length-take_le zero xs = omega arith
length-take_le (suc n) [] = omega arith
length-take_le (suc n) (x ∷ xs) = omega (arith, length-take_le n xs)

take-all : (n : ℕ) (xs : List ℕ) → length xs ≤ n → take n xs ≡ xs
take-all zero [] h = refl
take-all zero (x ∷ xs) h = absurd (omega arith)
take-all (suc n) [] h = refl
take-all (suc n) (x ∷ xs) h = ap (◌∷◌ x) (take-all n xs (omega arith))

-- The bytes `vsnprintf` is given room for are in the buffer.
vsnprintf-Ends :
    (b : List ℕ) (off size : ℕ) (text : List ℕ)
    → off + size ≤ length b
    → Ends
        (λ b'.
          (length b' ≡ length b)
          × (take off b' ≡ take off b)
          × (length text < size → take (off + length text) b' ≡ take off b ++ text))
        (vsnprintf b off size text)
vsnprintf-Ends b off size text h =
    let out = take (size - 1) text ++ 0 ∷ [] in
    let small : size ≢ 0 → length out ≤ size = λ some. omega (
      arith,
      length-append (take (size - 1) text) (0 ∷ []),
      length-take_le (size - 1) text,
      some,
    ) in
    if-Ends (size == 0) (λ none_left. ends (refl, refl, λ short. absurd (ground arith)))
      λ some_left.
        let some : size ≢ 0 = λ e. ground arith in
        if-Ends (leb (off + length out) (length b))
          (λ inside. ends (
            length-write_at b off out,
            take-write_at_before b off off out (omega arith),
            λ short.
                rw (take-all (size - 1) text (omega arith))
                  (take-write_at b off text (0 ∷ []) (omega arith)),
          ))
          λ outside. absurd (ground (arith, small some))

-- On a response that fits with a NUL behind it, `add_response` returns without a fault, and so never
-- writes past the buffer. It appends the whole text where that fits with two bytes to spare, and
-- otherwise reports failure and leaves the response as it was; it changes nothing else.
pub add_response-IsAppended :
    (c : HttpConn) (text : List ℕ) → IsWritable c → Ends (IsAppended c text) (add_response c text)
unfolding add_response
add_response-IsAppended c text w =
    let size = write_buffer_size - 1 - c.write_idx in
    let roomy : leb write_buffer_size c.write_idx ≡ false = ground (arith, w.room) in
    rw roomy (
      Ends-bind (vsnprintf-Ends c.write_buf c.write_idx size text (omega (arith, w.sized, w.room)))
        λ b (len, before, whole). elim (Bool-cases (leb size (length text))) [
          | inl long ↦ rw long (
              ends (record {
                writable = record { sized = len ∙ w.sized; room = w.room };
                same = refl;
                fits = ground arith;
                result = before;
                index = refl;
              }))
          | inr short ↦ rw short (
              ends (record {
                writable = record { sized = len ∙ w.sized; room = ground arith };
                same = refl;
                fits = ground arith;
                result = whole (ground arith);
                index = refl;
              }))
        ])
