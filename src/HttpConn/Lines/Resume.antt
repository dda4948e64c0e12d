-- ===== src/HttpConn/Lines/Resume.antt =====
-- `parse_line` of http_conn.cc on data that arrives in pieces.
use socket_test.Common.{ℕ, zero, suc, ◌+◌, ◌-◌, ◌≤◌, ◌<◌, ◌≡◌, refl, ap, List, arith}
use socket_test.Common.Array
use socket_test.HttpConn.{HttpConn, line_open}
use socket_test.HttpConn.Lines.{Scan, scan, parse_line}

-- the two buffers hold the same bytes before `r`
abbrev pub AgreeBelow : ℕ → List ℕ → List ℕ → Type 0
AgreeBelow r b b' = (j : ℕ) → j < r → Array.get b' j ≡ Array.get b j

scan-resume :
    (n m r r' : ℕ) (b b' : List ℕ) (i : ℕ)
    → i + n ≡ r
    → i + m ≡ r'
    → n ≤ m
    → AgreeBelow r b b'
    → (scan n r b i).status ≡ line_open
    → scan (r' - (scan n r b i).checked) r' b' (scan n r b i).checked ≡ scan m r' b' i
unfolding scan
scan-resume zero m r r' b b' i e e' le agree open_still =
    let left : r' - i ≡ m = omega arith in rw left
scan-resume (suc n) zero r r' b b' i e e' le agree open_still = absurd (omega arith)
scan-resume (suc n) (suc m) r r' b b' i e e' le agree open_still =
    let whole : r' - i ≡ suc m = omega arith in
    ground (
      arith,
      whole,
      agree i,
      agree (i + 1),
      scan-resume n m r r' b b' (i + 1),
      ap (λ k. scan k r' b' i) whole,
    )

scan-open_buf :
    (n r : ℕ) (b : List ℕ) (i : ℕ) → (scan n r b i).status ≡ line_open → (scan n r b i).buf ≡ b
unfolding scan
scan-open_buf zero r b i h = refl
scan-open_buf (suc n) r b i h = ground (arith, scan-open_buf n r b (i + 1))

-- `c` after more bytes have arrived behind those that it holds
abbrev pub arrived : HttpConn → List ℕ → ℕ → HttpConn
arrived c b r = record c { read_buf = b; read_idx = r }

-- When a call of `parse_line` has asked for more data, the call after more data has arrived behind
-- the old ends as a single call on all of the data does.
pub parse_line-resume :
    (c : HttpConn) (b : List ℕ) (r : ℕ)
    → c.checked_idx ≤ c.read_idx
    → c.read_idx ≤ r
    → AgreeBelow c.read_idx c.read_buf b
    → (parse_line c).1 ≡ line_open
    → parse_line (arrived (parse_line c).0 b r) ≡ parse_line (arrived c b r)
unfolding parse_line
parse_line-resume c b r h k agree open_still =
    let same =
      scan-resume (c.read_idx - c.checked_idx) (r - c.checked_idx) c.read_idx r c.read_buf b
        c.checked_idx (omega arith) (omega arith) (omega arith) agree open_still in
    ap
      (λ (s : Scan).
        (record (arrived c b r) { read_buf = s.buf; checked_idx = s.checked }, s.status))
      same
