-- ===== src/HttpConn/Lines.antt =====
-- `parse_line` of http_conn.cc, which finds the end of the next line in the read buffer.
pub mod Resume
pub mod Found
use socket_test.Common.{
  ℕ, zero, suc, ◌+◌, ◌-◌, Bool, true, false, List, ◌==◌, ltb, ◌&&◌, if◌then◌else◌, set,
}
use socket_test.Common.Array
use socket_test.HttpConn.{HttpConn, LineStatus, line_ok, line_bad, line_open}

-- where the loop stops: the buffer, `m_checked_idx` and the status
pub record Scan : Type 0 where
  pub buf : List ℕ
  pub checked : ℕ
  pub status : LineStatus

abbrev pub cr : ℕ
cr = b'\r'

abbrev pub lf : ℕ
lf = b'\n'

-- two NULs over the line end that starts at `i`
abbrev pub cut : List ℕ → ℕ → List ℕ
cut b i = set (set b i 0) (i + 1) 0

-- The loop with `n` bytes left to check, from `i` on. `r` is `m_read_idx`, and `i + n` is `r`.
unfoldable pub scan : ℕ → ℕ → List ℕ → ℕ → Scan
scan zero r b i = record { buf = b; checked = i; status = line_open }
scan (suc n) r b i =
    let rest = scan n r b (i + 1) in
    if Array.get b i == cr
    then (if i + 1 == r
        then record { buf = b; checked = i; status = line_open }
        else if Array.get b (i + 1) == lf
        then record { buf = cut b i; checked = i + 2; status = line_ok }
        else rest)
    else if Array.get b i == lf
    then (if ltb 1 i && Array.get b (i - 1) == cr
        then record { buf = cut b (i - 1); checked = i + 1; status = line_ok }
        else record { buf = b; checked = i; status = line_bad })
    else rest

unfoldable pub parse_line : HttpConn → HttpConn × LineStatus
parse_line c =
    let s = scan (c.read_idx - c.checked_idx) c.read_idx c.read_buf c.checked_idx in
    (record c { read_buf = s.buf; checked_idx = s.checked }, s.status)
