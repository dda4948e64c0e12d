-- ===== src/HttpConn/Process/Stuck.antt =====
-- The loop of `process_read` in http_conn.cc: when it never ends.
use socket_test.Common.{ℕ, zero, suc, ◌+◌, ◌-◌, ◌<◌, ◌≡◌, refl, ap, ◌∙◌, ◌∷◌, arith, length, drop}
use socket_test.Common.Array
use socket_test.Common.Run.{ok, out_of_fuel}
use socket_test.Common.CString.{starts_ignoring_case}
use socket_test.HttpConn.{
  HttpConn, no_request, CheckState, check_state_header, LineStatus, line_ok, line_open,
}
use socket_test.HttpConn.Lines.{cr, scan, parse_line}
use socket_test.HttpConn.Request.{FileSystem, parse_headers}
use socket_test.HttpConn.Process.{process_loop, process_read, round, line_step, after_header, next}
use socket_test.HttpConn.Process.Loop.{process_loop-taken}

-- Headers are expected, and a carriage return is all that is left to look at.
pub record IsStuck (c : HttpConn) : Type 0 where
  pub in_header : c.check_state ≡ check_state_header
  pub at_start : c.start_line ≡ c.checked_idx
  pub one_left : c.checked_idx + 1 ≡ c.read_idx
  pub in_buffer : c.read_idx < length c.read_buf
  pub at_cr : Array.get c.read_buf c.checked_idx ≡ cr

line_step-header :
    (fs : FileSystem) (status : LineStatus) (st : CheckState) (c : HttpConn) (text : ℕ)
    → st ≡ check_state_header
    → line_step fs st status c text ≡ after_header fs status (parse_headers c text)
unfolding line_step
line_step-header fs status st c text e = rw (e, line_step)

module _ {c : HttpConn} (s : IsStuck c) where
  parse_line-stuck : parse_line c ≡ (c, line_open)
  unfolding parse_line scan
  parse_line-stuck =
      let left : c.read_idx - c.checked_idx ≡ 1 = omega (arith, s.one_left) in
      rw left (ground (arith, s.at_cr, s.one_left))

  left_over : drop c.checked_idx c.read_buf ≡ cr ∷ drop (suc c.checked_idx) c.read_buf
  left_over =
      rw (Array.drop-get c.read_buf c.checked_idx (omega (arith, s.one_left, s.in_buffer)), s.at_cr)

  -- the next line is taken for a header of no known name
  headers-stuck :
      parse_headers (record c { start_line = c.checked_idx }) c.start_line
      ≡ (record c { start_line = c.checked_idx }, no_request)
  unfolding parse_headers starts_ignoring_case
  headers-stuck = rw (s.at_start, left_over, s.at_cr)

  round-stuck :
      (fs : FileSystem)
      → round fs line_ok c ≡ ok (record c { start_line = c.checked_idx }, next line_ok)
  unfolding round
  round-stuck fs =
      line_step-header fs line_ok c.check_state _ c.start_line s.in_header
      ∙ ap (after_header fs line_ok) headers-stuck

  IsStuck-again : IsStuck (record c { start_line = c.checked_idx })
  IsStuck-again = record {
    in_header = s.in_header;
    at_start = refl;
    one_left = s.one_left;
    in_buffer = s.in_buffer;
    at_cr = s.at_cr;
  }

process_loop-stuck :
    (k : ℕ) (fs : FileSystem) (c : HttpConn) → IsStuck c → process_loop k fs line_ok c ≡ out_of_fuel
unfolding process_loop
process_loop-stuck zero fs c s = refl
process_loop-stuck (suc k) fs c s =
    let taken =
      process_loop-taken k fs c (λ e. cc (s.in_header)) (rw (parse_line-stuck s) (λ e. cc)) in
    taken ∙ rw (parse_line-stuck s, round-stuck s fs) (process_loop-stuck k fs _ (IsStuck-again s))

-- `process_read` never returns once headers are expected and a carriage return is all that is left
-- to look at: however many rounds it makes, it makes another.
pub process_read-stuck :
    (k : ℕ) (fs : FileSystem) (c : HttpConn) → IsStuck c → process_read k fs c ≡ out_of_fuel
unfolding process_read
process_read-stuck k fs c s = process_loop-stuck k fs c s
