-- ===== src/HttpConn/Process/Loop.antt =====
-- The loop of `process_read` in http_conn.cc: when it ends, and which lines it takes.
use socket_test.Common.{ℕ, suc, ◌≡◌, ◌≢◌, refl, true, false, arith}
use socket_test.Common.Run.{ok, ◌>>=◌}
use socket_test.HttpConn.{
  HttpConn, no_request, CheckState, check_state_requestline, check_state_header,
  check_state_content, line_ok,
}
use socket_test.HttpConn.Lines.{parse_line}
use socket_test.HttpConn.Request.{FileSystem}
use socket_test.HttpConn.Process.{test_by, loop_test, process_loop, process_read, round, done, next}

test_by-found :
    (s : CheckState) (c : HttpConn)
    → s ≢ check_state_content
    → (parse_line c).1 ≡ line_ok
    → test_by s line_ok c ≡ ((parse_line c).0, false)
unfolding test_by
test_by-found check_state_requestline c h e = rw e
test_by-found check_state_header c h e = rw e
test_by-found check_state_content c h e = absurd (h refl)

test_by-not_found :
    (s : CheckState) (c : HttpConn)
    → s ≢ check_state_content
    → (parse_line c).1 ≢ line_ok
    → test_by s line_ok c ≡ ((parse_line c).0, true)
unfolding test_by
test_by-not_found check_state_requestline c h e = ground arith
test_by-not_found check_state_header c h e = ground arith
test_by-not_found check_state_content c h e = absurd (h refl)

loop_test-found :
    (c : HttpConn)
    → c.check_state ≢ check_state_content
    → (parse_line c).1 ≡ line_ok
    → loop_test line_ok c ≡ ((parse_line c).0, false)
unfolding loop_test
loop_test-found c h e = test_by-found c.check_state c h e

loop_test-not_found :
    (c : HttpConn)
    → c.check_state ≢ check_state_content
    → (parse_line c).1 ≢ line_ok
    → loop_test line_ok c ≡ ((parse_line c).0, true)
unfolding loop_test
loop_test-not_found c h e = test_by-not_found c.check_state c h e

-- While a request line or headers are expected, a complete line ends `process_read` before the line
-- is looked at: it returns NO_REQUEST, whatever the line says, and only the marks of the line's end
-- and `m_checked_idx` have changed.
pub process_read-line_ok :
    (k : ℕ) (fs : FileSystem) (c : HttpConn)
    → c.check_state ≢ check_state_content
    → (parse_line c).1 ≡ line_ok
    → process_read (suc k) fs c ≡ ok ((parse_line c).0, no_request)
unfolding process_read process_loop
process_read-line_ok k fs c h e = rw (loop_test-found c h e, process_loop, loop_test-found c h e)

-- A line that is not complete, or that ends without a carriage return, is taken for a request line
-- or header.
pub process_loop-taken :
    (k : ℕ) (fs : FileSystem) (c : HttpConn)
    → c.check_state ≢ check_state_content
    → (parse_line c).1 ≢ line_ok
    → process_loop (suc k) fs line_ok c ≡ (
        round fs line_ok (parse_line c).0 >>= λ (c', step). elim step [
          | done code ↦ ok (c', code)
          | next status ↦ process_loop k fs status c'
        ])
unfolding process_loop
process_loop-taken k fs c h e =
    rw (loop_test-not_found c h e, process_loop, loop_test-not_found c h e)
