-- ===== src/HttpConn/Process.antt =====
-- `process_read` and `process` of http_conn.cc.
pub mod Loop
pub mod Kept
pub mod Stuck
use socket_test.Common.{ℕ, zero, suc, Bool, true, false, not, if◌then◌else◌}
use socket_test.Common.Run.{Run, ok, out_of_fuel, ◌>>=◌}
use socket_test.HttpConn.{
  HttpConn, Shared, HttpCode, no_request, get_request, bad_request, CheckState,
  check_state_requestline, check_state_header, check_state_content, LineStatus, line_ok, line_bad,
  line_open, epollin, epollout, modfd, close_conn,
}
use socket_test.HttpConn.Lines.{parse_line}
use socket_test.HttpConn.Request.{
  FileSystem, parse_request_line, parse_headers, parse_content, do_request,
}
use socket_test.HttpConn.Response.{process_write}

same_status : LineStatus → LineStatus → Bool
same_status line_ok line_ok = true
same_status line_bad line_bad = true
same_status line_open line_open = true
same_status _ _ = false

-- The condition of the loop. Its right half, `(line_status == parse_line()) == LINE_OK`, compares
-- the two statuses and then the outcome, 0 or 1, with LINE_OK, which is 0: it holds where the
-- statuses differ.
test_by : CheckState → LineStatus → HttpConn → HttpConn × Bool
unfolding same_status
test_by check_state_content line_ok c = (c, true)
test_by _ status c = let (c', found) = parse_line c in (c', not (same_status status found))

unfoldable pub loop_test : LineStatus → HttpConn → HttpConn × Bool
unfolding test_by
loop_test status c = test_by c.check_state status c

-- how a round ends: with a result, or with the status for the next round
pub data Step : Type 0 where
  done : HttpCode → Step
  next : LineStatus → Step

finish : FileSystem → HttpConn → Run (HttpConn × Step)
finish fs c = do (c', code) ← do_request fs c; ok (c', done code)

after_request_line : LineStatus → HttpConn × HttpCode → Run (HttpConn × Step)
after_request_line status (c, bad_request) = ok (c, done bad_request)
after_request_line status (c, _) = ok (c, next status)

after_header : FileSystem → LineStatus → HttpConn × HttpCode → Run (HttpConn × Step)
unfolding finish
after_header fs status (c, bad_request) = ok (c, done bad_request)
after_header fs status (c, get_request) = finish fs c
after_header fs status (c, _) = ok (c, next status)

after_content : FileSystem → HttpConn × HttpCode → Run (HttpConn × Step)
unfolding finish
after_content fs (c, get_request) = finish fs c
after_content fs (c, _) = ok (c, next line_open)

-- the body of the loop, by the state in which it is entered
line_step : FileSystem → CheckState → LineStatus → HttpConn → ℕ → Run (HttpConn × Step)
unfolding after_request_line after_header after_content
line_step fs check_state_requestline status c text = (do
  r ← parse_request_line c text
  after_request_line status r)
line_step fs check_state_header status c text = after_header fs status (parse_headers c text)
line_step fs check_state_content status c text = do r ← parse_content c text; after_content fs r

unfoldable pub round : FileSystem → LineStatus → HttpConn → Run (HttpConn × Step)
unfolding line_step
round fs status c =
    line_step fs c.check_state status (record c { start_line = c.checked_idx }) c.start_line

unfoldable pub process_loop : ℕ → FileSystem → LineStatus → HttpConn → Run (HttpConn × HttpCode)
process_loop zero fs status c = out_of_fuel
process_loop (suc k) fs status c =
    let (c', go) = loop_test status c in
    elim go [
      | false ↦ ok (c', no_request)
      | true ↦ do
        (c'', step) ← round fs status c'
        elim step [ done code ↦ ok (c'', code) | next status' ↦ process_loop k fs status' c'' ]
    ]

unfoldable pub process_read : ℕ → FileSystem → HttpConn → Run (HttpConn × HttpCode)
process_read k fs c = process_loop k fs line_ok c

unfoldable pub respond : Shared → HttpConn × HttpCode → Run (Shared × HttpConn)
respond w (c, no_request) = ok (modfd c.sockfd epollin w, c)
respond w (c, code) = do
  (c', good) ← process_write code c
  let (w', c'') = if good then (w, c') else close_conn (w, c')
  ok (modfd c''.sockfd epollout w', c'')

unfoldable pub process : ℕ → FileSystem → Shared × HttpConn → Run (Shared × HttpConn)
process k fs (w, c) = do r ← process_read k fs c; respond w r
