-- ===== src/HttpConn/Process/Kept.antt =====
-- What `process_read` of http_conn.cc leaves alone.
use socket_test.Common.{ℕ, zero, suc, Bool-cases, inl, inr}
use socket_test.Common.Run.{ok, Keeps, returned, still_running, Keeps-bind, Keeps-mono}
use socket_test.HttpConn.{
  HttpConn, HttpCode, no_request, get_request, bad_request, no_resource, forbidden_request,
  file_request, internal_error, closed_connection, CheckState, check_state_requestline,
  check_state_header, check_state_content, LineStatus, line_ok, line_bad, line_open,
}
use socket_test.HttpConn.Request.{FileSystem, parse_headers}
use socket_test.HttpConn.Request.Parsed.{
  IsParsed, IsParsed-refl, IsParsed-trans, parse_line-IsParsed, parse_request_line-IsParsed,
  parse_headers-IsParsed, parse_content-IsParsed, do_request-IsParsed,
}
use socket_test.HttpConn.Process.{
  test_by, loop_test, Step, done, next, finish, after_request_line, after_header, after_content,
  line_step, round, process_loop, process_read,
}

test_by-IsParsed :
    (st : CheckState) (status : LineStatus) (c : HttpConn) → IsParsed c (test_by st status c).0
unfolding test_by
test_by-IsParsed check_state_content line_ok c = IsParsed-refl c
test_by-IsParsed check_state_content line_bad c = parse_line-IsParsed c
test_by-IsParsed check_state_content line_open c = parse_line-IsParsed c
test_by-IsParsed check_state_requestline status c = parse_line-IsParsed c
test_by-IsParsed check_state_header status c = parse_line-IsParsed c

finish-IsParsed :
    (fs : FileSystem) (a c : HttpConn) → IsParsed a c → Keeps (λ r. IsParsed a r.0) (finish fs c)
unfolding finish
finish-IsParsed fs a c p =
    Keeps-bind (do_request-IsParsed fs c) λ r q. returned (IsParsed-trans p q)

after_request_line-IsParsed :
    (status : LineStatus) (a c : HttpConn) (code : HttpCode)
    → IsParsed a c
    → Keeps (λ r. IsParsed a r.0) (after_request_line status (c, code))
unfolding after_request_line
after_request_line-IsParsed status a c bad_request p = returned p
after_request_line-IsParsed status a c no_request p = returned p
after_request_line-IsParsed status a c get_request p = returned p
after_request_line-IsParsed status a c no_resource p = returned p
after_request_line-IsParsed status a c forbidden_request p = returned p
after_request_line-IsParsed status a c file_request p = returned p
after_request_line-IsParsed status a c internal_error p = returned p
after_request_line-IsParsed status a c closed_connection p = returned p

after_header-IsParsed :
    (fs : FileSystem) (status : LineStatus) (a c : HttpConn) (code : HttpCode)
    → IsParsed a c
    → Keeps (λ r. IsParsed a r.0) (after_header fs status (c, code))
unfolding after_header
after_header-IsParsed fs status a c bad_request p = returned p
after_header-IsParsed fs status a c get_request p = finish-IsParsed fs a c p
after_header-IsParsed fs status a c no_request p = returned p
after_header-IsParsed fs status a c no_resource p = returned p
after_header-IsParsed fs status a c forbidden_request p = returned p
after_header-IsParsed fs status a c file_request p = returned p
after_header-IsParsed fs status a c internal_error p = returned p
after_header-IsParsed fs status a c closed_connection p = returned p

after_content-IsParsed :
    (fs : FileSystem) (a c : HttpConn) (code : HttpCode)
    → IsParsed a c
    → Keeps (λ r. IsParsed a r.0) (after_content fs (c, code))
unfolding after_content
after_content-IsParsed fs a c get_request p = finish-IsParsed fs a c p
after_content-IsParsed fs a c bad_request p = returned p
after_content-IsParsed fs a c no_request p = returned p
after_content-IsParsed fs a c no_resource p = returned p
after_content-IsParsed fs a c forbidden_request p = returned p
after_content-IsParsed fs a c file_request p = returned p
after_content-IsParsed fs a c internal_error p = returned p
after_content-IsParsed fs a c closed_connection p = returned p

line_step-IsParsed :
    (fs : FileSystem) (st : CheckState) (status : LineStatus) (c : HttpConn) (text : ℕ)
    → Keeps (λ r. IsParsed c r.0) (line_step fs st status c text)
unfolding line_step
line_step-IsParsed fs check_state_requestline status c text =
    Keeps-bind (parse_request_line-IsParsed c text)
      λ (c', code) p. after_request_line-IsParsed status c c' code p
line_step-IsParsed fs check_state_header status c text =
    let (c', code) = parse_headers c text in
    after_header-IsParsed fs status c c' code (parse_headers-IsParsed c text)
line_step-IsParsed fs check_state_content status c text =
    Keeps-bind (parse_content-IsParsed c text) λ (c', code) p. after_content-IsParsed fs c c' code p

round-IsParsed :
    (fs : FileSystem) (status : LineStatus) (c : HttpConn)
    → Keeps (λ r. IsParsed c r.0) (round fs status c)
unfolding round
round-IsParsed fs status c =
    Keeps-mono
      (line_step-IsParsed fs c.check_state status (record c { start_line = c.checked_idx })
        c.start_line)
      λ r p. record { socket = p.socket; sized = p.sized; index = p.index }

after_round-IsParsed :
    (k : ℕ) (fs : FileSystem) (a c : HttpConn) (step : Step)
    → IsParsed a c
    → ((status : LineStatus) → Keeps (λ r. IsParsed c r.0) (process_loop k fs status c))
    → Keeps
        (λ (r : HttpConn × HttpCode). IsParsed a r.0)
        (elim step [ done code ↦ ok (c, code) | next status ↦ process_loop k fs status c ])
after_round-IsParsed k fs a c (done code) p more = returned p
after_round-IsParsed k fs a c (next status) p more =
    Keeps-mono (more status) λ r q. IsParsed-trans p q

process_loop-IsParsed :
    (k : ℕ) (fs : FileSystem) (status : LineStatus) (c : HttpConn)
    → Keeps (λ r. IsParsed c r.0) (process_loop k fs status c)
unfolding process_loop loop_test
process_loop-IsParsed zero fs status c = still_running
process_loop-IsParsed (suc k) fs status c =
    let c' = (loop_test status c).0 in
    let tested : IsParsed c c' = test_by-IsParsed c.check_state status c in
    elim (Bool-cases (loop_test status c).1) [
      | inr stops ↦ rw (stops, process_loop) (returned tested)
      | inl goes ↦
          rw (goes, process_loop)
            (Keeps-bind (round-IsParsed fs status c') λ (c'', step) p.
              after_round-IsParsed k fs c c'' step (IsParsed-trans tested p)
                λ status'. process_loop-IsParsed k fs status' c'')
    ]

-- Where `process_read` returns, it has worked within the buffer and received nothing.
pub process_read-IsParsed :
    (k : ℕ) (fs : FileSystem) (c : HttpConn) → Keeps (λ r. IsParsed c r.0) (process_read k fs c)
unfolding process_read
process_read-IsParsed k fs c = process_loop-IsParsed k fs line_ok c
