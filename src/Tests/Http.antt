-- ===== src/Tests/Http.antt =====
-- Runs of the models of thread_pool/http_conn.cc: receiving, parsing and `process_read`.
use socket_test.Common.{
  ℕ, zero, suc, ◌-◌, ◌≡◌, refl, true, false, List, [], ◌∷◌, ◌++◌, none, some, arith, length,
  replicate, length-append, length-replicate,
}
use socket_test.Common.Array
use socket_test.Common.Int.{pos}
use socket_test.Common.CString.{
  codes, has_nul, strpbrk_blank, strspn_blank, same_ignoring_case, starts_ignoring_case,
}
use socket_test.Common.Run.{ok, out_of_fuel, Ends, ends}
use socket_test.HttpConn.{
  HttpConn, unset, get, check_state_requestline, check_state_header, line_ok, line_open,
  read_buffer_size, write_buffer_size, filename_len, no_request,
}
use socket_test.HttpConn.Lines.{scan, parse_line}
use socket_test.HttpConn.Lines.Resume.{AgreeBelow, arrived, parse_line-resume}
use socket_test.HttpConn.Lines.Found.{Outcome, parse_line-Outcome}
use socket_test.HttpConn.Recv.{Recv, bytes, again, read}
use socket_test.HttpConn.Recv.Stored.{received, waits, IsFed, read-IsFed}
use socket_test.HttpConn.Request.{
  FileSystem, string_at, request_line, parse_request_line, parse_headers,
}
use socket_test.HttpConn.Request.Accepted.{IsJudged, parse_request_line-IsJudged}
use socket_test.HttpConn.Process.{process_read, process_loop, loop_test, round}
use socket_test.HttpConn.Process.Loop.{process_read-line_ok}
use socket_test.HttpConn.Process.Stuck.{IsStuck, process_read-stuck}

abbrev pub no_files : FileSystem
no_files = record { stat = λ path. none; mmap = λ path. 0 }

-- a connection that has received a text, from a connection that was just accepted
abbrev pub holding : List ℕ → HttpConn
holding text = record {
  sockfd = some 7;
  address = 0;
  read_buf = text ++ replicate (read_buffer_size - length text) 0;
  read_idx = length text;
  checked_idx = 0;
  start_line = 0;
  write_buf = replicate write_buffer_size 0;
  write_idx = 0;
  check_state = check_state_requestline;
  method = get;
  real_file = replicate filename_len 0;
  url = none;
  version = none;
  host = none;
  content_length = pos 0;
  linger = false;
  file_address = none;
  file_stat = record { other_read = false; is_dir = false; st_size = 0 };
  iv0 = record { iov_base = unset; iov_len = 0 };
  iv1 = record { iov_base = unset; iov_len = 0 };
  iv_count = 0;
}

-- a whole request
abbrev pub request : HttpConn
request = holding (codes "GET / HTTP/1.1\r\nHost: a\r\n\r\n")

pub request-line_ok : (parse_line request).1 ≡ line_ok
unfolding parse_line scan Array.get
request-line_ok = refl

process_read-line_ok_example :
    process_read 1 no_files request ≡ ok ((parse_line request).0, no_request)
process_read-line_ok_example = process_read-line_ok 0 no_files request (λ e. cc) request-line_ok

-- a request line that a NUL ends, and a carriage return
abbrev poisoned : HttpConn
poisoned = record (holding (codes "GET / HTTP/1.1" ++ 0 ∷ 13 ∷ [])) {
  check_state = check_state_header;
  checked_idx = 15;
  start_line = 15;
}

poisoned-IsStuck : IsStuck poisoned
unfolding Array.get
poisoned-IsStuck = record {
  in_header = refl;
  at_start = refl;
  one_left = refl;
  in_buffer = omega arith;
  at_cr = refl;
}

process_read-stuck_example : process_read 1000 no_files poisoned ≡ out_of_fuel
process_read-stuck_example = process_read-stuck 1000 no_files poisoned poisoned-IsStuck

-- a first part of a request
abbrev pub part : HttpConn
part = holding (codes "GET / HTTP/1.1\r")

part-line_open : (parse_line part).1 ≡ line_open
unfolding parse_line scan Array.get
part-line_open = refl

agree-append : (xs ys zs : List ℕ) → AgreeBelow (length xs) (xs ++ ys) (xs ++ zs)
unfolding Array.get
agree-append [] ys zs j h = absurd (omega arith)
agree-append (x ∷ xs) ys zs zero h = refl
agree-append (x ∷ xs) ys zs (suc j) h = agree-append xs ys zs j (omega arith)

parse_line-Outcome_example : Outcome part.read_buf part.read_idx part.checked_idx (record {
  buf = (parse_line part).0.read_buf;
  checked = (parse_line part).0.checked_idx;
  status = (parse_line part).1;
})
parse_line-Outcome_example = parse_line-Outcome part (omega arith)

abbrev rest_of_request : List ℕ
rest_of_request = codes "\nHost: a\r\n\r\n"

abbrev whole_buf : List ℕ
whole_buf = codes "GET / HTTP/1.1\r" ++ (rest_of_request ++ replicate 2021 0)

parse_line-resume_example :
    parse_line (arrived (parse_line part).0 whole_buf 27) ≡ parse_line (arrived part whole_buf 27)
parse_line-resume_example =
    parse_line-resume part whole_buf 27 (omega arith) (omega arith)
      (agree-append (codes "GET / HTTP/1.1\r") (replicate 2033 0)
        (rest_of_request ++ replicate 2021 0))
      part-line_open

abbrev pub arrivals : List Recv
arrivals = bytes (codes "\nHo") ∷ bytes (codes "st: a\r\n\r\n") ∷ again ∷ []

pub part-sized : length part.read_buf ≡ read_buffer_size
part-sized = omega (
  arith,
  length-append (codes "GET / HTTP/1.1\r") (replicate 2033 0),
  length-replicate {A = ℕ} 2033 0,
)

read-IsFed_example :
    Ends (λ (c', b). IsFed part (received arrivals) c' × (b ≡ waits arrivals)) (read arrivals part)
read-IsFed_example =
    read-IsFed arrivals part part-sized (omega arith) (omega arith, (omega arith, tt))

-- A connection that receives these bytes in its first request never comes back from `process_read`.
poisoning_sample :
    process_read 12 no_files (holding (codes "GET / HTTP/1.1" ++ 0 ∷ 13 ∷ [])) ≡ out_of_fuel
unfolding process_read process_loop loop_test round parse_line scan parse_request_line request_line
    parse_headers has_nul strpbrk_blank strspn_blank same_ignoring_case starts_ignoring_case
    Array.get
poisoning_sample = refl

-- a request line that a NUL ends
abbrev whole_line : HttpConn
whole_line = holding (codes "GET /a HTTP/1.1" ++ 0 ∷ [])

whole_line-ended : has_nul (string_at whole_line 0) ≡ true
unfolding has_nul
whole_line-ended = refl

parse_request_line-IsJudged_example : Ends (IsJudged whole_line 0) (parse_request_line whole_line 0)
parse_request_line-IsJudged_example = parse_request_line-IsJudged whole_line 0 whole_line-ended

accepted_sample :
    Ends (λ r. (r.1 ≡ no_request) × (r.0.url ≡ some 4)) (parse_request_line whole_line 0)
unfolding parse_request_line request_line has_nul strpbrk_blank strspn_blank same_ignoring_case
    starts_ignoring_case Array.get
accepted_sample = ends (refl, refl)
