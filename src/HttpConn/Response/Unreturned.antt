-- ===== src/HttpConn/Response/Unreturned.antt =====
-- `process_write` of http_conn.cc, whose answers all go through `add_headers`.
use socket_test.Common.{ℕ, ◌≡◌, refl, Bool, List, ◌==◌, Bool-cases, inl, inr}
use socket_test.Common.Int.{ℤ}
use socket_test.Common.Run.{Run, fault, missing_return, ◌>>=◌, Ends-bind_fault}
use socket_test.HttpConn.{
  HttpConn, HttpCode, internal_error, bad_request, no_resource, forbidden_request, file_request,
  no_request, get_request, closed_connection,
}
use socket_test.HttpConn.Response.{
  add_status_line, add_headers, add_content_length, add_linger, add_blank_line, error_response,
  file_response, process_write,
}
use socket_test.HttpConn.Response.Written.{IsWritable, add_response-IsAppended}

-- the codes that `process_write` answers
pub data Answered : HttpCode → Type 0 where
  page_400 : Answered bad_request
  page_403 : Answered forbidden_request
  page_404 : Answered no_resource
  page_500 : Answered internal_error
  file_sent : Answered file_request

add_headers-missing_return :
    (c : HttpConn) (n : ℤ) → IsWritable c → add_headers c n ≡ fault missing_return
unfolding add_headers add_content_length add_linger add_blank_line
add_headers-missing_return c n w = Ends-bind_fault (add_response-IsAppended c _ w) λ r1 a1.
    Ends-bind_fault (add_response-IsAppended r1.0 _ a1.writable)
      λ r2 a2. Ends-bind_fault (add_response-IsAppended r2.0 _ a2.writable) λ r3 a3. refl

-- what comes behind a status line and the headers does not matter
headed-missing_return :
    {A : Type 0} (c : HttpConn) (status n : ℤ) (title : List ℕ) (f : HttpConn × Bool → Run A)
    → IsWritable c
    → (add_status_line c status title >>= λ r. add_headers r.0 n >>= f) ≡ fault missing_return
unfolding add_status_line
headed-missing_return c status n title f w =
    Ends-bind_fault (add_response-IsAppended c _ w)
      λ r a. rw (add_headers-missing_return r.0 n a.writable) refl

file_response-missing_return :
    (c : HttpConn) → IsWritable c → file_response c ≡ fault missing_return
unfolding file_response
file_response-missing_return c w = elim (Bool-cases (c.file_stat.st_size == 0)) [
  | inl empty ↦ rw empty (headed-missing_return c _ _ _ _ w)
  | inr full ↦ rw full (headed-missing_return c _ _ _ _ w)
]

-- Whichever answer `process_write` is asked for, an error page, a file or an empty file, it never
-- returns a result: on a response that fits with a NUL behind it, it appends without a write past
-- the buffer up to the end of `add_headers`, which has no `return`, and this is undefined.
pub process_write-missing_return :
    (code : HttpCode) (c : HttpConn)
    → Answered code
    → IsWritable c
    → process_write code c ≡ fault missing_return
unfolding process_write error_response
process_write-missing_return bad_request c page_400 w = headed-missing_return c _ _ _ _ w
process_write-missing_return forbidden_request c page_403 w = headed-missing_return c _ _ _ _ w
process_write-missing_return no_resource c page_404 w = headed-missing_return c _ _ _ _ w
process_write-missing_return internal_error c page_500 w = headed-missing_return c _ _ _ _ w
process_write-missing_return file_request c file_sent w = file_response-missing_return c w
process_write-missing_return no_request c a w = elim a [ ]
process_write-missing_return get_request c a w = elim a [ ]
process_write-missing_return closed_connection c a w = elim a [ ]
