-- ===== src/HttpConn/Response.antt =====
-- The response writer of http_conn.cc: `add_response` and its callers, `process_write`, `unmap` and
-- `write`.
pub mod Written
pub mod Unreturned
pub mod Sending
use socket_test.Common.{
  ℕ, ◌+◌, ◌-◌, Bool, true, false, not, List, [], ◌∷◌, ◌++◌, Option, none, some, ◌==◌, ltb, leb,
  if◌then◌else◌, length, take,
}
use socket_test.Common.Int.{ℤ, pos, ◌+ℤ◌, ◌-ℤ◌, ltb_ℤ}
use socket_test.Common.Run.{
  Run, ok, fault, out_of_fuel, ◌>>=◌, access, out_of_bounds, missing_return,
}
use socket_test.Common.CString.{codes, decimal, to_int}
use socket_test.HttpConn.{
  HttpConn, Shared, Iovec, write_buffer, mapped_file, HttpCode, internal_error, bad_request,
  no_resource, forbidden_request, file_request, write_buffer_size, epollin, epollout, unmaps, call,
  modfd, reset,
}
use socket_test.HttpConn.Recv.{write_at}

abbrev pub crlf : List ℕ
crlf = b'\r' ∷ b'\n' ∷ []

abbrev pub line_of : List ℕ → List ℕ
line_of text = text ++ crlf

-- `vsnprintf` into the buffer from an offset on, with room for `size` bytes, the NUL included; a byte
-- behind the buffer is a fault
abbrev pub vsnprintf : List ℕ → ℕ → ℕ → List ℕ → Run (List ℕ)
vsnprintf b off size text =
    if size == 0
    then ok b
    else (let out = take (size - 1) text ++ 0 ∷ [] in
        access (leb (off + length out) (length b)) out_of_bounds (write_at b off out))

-- `text` is the format with its arguments put in
unfoldable pub add_response : HttpConn → List ℕ → Run (HttpConn × Bool)
add_response c text =
    if leb write_buffer_size c.write_idx
    then ok (c, false)
    else (let size = write_buffer_size - 1 - c.write_idx in
        do
          b ← vsnprintf c.write_buf c.write_idx size text
          (if leb size (length text)
              then ok (record c { write_buf = b }, false)
              else ok (record c { write_buf = b; write_idx = c.write_idx + length text }, true)))

unfoldable pub add_status_line : HttpConn → ℤ → List ℕ → Run (HttpConn × Bool)
add_status_line c status title =
    add_response c (line_of (codes "HTTP/1.1 " ++ (decimal status ++ (codes " " ++ title))))

unfoldable pub add_content_length : HttpConn → ℤ → Run (HttpConn × Bool)
add_content_length c n = add_response c (line_of (codes "Content-Length: " ++ decimal n))

unfoldable pub add_linger : HttpConn → Run (HttpConn × Bool)
add_linger c =
    add_response c
      (line_of (codes "Connection: " ++ (if c.linger then codes "keep-alive" else codes "close")))

unfoldable pub add_blank_line : HttpConn → Run (HttpConn × Bool)
add_blank_line c = add_response c crlf

unfoldable pub add_content : HttpConn → List ℕ → Run (HttpConn × Bool)
add_content c content = add_response c content

-- The source ignores what the three calls return. Its result is a `bool`, and there is no `return`:
-- the end of the function is reached, which is undefined.
unfoldable pub add_headers : HttpConn → ℤ → Run (HttpConn × Bool)
add_headers c n = do
  (c1, _) ← add_content_length c n
  (c2, _) ← add_linger c1
  (c3, _) ← add_blank_line c2
  fault missing_return

-- the end of `process_write`, which sets the base of one entry and the length of the other
single_iov : HttpConn → HttpConn
single_iov c = record c {
  iv0 = record c.iv0 { iov_base = write_buffer };
  iv1 = record c.iv1 { iov_len = c.write_idx };
  iv_count = 1;
}

unfoldable pub error_response : HttpConn → ℤ → List ℕ → List ℕ → Run (HttpConn × Bool)
unfolding single_iov
error_response c status title form = do
  (c1, _) ← add_status_line c status title
  (c2, _) ← add_headers c1 (pos (length form))
  (c3, done) ← add_content c2 form
  (if done then ok (single_iov c3, true) else ok (c3, false))

abbrev pub error_400_form : List ℕ
error_400_form = codes "Your request has bad syntax or is inherenly impossible to statisfy.\n"

abbrev pub error_403_form : List ℕ
error_403_form = codes "You do not have permission to get file from this server.\n"

abbrev pub error_404_form : List ℕ
error_404_form = codes "The requested file was not found on this server.\n"

abbrev pub error_500_form : List ℕ
error_500_form = codes "There was an unusual problem serving the requested file.\n"

abbrev pub ok_string : List ℕ
ok_string = codes "<html><body></body></html>"

-- `case FILE_REQUEST`: for a file that is not empty two entries, the header and the file; for an
-- empty one the case falls through to `default` once its content is written
unfoldable pub file_response : HttpConn → Run (HttpConn × Bool)
file_response c = do
  (c1, _) ← add_status_line c (pos 200) (codes "OK")
  let size = c.file_stat.st_size
  (if not (size == 0)
      then (do
        (c2, _) ← add_headers c1 (to_int (pos size))
        ok (
          record c2 {
            iv0 = record { iov_base = write_buffer; iov_len = c2.write_idx };
            iv1 = record { iov_base = mapped_file c.file_address; iov_len = size };
            iv_count = 2;
          },
          true,
        ))
      else (do
        (c2, _) ← add_headers c1 (pos (length ok_string))
        (c3, done) ← add_content c2 ok_string
        ok (c3, false)))

unfoldable pub process_write : HttpCode → HttpConn → Run (HttpConn × Bool)
unfolding error_response file_response
process_write internal_error c = error_response c (pos 500) (codes "Internal Error") error_500_form
process_write bad_request c = error_response c (pos 400) (codes "Bad Request") error_400_form
process_write no_resource c = error_response c (pos 404) (codes "Not Found") error_404_form
process_write forbidden_request c = error_response c (pos 403) (codes "Forbidden") error_403_form
process_write file_request c = file_response c
process_write _ c = ok (c, false)

unfoldable pub unmap : Shared × HttpConn → Shared × HttpConn
unfolding call
unmap (w, c) = elim c.file_address [
  | none ↦ (w, c)
  | some a ↦ (call (unmaps a c.file_stat.st_size) w, record c { file_address = none })
]

-- What one call of `writev` returns: a number of bytes, EAGAIN, or another error.
pub data Sent : Type 0 where
  sent : ℕ → Sent
  again error : Sent

-- what `write` does once it takes the response for sent
unfoldable pub write_done : Shared × HttpConn → (Shared × HttpConn) × Bool
unfolding unmap
write_done s =
    let (w, c) = unmap s in
    if c.linger
    then ((modfd c.sockfd epollin w, reset c), true)
    else ((modfd c.sockfd epollin w, c), false)

-- The loop, over what the calls of `writev` return. Where these are used up, the next call has not
-- returned.
unfoldable pub write_loop : List Sent → ℤ → ℤ → Shared × HttpConn → Run ((Shared × HttpConn) × Bool)
unfolding write_done
write_loop [] to_send have_sent s = out_of_fuel
write_loop (again ∷ rs) to_send have_sent (w, c) = ok ((modfd c.sockfd epollout w, c), true)
write_loop (error ∷ rs) to_send have_sent s = ok (unmap s, false)
write_loop (sent n ∷ rs) to_send have_sent s =
    let left = to_send -ℤ pos n in
    let total = have_sent +ℤ pos n in
    let rest = write_loop rs left total s in
    if not (ltb_ℤ total left) then ok (write_done s) else rest

unfoldable pub write : List Sent → Shared × HttpConn → Run ((Shared × HttpConn) × Bool)
unfolding write_loop
write rs (w, c) =
    if c.write_idx == 0
    then ok ((modfd c.sockfd epollin w, reset c), true)
    else write_loop rs (pos c.write_idx) (pos 0) (w, c)
