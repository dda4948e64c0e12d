-- ===== src/HttpConn/Request.antt =====
-- The parser of http_conn.cc: `parse_request_line`, `parse_headers`, `parse_content`, `do_request`.
-- `text`, the start of the line, is an offset into `m_read_buf`.
pub mod Parsed
pub mod Accepted
use mathlib.Core.Option
use socket_test.Common.{
  ℕ, ◌+◌, ◌-◌, ◌^◌, Bool, true, false, not, List, ◌++◌, Option, none, some, ◌==◌, ltb,
  if◌then◌else◌, length, set, take, drop, replicate,
}
use socket_test.Common.Array
use socket_test.Common.Int.{ℤ, pos, negsuc, ◌+ℤ◌, ltb_ℤ}
use socket_test.Common.Run.{Run, ok, fault, out_of_bounds, bad_pointer, int_overflow, ◌>>=◌, access}
use socket_test.Common.CString.{
  codes, c_str, has_nul, strpbrk_blank, strspn_blank, strchr, same_ignoring_case,
  starts_ignoring_case, atol, to_int,
}
use socket_test.HttpConn.{
  HttpConn, Stat, HttpCode, no_request, get_request, bad_request, no_resource, forbidden_request,
  file_request, check_state_header, check_state_content, filename_len,
}
use socket_test.HttpConn.{get as get_method}

abbrev pub doc_root : List ℕ
doc_root = codes "/var/www/html"

-- What the kernel says of files: `stat` of a path, and the address at which `mmap` maps it.
pub record FileSystem : Type 0 where
  pub stat : List ℕ → Option Stat
  pub mmap : List ℕ → ℕ

-- the string at an offset of the read buffer
abbrev pub string_at : HttpConn → ℕ → List ℕ
string_at c i = drop i c.read_buf

-- the end of `parse_request_line`: a scheme and a host are skipped, and the path must be absolute
url_part : HttpConn → ℕ → HttpConn × HttpCode
url_part c u =
    let start =
      if starts_ignoring_case (string_at c u) (codes "http://")
      then Option.map (λ k. u + 7 + k) (strchr (string_at c (u + 7)) b'/')
      else some u in
    elim start [
      | none ↦ (record c { url = none }, bad_request)
      | some x ↦
          if Array.get c.read_buf x == b'/'
          then (record c { url = some x; check_state = check_state_header }, no_request)
          else (record c { url = some x }, bad_request)
    ]

-- the version, behind the URL that starts at `u`
version_part : HttpConn → ℕ → HttpConn × HttpCode
unfolding url_part
version_part c u = elim (strpbrk_blank (string_at c u)) [
  | none ↦ (record c { version = none }, bad_request)
  | some k ↦
      let cut = record c { read_buf = set c.read_buf (u + k) 0 } in
      let v = u + k + 1 + strspn_blank (string_at cut (u + k + 1)) in
      let c' = record cut { version = some v } in
      if same_ignoring_case (string_at c' v) (codes "HTTP/1.1")
      then url_part c' u
      else (c', bad_request)
]

-- `parse_request_line` of a line that a NUL in the buffer ends
unfoldable pub request_line : HttpConn → ℕ → HttpConn × HttpCode
unfolding version_part
request_line c text = elim (strpbrk_blank (string_at c text)) [
  | none ↦ (record c { url = none }, bad_request)
  | some j ↦
      let cut = record c { read_buf = set c.read_buf (text + j) 0; url = some (text + j + 1) } in
      let u = text + j + 1 + strspn_blank (string_at cut (text + j + 1)) in
      if same_ignoring_case (string_at cut text) (codes "GET")
      then version_part (record cut { method = get_method; url = some u }) u
      else (cut, bad_request)
]

-- `strpbrk` of what is no string, since no NUL is in the buffer from `text` on, is undefined. Where there
-- is one, the pointers that are passed on later do not lead behind it.
unfoldable pub parse_request_line : HttpConn → ℕ → Run (HttpConn × HttpCode)
unfolding request_line
parse_request_line c text = access (has_nul (string_at c text)) out_of_bounds (request_line c text)

is_zero : ℤ → Bool
is_zero (pos n) = n == 0
is_zero (negsuc n) = false

header_field : HttpConn → ℕ → HttpConn
header_field c text =
    if starts_ignoring_case (string_at c text) (codes "Connection:")
    then record c { linger = true }
    else if starts_ignoring_case (string_at c text) (codes "Content-Length:")
    then record c {
      content_length =
          to_int (atol (string_at c (text + 15 + strspn_blank (string_at c (text + 15)))));
    }
    else if starts_ignoring_case (string_at c text) (codes "Host:")
    then record c { host = some (text + 5 + strspn_blank (string_at c (text + 5))) }
    else c

unfoldable pub parse_headers : HttpConn → ℕ → HttpConn × HttpCode
unfolding is_zero header_field
parse_headers c text =
    if Array.get c.read_buf text == 0
    then (if not (is_zero c.content_length)
        then (record c { check_state = check_state_content }, no_request)
        else (c, get_request))
    else (header_field c text, no_request)

-- `text[m_content_length] = '\0'`
write_nul : HttpConn → ℤ → Run HttpConn
write_nul c (pos i) =
    access (ltb i (length c.read_buf)) out_of_bounds (record c { read_buf = set c.read_buf i 0 })
write_nul c (negsuc i) = fault out_of_bounds

unfoldable pub parse_content : HttpConn → ℕ → Run (HttpConn × HttpCode)
unfolding write_nul
parse_content c text =
    let end = c.content_length +ℤ pos c.checked_idx in
    if ltb_ℤ (pos (2 ^ 31 - 1)) end
    then fault int_overflow
    else if ltb_ℤ (pos c.read_idx) end
    then ok (c, no_request)
    else (do c' ← write_nul c (pos text +ℤ c.content_length); ok (c', get_request))

-- `m_real_file`: the root and as much of the URL as fits, with NULs behind it
abbrev pub real_path : List ℕ → List ℕ
real_path url = doc_root ++ take (filename_len - length doc_root - 1) url

open_file : FileSystem → HttpConn → List ℕ → HttpConn × HttpCode
open_file fs c path = elim (fs.stat path) [
  | none ↦ (c, no_resource)
  | some st ↦
      let c' = record c { file_stat = st } in
      if not st.other_read
      then (c', forbidden_request)
      else if st.is_dir
      then (c', bad_request)
      else (record c' { file_address = some (fs.mmap path) }, file_request)
]

unfoldable pub do_request : FileSystem → HttpConn → Run (HttpConn × HttpCode)
unfolding open_file
do_request fs c = elim c.url [
  | none ↦ fault bad_pointer
  | some u ↦
      let path = real_path (c_str (string_at c u)) in
      let padded = path ++ replicate (filename_len - length path) 0 in
      access (has_nul (string_at c u)) out_of_bounds
        (open_file fs (record c { real_file = padded }) path)
]
