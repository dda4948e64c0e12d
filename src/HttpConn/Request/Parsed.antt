-- ===== src/HttpConn/Request/Parsed.antt =====
-- What the parser of http_conn.cc leaves alone.
use socket_test.Common.{
  ℕ, zero, suc, ◌+◌, ◌-◌, ◌≡◌, refl, ◌∙◌, Bool, true, false, List, some, arith, length, set,
  length-set, if◌then◌else◌, Option-cases, inl, inr, ltb, ◌^◌, ◌++◌, replicate,
}
use socket_test.Common.Int.{ℤ, pos, negsuc, ◌+ℤ◌, ltb_ℤ}
use socket_test.Common.CString.{
  codes, c_str, has_nul, strpbrk_blank, strspn_blank, same_ignoring_case,
}
use socket_test.Common.Run.{Keeps, returned, faulted, Keeps-bind, if-Keeps}
use socket_test.HttpConn.{HttpConn, HttpCode, bad_request, filename_len}
use socket_test.HttpConn.{get as get_method}
use socket_test.HttpConn.Lines.{scan, parse_line}
use socket_test.HttpConn.Request.{
  FileSystem, string_at, real_path, version_part, url_part, header_field, write_nul, open_file,
  request_line, parse_request_line, parse_headers, parse_content, do_request,
}

-- The parser works within the buffer and does not receive.
pub record IsParsed (c c' : HttpConn) : Type 0 where
  pub socket : c'.sockfd ≡ c.sockfd
  pub sized : length c'.read_buf ≡ length c.read_buf
  pub index : c'.read_idx ≡ c.read_idx

pub IsParsed-refl : (c : HttpConn) → IsParsed c c
IsParsed-refl c = record { socket = refl; sized = refl; index = refl }

pub IsParsed-trans : {a b c : HttpConn} → IsParsed a b → IsParsed b c → IsParsed a c
IsParsed-trans h k = record {
  socket = k.socket ∙ h.socket;
  sized = k.sized ∙ h.sized;
  index = k.index ∙ h.index;
}

length-scan : (n r : ℕ) (b : List ℕ) (i : ℕ) → length (scan n r b i).buf ≡ length b
unfolding scan
length-scan zero r b i = refl
length-scan (suc n) r b i = ground (
  arith,
  length-scan n r b (i + 1),
  length-set b i 0,
  length-set (set b i 0) (i + 1) 0,
  length-set b (i - 1) 0,
  length-set (set b (i - 1) 0) (i - 1 + 1) 0,
)

pub parse_line-IsParsed : (c : HttpConn) → IsParsed c (parse_line c).0
unfolding parse_line
parse_line-IsParsed c = record { socket = refl; sized = length-scan _ _ _ _; index = refl }

url_part-IsParsed : (c : HttpConn) (u : ℕ) → IsParsed c (url_part c u).0
unfolding url_part
url_part-IsParsed c u = record { socket = ground arith; sized = ground arith; index = ground arith }

if-IsParsed :
    {c : HttpConn} (b : Bool) (x y : HttpConn × HttpCode)
    → IsParsed c x.0
    → IsParsed c y.0
    → IsParsed c (if b then x else y).0
if-IsParsed true x y p q = p
if-IsParsed false x y p q = q

version_part-IsParsed : (c : HttpConn) (u : ℕ) → IsParsed c (version_part c u).0
unfolding version_part
version_part-IsParsed c u = elim (Option-cases (strpbrk_blank (string_at c u))) [
  | inl nothing ↦ rw (nothing, version_part) (record { socket = refl; sized = refl; index = refl })
  | inr (k, there) ↦
      let cut = record c { read_buf = set c.read_buf (u + k) 0 } in
      let v = u + k + 1 + strspn_blank (string_at cut (u + k + 1)) in
      let c' = record cut { version = some v } in
      let made : IsParsed c c' = record {
        socket = refl;
        sized = length-set c.read_buf (u + k) 0;
        index = refl;
      } in
      rw (there, version_part)
        (if-IsParsed (same_ignoring_case (string_at c' v) (codes "HTTP/1.1")) (url_part c' u)
          (c', bad_request) (IsParsed-trans made (url_part-IsParsed c' u)) made)
]

request_line-IsParsed : (c : HttpConn) (text : ℕ) → IsParsed c (request_line c text).0
unfolding request_line
request_line-IsParsed c text = elim (Option-cases (strpbrk_blank (string_at c text))) [
  | inl nothing ↦ rw (nothing, request_line) (record { socket = refl; sized = refl; index = refl })
  | inr (j, there) ↦
      let cut = record c { read_buf = set c.read_buf (text + j) 0; url = some (text + j + 1) } in
      let u = text + j + 1 + strspn_blank (string_at cut (text + j + 1)) in
      let c' = record cut { method = get_method; url = some u } in
      let len = length-set c.read_buf (text + j) 0 in
      rw (there, request_line)
        (if-IsParsed (same_ignoring_case (string_at cut text) (codes "GET")) (version_part c' u)
          (cut, bad_request)
          (IsParsed-trans (record { socket = refl; sized = len; index = refl })
            (version_part-IsParsed c' u))
          (record { socket = refl; sized = len; index = refl }))
]

pub parse_request_line-IsParsed :
    (c : HttpConn) (text : ℕ) → Keeps (λ r. IsParsed c r.0) (parse_request_line c text)
unfolding parse_request_line
parse_request_line-IsParsed c text =
    if-Keeps (has_nul (string_at c text)) (returned (request_line-IsParsed c text)) faulted

pub parse_headers-IsParsed : (c : HttpConn) (text : ℕ) → IsParsed c (parse_headers c text).0
unfolding parse_headers header_field
parse_headers-IsParsed c text = record {
  socket = ground arith;
  sized = ground arith;
  index = ground arith;
}

write_nul-IsParsed : (c : HttpConn) (i : ℤ) → Keeps (IsParsed c) (write_nul c i)
unfolding write_nul
write_nul-IsParsed c (pos i) =
    if-Keeps (ltb i (length c.read_buf))
      (returned (record { socket = refl; sized = length-set c.read_buf i 0; index = refl })) faulted
write_nul-IsParsed c (negsuc i) = faulted

pub parse_content-IsParsed :
    (c : HttpConn) (text : ℕ) → Keeps (λ r. IsParsed c r.0) (parse_content c text)
unfolding parse_content
parse_content-IsParsed c text =
    let end = c.content_length +ℤ pos c.checked_idx in
    if-Keeps (ltb_ℤ (pos (2 ^ 31 - 1)) end) faulted (
      if-Keeps (ltb_ℤ (pos c.read_idx) end) (returned (IsParsed-refl c))
        (Keeps-bind (write_nul-IsParsed c (pos text +ℤ c.content_length)) λ c' p. returned p))

open_file-IsParsed :
    (fs : FileSystem) (c : HttpConn) (path : List ℕ) → IsParsed c (open_file fs c path).0
unfolding open_file
open_file-IsParsed fs c path = elim (Option-cases (fs.stat path)) [
  | inl nothing ↦ rw (nothing, open_file) (IsParsed-refl c)
  | inr (st, there) ↦
      rw (there, open_file)
        (record { socket = ground arith; sized = ground arith; index = ground arith })
]

pub do_request-IsParsed :
    (fs : FileSystem) (c : HttpConn) → Keeps (λ r. IsParsed c r.0) (do_request fs c)
unfolding do_request
do_request-IsParsed fs c = elim (Option-cases c.url) [
  | inl nothing ↦ rw (nothing, do_request) faulted
  | inr (u, there) ↦
      let path = real_path (c_str (string_at c u)) in
      let padded = path ++ replicate (filename_len - length path) 0 in
      let opened = open_file-IsParsed fs (record c { real_file = padded }) path in
      rw (there, do_request)
        (if-Keeps (has_nul (string_at c u))
          (returned (record { socket = opened.socket; sized = opened.sized; index = opened.index }))
          faulted)
]
