-- ===== src/HttpConn/Request/Accepted.antt =====
-- Which request lines `parse_request_line` of http_conn.cc accepts.
use socket_test.Common.{
  ℕ, ◌+◌, ◌≡◌, refl, ◌∙◌, true, Option, none, some, arith, set, drop, if◌then◌else◌, ◌==◌,
  Bool-cases, Option-cases, inl, inr,
}
use socket_test.Common.Array
use socket_test.Common.CString.{codes, has_nul, strpbrk_blank, strspn_blank, same_ignoring_case}
use socket_test.Common.Run.{Ends, ends}
use socket_test.HttpConn.{HttpConn, HttpCode, no_request, bad_request, check_state_header}
use socket_test.HttpConn.{get as get_method}
use socket_test.HttpConn.Request.{
  string_at, url_part, version_part, request_line, parse_request_line,
}

-- How the part behind the method ends: accepted, with an absolute path and the version HTTP/1.1, so
-- that headers come next; or refused, in the state in which it was met.
data IsRead (c : HttpConn) (r : HttpConn × HttpCode) : Type 0 where
  read :
      (u v : ℕ)
      → r.1 ≡ no_request
      → r.0.check_state ≡ check_state_header
      → r.0.method ≡ get_method
      → r.0.url ≡ some u
      → Array.get r.0.read_buf u ≡ b'/'
      → r.0.version ≡ some v
      → same_ignoring_case (string_at r.0 v) (codes "HTTP/1.1") ≡ true
      → IsRead c r
  unread : r.1 ≡ bad_request → r.0.check_state ≡ c.check_state → IsRead c r

again :
    (c c' : HttpConn) {r : HttpConn × HttpCode}
    → IsRead c' r
    → c'.check_state ≡ c.check_state
    → IsRead c r
again c c' (read u v a b m p q w h) e = read u v a b m p q w h
again c c' (unread a b) e = unread a (b ∙ e)

-- How a request line that starts at `text` ends: accepted, where the word before its first blank `j` is
-- GET, the version HTTP/1.1 and the path absolute, so that headers come next; or refused, in the state
-- in which it was met.
pub data IsJudged (c : HttpConn) (text : ℕ) (r : HttpConn × HttpCode) : Type 0 where
  accepted :
      (j u v : ℕ)
      → strpbrk_blank (string_at c text) ≡ some j
      → same_ignoring_case (drop text (set c.read_buf (text + j) 0)) (codes "GET") ≡ true
      → r.1 ≡ no_request
      → r.0.check_state ≡ check_state_header
      → r.0.method ≡ get_method
      → r.0.url ≡ some u
      → Array.get r.0.read_buf u ≡ b'/'
      → r.0.version ≡ some v
      → same_ignoring_case (string_at r.0 v) (codes "HTTP/1.1") ≡ true
      → IsJudged c text r
  refused : r.1 ≡ bad_request → r.0.check_state ≡ c.check_state → IsJudged c text r

judge :
    (c : HttpConn) (text j : ℕ) {r : HttpConn × HttpCode}
    → strpbrk_blank (string_at c text) ≡ some j
    → same_ignoring_case (drop text (set c.read_buf (text + j) 0)) (codes "GET") ≡ true
    → IsRead c r
    → IsJudged c text r
judge c text j there good (read u v a b m p q w h) = accepted j u v there good a b m p q w h
judge c text j there good (unread a b) = refused a b

-- the test for an absolute path, at the start of the path if it has one
path_from : HttpConn → Option ℕ → HttpConn × HttpCode
path_from c start = elim start [
  | none ↦ (record c { url = none }, bad_request)
  | some x ↦
      if Array.get c.read_buf x == b'/'
      then (record c { url = some x; check_state = check_state_header }, no_request)
      else (record c { url = some x }, bad_request)
]

path_from-IsRead :
    (c : HttpConn) (v : ℕ) (start : Option ℕ)
    → c.method ≡ get_method
    → c.version ≡ some v
    → same_ignoring_case (string_at c v) (codes "HTTP/1.1") ≡ true
    → IsRead c (path_from c start)
unfolding path_from
path_from-IsRead c v none m e h = unread refl refl
path_from-IsRead c v (some x) m e h = elim (Bool-cases (Array.get c.read_buf x == b'/')) [
  | inl slash ↦ rw (slash, path_from) (read x v refl refl m refl (ground arith) e h)
  | inr other ↦ rw (other, path_from) (unread refl refl)
]

url_part-IsRead :
    (c : HttpConn) (u v : ℕ)
    → c.method ≡ get_method
    → c.version ≡ some v
    → same_ignoring_case (string_at c v) (codes "HTTP/1.1") ≡ true
    → IsRead c (url_part c u)
unfolding url_part path_from
url_part-IsRead c u v m e h = path_from-IsRead c v _ m e h

version_part-IsRead : (c : HttpConn) (u : ℕ) → c.method ≡ get_method → IsRead c (version_part c u)
unfolding version_part
version_part-IsRead c u m = elim (Option-cases (strpbrk_blank (string_at c u))) [
  | inl nothing ↦ rw (nothing, version_part) (unread refl refl)
  | inr (k, there) ↦
      let cut = record c { read_buf = set c.read_buf (u + k) 0 } in
      let v = u + k + 1 + strspn_blank (string_at cut (u + k + 1)) in
      let c' = record cut { version = some v } in
      elim (Bool-cases (same_ignoring_case (string_at c' v) (codes "HTTP/1.1"))) [
        | inl good ↦
            rw (there, version_part, good) (again c c' (url_part-IsRead c' u v m refl good) refl)
        | inr bad ↦ rw (there, version_part, bad) (unread refl refl)
      ]
]

request_line-IsJudged : (c : HttpConn) (text : ℕ) → IsJudged c text (request_line c text)
unfolding request_line
request_line-IsJudged c text = elim (Option-cases (strpbrk_blank (string_at c text))) [
  | inl nothing ↦ rw (nothing, request_line) (refused refl refl)
  | inr (j, there) ↦
      let cut = record c { read_buf = set c.read_buf (text + j) 0; url = some (text + j + 1) } in
      let u = text + j + 1 + strspn_blank (string_at cut (text + j + 1)) in
      let c' = record cut { method = get_method; url = some u } in
      elim (Bool-cases (same_ignoring_case (string_at cut text) (codes "GET"))) [
        | inl good ↦
            rw (there, request_line, good)
              (judge c text j there good (again c c' (version_part-IsRead c' u refl) refl))
        | inr bad ↦ rw (there, request_line, bad) (refused refl refl)
      ]
]

-- Where a NUL in the buffer ends the line, `parse_request_line` returns without a fault. It accepts
-- the line only if the word before the first blank is GET, ignoring case, the version is HTTP/1.1,
-- ignoring case, and the path, to which `m_url` points then, is absolute; headers come next. Else it
-- is a bad request, and the state stays.
pub parse_request_line-IsJudged :
    (c : HttpConn) (text : ℕ)
    → has_nul (string_at c text) ≡ true
    → Ends (IsJudged c text) (parse_request_line c text)
unfolding parse_request_line
parse_request_line-IsJudged c text ended =
    rw (ended, parse_request_line) (ends (request_line-IsJudged c text))
