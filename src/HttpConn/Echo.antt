-- ===== src/HttpConn/Echo.antt =====
-- The two ends of http_conn.cc together: the header line that `add_content_length` writes, read by
-- `parse_line` and `parse_headers`.
use mathlib.Core.List.{append_assoc, append_cancel_left}
use socket_test.Common.{
  ℕ, zero, suc, ◌+◌, ◌-◌, ◌^◌, ◌≤◌, ◌<◌, ◌≡◌, refl, sym, ap, subst, ◌∙◌, ◌≢◌, Bool, true, false,
  List, [], ◌∷◌, ◌++◌, arith, ◌==◌, ◌&&◌, not, length, length-append, set, drop,
}
use socket_test.Common.Array
use socket_test.Common.Int.{pos}
use socket_test.Common.CString.{
  codes, decimal, atol, to_int, to_int-small, strspn_blank, starts_ignoring_case,
}
use socket_test.Common.CString.Decimal.{IsDigits, decimal-IsDigits, decimal-some, atol-decimal}
use socket_test.HttpConn.{HttpConn, line_ok, no_request}
use socket_test.Common.Run.{ok, Ends, Ends-ok}
use socket_test.HttpConn.Lines.{cr, lf, cut, parse_line}
use socket_test.HttpConn.Lines.Found.{IsQuiet, found, bare, more, parse_line-Outcome}
use socket_test.HttpConn.Request.{string_at, parse_headers}
use socket_test.HttpConn.Response.{crlf, line_of, add_response, add_content_length}
use socket_test.HttpConn.Response.Written.{written, IsWritable, IsAppended, add_response-IsAppended}

-- A line whose text has no line feed is found where it ends.
parse_line-line_of :
    (c : HttpConn) (text : List ℕ)
    → 0 < length text
    → Array.HasText c.read_buf c.checked_idx (line_of text)
    → ((j : ℕ) → j < length text → Array.get text j ≢ lf)
    → c.checked_idx + length text + 2 ≤ c.read_idx
    → ((parse_line c).0.read_buf ≡ cut c.read_buf (c.checked_idx + length text))
      × ((parse_line c).1 ≡ line_ok)
unfolding Array.get
parse_line-line_of c text some has plain received =
    let i = c.checked_idx in
    let n = length text in
    let b = c.read_buf in
    let len = length-append text crlf in
    let at = Array.get-append text crlf in
    let back : i + n - i ≡ n = omega arith in
    let back' : i + suc n - i ≡ suc n = omega arith in
    let end : suc n - n ≡ 1 = omega arith in
    let end' : n - n ≡ 0 = omega arith in
    let at_cr : Array.get b (i + n) ≡ cr = ground (arith, has (i + n), at n) in
    let at_lf : Array.get b (i + suc n) ≡ lf = ground (arith, has (i + suc n), at (suc n)) in
    let quiet : IsQuiet b i (i + suc n) =
      λ m h l e. ground (arith, has m, at (m - i), plain (m - i), at_cr) in
    elim (parse_line-Outcome c (omega arith)) [
      | found k p q x y q' e ↦
          let place : k ≡ i + n = ground (arith, quiet (k + 1), q' (i + suc n), y, at_lf) in
          (ap (λ s. s.buf) e ∙ ap (cut b) place, ap (λ s. s.status) e)
      | bare k p q x y q' e ↦
          let place : k ≡ i + suc n = ground (arith, quiet k, q' (i + suc n), at_lf) in
          let before : k - 1 ≡ i + n = omega arith in
          absurd (ground (arith, ap (Array.get b) before))
      | more k p x q' e ↦ absurd (ground (arith, q' (i + suc n), at_lf, quiet k))
    ]

-- What is left of a line that was cut, with what is behind it.
string_at-cut :
    (b : List ℕ) (i : ℕ) (text rest : List ℕ)
    → drop i b ≡ line_of text ++ rest
    → drop i (cut b (i + length text)) ≡ text ++ 0 ∷ 0 ∷ rest
string_at-cut b i text rest e =
    let n = length text in
    let none_more : n ≡ n + 0 = omega arith in
    let first : drop i (set b (i + n) 0) ≡ text ++ 0 ∷ lf ∷ rest =
      Array.drop-set b i n 0
      ∙ ap (λ l. set l n 0) (e ∙ append_assoc text crlf rest)
      ∙ ap (λ j. set (text ++ cr ∷ lf ∷ rest) j 0) none_more
      ∙ Array.set-append text (cr ∷ lf ∷ rest) 0 0 in
    let place : i + n + 1 ≡ i + (n + 1) = omega arith in
    rw place (
      Array.drop-set (set b (i + n) 0) i (n + 1) 0
      ∙ ap (λ l. set l (n + 1) 0) first
      ∙ Array.set-append text (0 ∷ lf ∷ rest) 1 0)

strspn_blank-digit : (l s : List ℕ) → IsDigits l → 0 < length l → strspn_blank (l ++ s) ≡ 0
unfolding strspn_blank Array.get
strspn_blank-digit [] s digits some = absurd (omega arith)
strspn_blank-digit (d ∷ l) s digits some = ground (arith, digits 0)

-- what `parse_headers` makes of a line that holds a Content-Length
parse_headers-content_length :
    (c : HttpConn) (i n : ℕ) (rest : List ℕ)
    → n < 2 ^ 31
    → string_at c i ≡ codes "Content-Length: " ++ (decimal (pos n) ++ 0 ∷ rest)
    → parse_headers c i ≡ (record c { content_length = pos n }, no_request)
unfolding parse_headers starts_ignoring_case strspn_blank Array.get
parse_headers-content_length c i n rest small e =
    let value = decimal (pos n) ++ 0 ∷ rest in
    let here : i + 0 ≡ i = omega arith in
    let first : Array.get c.read_buf i ≡ b'C' =
      ap (Array.get c.read_buf) (sym here)
      ∙ sym (Array.get-drop c.read_buf i 0)
      ∙ ap (λ l. Array.get l 0) e in
    let not_empty : (Array.get c.read_buf i == 0) ≡ false = rw first refl in
    let behind : string_at c (i + 15) ≡ b' ' ∷ value =
      Array.drop-drop c.read_buf i 15 ∙ ap (drop 15) e in
    let blank : strspn_blank (b' ' ∷ value) ≡ 1 =
      ap suc
        (strspn_blank-digit (decimal (pos n)) (0 ∷ rest) (decimal-IsDigits n) (decimal-some n)) in
    let number : string_at c (i + 15 + 1) ≡ value =
      Array.drop-drop c.read_buf (i + 15) 1 ∙ ap (drop 1) behind in
    let read : to_int (atol value) ≡ pos n =
      ap to_int (atol-decimal n 0 rest (omega arith) (omega arith)) ∙ to_int-small n small in
    rw (not_empty, e, behind, blank, number, read) refl

no_lf : List ℕ → Bool
no_lf [] = true
no_lf (x ∷ xs) = not (x == lf) && no_lf xs

no_lf-get : (l : List ℕ) → no_lf l ≡ true → (j : ℕ) → j < length l → Array.get l j ≢ lf
unfolding no_lf Array.get
no_lf-get [] h j b = absurd (omega arith)
no_lf-get (x ∷ xs) h zero b = ground arith
no_lf-get (x ∷ xs) h (suc j) b = no_lf-get xs (ground arith) j (omega arith)

title-plain : no_lf (codes "Content-Length: ") ≡ true
unfolding no_lf
title-plain = refl

abbrev field_text : ℕ → List ℕ
field_text n = codes "Content-Length: " ++ decimal (pos n)

field_text-plain : (n j : ℕ) → j < length (field_text n) → Array.get (field_text n) j ≢ lf
field_text-plain n j b =
    let title = codes "Content-Length: " in
    let len = length-append title (decimal (pos n)) in
    ground (
      arith,
      Array.get-append title (decimal (pos n)) j,
      no_lf-get title title-plain j,
      decimal-IsDigits n (j - length title),
      len,
    )

appended :
    (d d' : HttpConn) (text : List ℕ)
    → IsWritable d
    → add_response d text ≡ ok (d', true)
    → (written d' ≡ written d ++ text) × (d'.write_idx ≡ d.write_idx + length text)
appended d d' text w good =
    let a = Ends-ok (subst (Ends (IsAppended d text)) good (add_response-IsAppended d text w)) in
    (a.result, a.index)

-- Where `d` has written the Content-Length line of an `n` below 2^31 with success and become `d'`, and
-- `c` holds and has received, from `m_checked_idx` on, the bytes that this added to the response of
-- `d`: then `parse_line` of `c` finds the line, and `parse_headers` of it sets `m_content_length` to
-- `n`, changes nothing else and asks for more.
pub add_content_length-parse_headers :
    (d d' c : HttpConn) (n : ℕ) (rest : List ℕ)
    → n < 2 ^ 31
    → IsWritable d
    → add_content_length d (pos n) ≡ ok (d', true)
    → written d ++ string_at c c.checked_idx ≡ written d' ++ rest
    → c.checked_idx + (d'.write_idx - d.write_idx) ≤ c.read_idx
    → ((parse_line c).1 ≡ line_ok)
      × (parse_headers (parse_line c).0 c.checked_idx
          ≡ (record (parse_line c).0 { content_length = pos n }, no_request))
unfolding add_content_length
add_content_length-parse_headers d d' c n rest small w success sent received =
    let text = field_text n in
    let (result, index) = appended d d' (line_of text) w success in
    let held : string_at c c.checked_idx ≡ line_of text ++ rest =
      append_cancel_left (written d) (string_at c c.checked_idx) (line_of text ++ rest)
        (sent ∙ ap (λ l. l ++ rest) result ∙ append_assoc (written d) (line_of text) rest) in
    let (cut_there, good) =
      parse_line-line_of c text
        (ground (arith, length-append (codes "Content-Length: ") (decimal (pos n))))
        (Array.get-front c.read_buf (line_of text) rest c.checked_idx held) (field_text-plain n)
        (omega (arith, index, length-append text crlf)) in
    (
      good,
      parse_headers-content_length (parse_line c).0 c.checked_idx n (0 ∷ rest) small (
          ap (drop c.checked_idx) cut_there
          ∙ string_at-cut c.read_buf c.checked_idx text rest held
          ∙ append_assoc (codes "Content-Length: ") (decimal (pos n)) (0 ∷ 0 ∷ rest)),
    )
