-- ===== src/HttpConn/Lines/Found.antt =====
-- What `parse_line` of http_conn.cc finds.
use socket_test.Common.{
  ℕ, zero, suc, ◌+◌, ◌-◌, ◌≤◌, ◌<◌, ◌≡◌, refl, ap, ◌≢◌, ◌⊎◌, inl, inr, true, false, ltb, ◌&&◌,
  ℕ_discrete, Bool-cases, List, arith, ◌==◌,
}
use socket_test.Common.Array
use socket_test.HttpConn.{HttpConn, line_ok, line_bad, line_open}
use socket_test.HttpConn.Lines.{Scan, cr, lf, cut, scan, parse_line}

-- no line feed from `i` up to `j`
abbrev pub IsQuiet : List ℕ → ℕ → ℕ → Type 0
IsQuiet b i j = (m : ℕ) → i ≤ m → m < j → Array.get b m ≢ lf

-- What a call with `b` in the buffer, `i` checked and `r` received leaves, for each status.
pub data Outcome (b : List ℕ) (r i : ℕ) (s : Scan) : Type 0 where
  -- a line end at `k`: the bytes are replaced by NULs, and all up to it is checked
  found :
      (k : ℕ)
      → i ≤ k + 1
      → k + 1 < r
      → Array.get b k ≡ cr
      → Array.get b (k + 1) ≡ lf
      → IsQuiet b i (k + 1)
      → s ≡ record { buf = cut b k; checked = k + 2; status = line_ok }
      → Outcome b r i s
  -- a line feed that no carriage return precedes
  bare :
      (k : ℕ)
      → i ≤ k
      → k < r
      → Array.get b k ≡ lf
      → (k ≤ 1) ⊎ (Array.get b (k - 1) ≢ cr)
      → IsQuiet b i k
      → s ≡ record { buf = b; checked = k; status = line_bad }
      → Outcome b r i s
  -- all of the data checked, but for a carriage return at its end
  more :
      (k : ℕ)
      → i ≤ k
      → (k ≡ r) ⊎ ((k + 1 ≡ r) × (Array.get b k ≡ cr))
      → IsQuiet b i k
      → s ≡ record { buf = b; checked = k; status = line_open }
      → Outcome b r i s

-- A byte that is no line feed may stand before what the rest of the loop checks.
Outcome-skip :
    (b : List ℕ) (r i : ℕ) (s : Scan)
    → Array.get b i ≢ lf
    → (Array.get b i ≢ cr) ⊎ (Array.get b (i + 1) ≢ lf)
    → Outcome b r (i + 1) s
    → Outcome b r i s
Outcome-skip b r i s plain apart (found k p q x y quiet e) =
    found k (omega arith) q x y (λ m h l. ground (arith, quiet m)) e
Outcome-skip b r i s plain apart (bare k p q x y quiet e) =
    bare k (omega arith) q x y (λ m h l. ground (arith, quiet m)) e
Outcome-skip b r i s plain apart (more k p x quiet e) =
    more k (omega arith) x (λ m h l. ground (arith, quiet m)) e

scan-Outcome : (n r : ℕ) (b : List ℕ) (i : ℕ) → i + n ≡ r → Outcome b r i (scan n r b i)
unfolding scan
scan-Outcome zero r b i e =
    more i (omega arith) (inl (omega arith)) (λ m h l. absurd (omega arith)) refl
scan-Outcome (suc n) r b i e = elim (ℕ_discrete (Array.get b i) cr) [
  | yes at_cr ↦
      let test : (Array.get b i == cr) ≡ true = ground arith in
      let plain : Array.get b i ≢ lf = ground arith in
      rw (test, scan)
        (elim (ℕ_discrete (i + 1) r) [
          | yes last ↦
              let end : (i + 1 == r) ≡ true = ground arith in
              rw end (more i (omega arith) (inr (last, at_cr)) (λ m h l. absurd (omega arith)) refl)
          | no inside ↦
              let end : (i + 1 == r) ≡ false = ground arith in
              rw end (elim (ℕ_discrete (Array.get b (i + 1)) lf) [
                | yes at_lf ↦
                    let next : (Array.get b (i + 1) == lf) ≡ true = ground arith in
                    rw next (
                      found i (omega arith) (omega arith) at_cr at_lf
                        (λ m h l. ground (arith, ap (Array.get b) (at_end m h l))) refl)
                | no other ↦
                    let next : (Array.get b (i + 1) == lf) ≡ false = ground arith in
                    rw next (
                      Outcome-skip b r i _ plain (inr other)
                        (scan-Outcome n r b (i + 1) (omega arith)))
              ])
        ])
  | no off_cr ↦
      let test : (Array.get b i == cr) ≡ false = ground arith in
      rw (test, scan)
        (elim (ℕ_discrete (Array.get b i) lf) [
          | yes at_lf ↦
              let next : (Array.get b i == lf) ≡ true = ground arith in
              rw next (elim (Bool-cases (ltb 1 i && Array.get b (i - 1) == cr)) [
                | inl split ↦ rw split (
                    found (i - 1) (ground arith) (ground arith) (ground arith) (ground arith)
                      (λ m h l. absurd (ground arith)) (ground arith))
                | inr alone ↦ rw alone (
                    bare i (omega arith) (omega arith) at_lf (ground arith)
                      (λ m h l. absurd (omega arith)) refl)
              ])
          | no other ↦
              let next : (Array.get b i == lf) ≡ false = ground arith in
              rw next
                (Outcome-skip b r i _ other (inl off_cr) (scan-Outcome n r b (i + 1) (omega arith)))
        ])
]
  where
    at_end : (m : ℕ) → i ≤ m → m < i + 1 → m ≡ i
    at_end m h l = omega arith

-- Where what is checked has been received, `parse_line` stops at the first line feed that it
-- meets, or at the end of the data: it cuts the line there, refuses it, or asks for more.
pub parse_line-Outcome :
    (c : HttpConn)
    → c.checked_idx ≤ c.read_idx
    → Outcome c.read_buf c.read_idx c.checked_idx (record {
      buf = (parse_line c).0.read_buf;
      checked = (parse_line c).0.checked_idx;
      status = (parse_line c).1;
    })
unfolding parse_line
parse_line-Outcome c h =
    scan-Outcome (c.read_idx - c.checked_idx) c.read_idx c.read_buf c.checked_idx (omega arith)
