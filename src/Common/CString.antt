-- ===== src/Common/CString.antt =====
-- The functions of the C library on strings, as the sources call them. A string is the bytes up to
-- the first NUL. The functions take the end of a list for a NUL; `has_nul` tells whether there is one.
pub mod Decimal
use Prim.Native.Char.{code}
use Prim.Native.String.{String}
use Prim.Native.Nat.{ℕ, zero, suc, ◌+◌, ◌-◌, ◌*◌, ◌/◌, ◌%◌, ◌^◌, ◌<◌}
use mathlib.Core.Path.{◌≡◌, refl}
use mathlib.Core.Bool.{Bool, true, false, ◌&&◌, ◌||◌}
use mathlib.Core.Option.{Option, none, some}
use mathlib.Core.List.{List, [], ◌∷◌}
use native.Mathlib.Omega.{arith}
use socket_test.Common.Tests.{ltb, leb, ◌==◌, if◌then◌else◌}
use socket_test.Common.Int.{ℤ, pos, negsuc}
use mathlib.Core.Option

-- the bytes of a literal
abbrev pub codes : String → List ℕ
codes String.[] = []
codes (String.◌∷◌ c s) = code c ∷ codes s

-- the bytes before the NUL
unfoldable pub c_str : List ℕ → List ℕ
c_str [] = []
c_str (c ∷ cs) = if c == 0 then [] else c ∷ c_str cs

abbrev pub is_blank : ℕ → Bool
is_blank c = c == b' ' || c == b'\t'

-- whether an array holds a string: there is a NUL in it
unfoldable pub has_nul : List ℕ → Bool
has_nul [] = false
has_nul (c ∷ cs) = if c == 0 then true else has_nul cs

-- `strpbrk(s, " \t")`, as an offset
unfoldable pub strpbrk_blank : List ℕ → Option ℕ
strpbrk_blank [] = none
strpbrk_blank (c ∷ cs) =
    if c == 0 then none else if is_blank c then some 0 else Option.map suc (strpbrk_blank cs)

-- `strspn(s, " \t")`
unfoldable pub strspn_blank : List ℕ → ℕ
strspn_blank [] = 0
strspn_blank (c ∷ cs) = if is_blank c then suc (strspn_blank cs) else 0

-- `strchr(s, b)` for a byte other than NUL, as an offset
unfoldable pub strchr : List ℕ → ℕ → Option ℕ
strchr [] b = none
strchr (c ∷ cs) b = if c == 0 then none else if c == b then some 0 else Option.map suc (strchr cs b)

abbrev pub to_lower : ℕ → ℕ
to_lower c = if leb b'A' c && leb c b'Z' then c + 32 else c

-- `strcasecmp(s, t) == 0`
unfoldable pub same_ignoring_case : List ℕ → List ℕ → Bool
same_ignoring_case [] [] = true
same_ignoring_case [] (b ∷ t) = false
same_ignoring_case (c ∷ s) [] = c == 0
same_ignoring_case (c ∷ s) (b ∷ t) = to_lower c == to_lower b && same_ignoring_case s t

-- `strncasecmp(s, t, strlen(t)) == 0`
unfoldable pub starts_ignoring_case : List ℕ → List ℕ → Bool
starts_ignoring_case s [] = true
starts_ignoring_case [] (b ∷ t) = false
starts_ignoring_case (c ∷ s) (b ∷ t) = to_lower c == to_lower b && starts_ignoring_case s t

abbrev is_space : ℕ → Bool
is_space c = c == b' ' || (leb 9 c && leb c 13)

skip_space : List ℕ → List ℕ
skip_space [] = []
skip_space (c ∷ cs) = if is_space c then skip_space cs else c ∷ cs

-- the value of the leading digits, on top of `acc`
leading_number : ℕ → List ℕ → ℕ
leading_number acc [] = acc
leading_number acc (c ∷ cs) =
    let rest = leading_number (acc * 10 + (c - b'0')) cs in
    if leb b'0' c && leb c b'9' then rest else acc

-- -n, as an integer
abbrev pub neg : ℕ → ℤ
neg zero = pos 0
neg (suc n) = negsuc n

-- the sign, and the clamping of `strtol` to a 64-bit long
signed_number : List ℕ → ℤ
unfolding leading_number
signed_number [] = pos 0
signed_number (c ∷ cs) =
    if c == b'-'
    then (let n = leading_number 0 cs in if leb n (2 ^ 63) then neg n else neg (2 ^ 63))
    else (let n = leading_number 0 (if c == b'+' then cs else c ∷ cs) in
        if ltb n (2 ^ 63) then pos n else pos (2 ^ 63 - 1))

unfoldable pub atol : List ℕ → ℤ
unfolding skip_space signed_number
atol s = signed_number (skip_space s)

-- the conversion of a long to a 32-bit int, which keeps the low 32 bits
from_word : ℕ → ℤ
from_word w = if ltb w (2 ^ 31) then pos w else neg (2 ^ 32 - w)

unfoldable pub to_int : ℤ → ℤ
unfolding from_word
to_int (pos n) = from_word (n % 2 ^ 32)
to_int (negsuc n) = from_word (2 ^ 32 - 1 - n % 2 ^ 32)

pub to_int-small : (n : ℕ) → n < 2 ^ 31 → to_int (pos n) ≡ pos n
unfolding to_int from_word
to_int-small n h = ground arith

decimal_loop : ℕ → ℕ → List ℕ → List ℕ
decimal_loop zero n acc = acc
decimal_loop (suc k) n acc =
    let rest = decimal_loop k (n / 10) ((b'0' + n % 10) ∷ acc) in
    if ltb n 10 then (b'0' + n) ∷ acc else rest

-- `%d`: as many rounds as the number itself says are enough
unfoldable pub decimal : ℤ → List ℕ
unfolding decimal_loop
decimal (pos n) = decimal_loop (suc n) n []
decimal (negsuc n) = b'-' ∷ decimal_loop (suc (suc n)) (suc n) []

parse_sample : to_int (atol (codes "  -12x")) ≡ neg 12
unfolding atol to_int
parse_sample = refl

print_sample : decimal (neg 305) ≡ codes "-305"
unfolding decimal
print_sample = refl
