-- ===== src/Text.antt =====
-- The parts of the C library's text functions that the programs use, over the bytes of a string:
-- the `ctype.h` tests in the C locale, `atoi`, `%d`, `strcmp` and `strncmp`.
pub mod Numbers
use Prim.Native.Char.{code}
use Prim.Native.String.{String}
use system_programming_hw.Common.{
  ℕ, zero, suc, ◌+◌, ◌-◌, ◌*◌, ◌/◌, ◌%◌, Bool, true, false, ◌&&◌, ◌||◌, List, [], ◌∷◌, ◌++◌, leb,
  ltb, ◌==◌, if◌then◌else◌,
}
use system_programming_hw.Common.Int.{ℤ, pos, negsuc, sub_ℕ, wrap32}

-- The bytes of an ASCII literal.
abbrev pub codes : String → List ℕ
codes String.[] = []
codes (String.◌∷◌ c s) = code c ∷ codes s

-- A buffer up to its first NUL byte.
unfoldable pub c_string : List ℕ → List ℕ
c_string [] = []
c_string (c ∷ s) = if c == 0 then [] else c ∷ c_string s

abbrev pub isdigit : ℕ → Bool
isdigit c = leb 48 c && leb c 57

abbrev pub isalpha : ℕ → Bool
isalpha c = (leb 65 c && leb c 90) || (leb 97 c && leb c 122)

abbrev pub isspace : ℕ → Bool
isspace c = c == 32 || (leb 9 c && leb c 13)

-- Does the text begin with the prefix (`strncmp` with the prefix's length returns 0)?
unfoldable pub starts_with : List ℕ → List ℕ → Bool
starts_with [] s = true
starts_with (p ∷ ps) [] = false
starts_with (p ∷ ps) (c ∷ s) = p == c && starts_with ps s

-- Does the text contain the pattern (`strstr` returns no null pointer)?
unfoldable pub contains : List ℕ → List ℕ → Bool
unfolding starts_with
contains p [] = starts_with p []
contains p (c ∷ s) = starts_with p (c ∷ s) || contains p s

unfoldable pub skip_spaces : List ℕ → List ℕ
skip_spaces [] = []
skip_spaces (c ∷ s) = if isspace c then skip_spaces s else c ∷ s

unfoldable pub digits_value : ℕ → List ℕ → ℕ
digits_value acc [] = acc
digits_value acc (c ∷ s) =
    let rest = digits_value (acc * 10 + (c - 48)) s in if isdigit c then rest else acc

-- A 64-bit `strtol` stops at the ends of `long`; `atoi` casts its result to `int`.
abbrev clamp_long : ℕ → ℕ → ℕ
clamp_long top n = if ltb top n then top else n

abbrev pub positive_int : List ℕ → ℤ
unfolding digits_value
positive_int s = wrap32 (pos (clamp_long 9223372036854775807 (digits_value 0 s)))

abbrev pub negative_int : List ℕ → ℤ
unfolding digits_value
negative_int s = wrap32 (sub_ℕ 0 (clamp_long 9223372036854775808 (digits_value 0 s)))

pub signed_int : List ℕ → ℤ
unfolding digits_value
signed_int [] = pos 0
signed_int (c ∷ s) =
    if c == 45 then negative_int s else if c == 43 then positive_int s else positive_int (c ∷ s)

unfoldable pub atoi : List ℕ → ℤ
unfolding signed_int skip_spaces wrap32
atoi s = signed_int (skip_spaces s)

-- The decimal digits of a number below 10 ^ fuel.
unfoldable pub show_digits : ℕ → ℕ → List ℕ
show_digits zero n = []
show_digits (suc fuel) n =
    let front = show_digits fuel (n / 10) in
    if ltb n 10 then (48 + n) ∷ [] else front ++ (48 + n % 10) ∷ []

-- `%d`: the magnitude of a 32-bit integer has at most ten digits.
unfoldable pub show_int : ℤ → List ℕ
unfolding show_digits
show_int (pos n) = show_digits 10 n
show_int (negsuc n) = 45 ∷ show_digits 10 (suc n)

-- `strcmp(a, b) < 0`, over strings without NUL bytes.
unfoldable pub strcmp_lt : List ℕ → List ℕ → Bool
strcmp_lt s [] = false
strcmp_lt [] (d ∷ t) = true
strcmp_lt (c ∷ s) (d ∷ t) = let rest = strcmp_lt s t in if c == d then rest else ltb c d

-- `strcmp(s, t) == 0`.
unfoldable pub same_text : List ℕ → List ℕ → Bool
same_text [] [] = true
same_text (c ∷ s) (d ∷ t) = c == d && same_text s t
same_text _ _ = false
