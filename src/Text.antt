-- ===== src/Text.antt =====
-- What the program uses of Python's `str`: `in`, `startswith`, `endswith`, `strip` of one
-- character, f-strings. `str.lower` follows the interpreter's Unicode tables and is a parameter.
pub mod Utf8
pub mod Pattern
pub mod Strip
use Prim.Native.Char.{Char, code}
use Prim.Native.String.{[], ◌∷◌, ◌++◌, char_at}
use text.Mathlib.Text.{starts_with}
use cycletls_python.Base.{
  ℕ, zero, suc, ◌/◌, ◌%◌, ◌-◌, String, Bool, ◌&&◌, ◌||◌, List, ◌==◌, ltb, leb, eqb, if◌then◌else◌,
  ◌≡◌, refl,
}

-- `s.lower()`
pub record Casing : Type 0 where
  pub lower : String → String

abbrev pub lower : ⦃c : Casing⦄ → String → String
lower ⦃c⦄ = c.lower

-- s.startswith(p)
abbrev pub startswith : String → String → Bool
startswith = starts_with

-- p in s
unfoldable pub contains : String → String → Bool
contains [] p = p == ""
contains (c ∷ s) p = starts_with (c ∷ s) p || contains s p

-- s.endswith(p)
unfoldable pub endswith : String → String → Bool
endswith [] p = p == ""
endswith (c ∷ s) p = (c ∷ s) == p || endswith s p

-- s.lstrip(ch), s.rstrip(ch)
unfoldable pub lstrip : ℕ → String → String
lstrip ch [] = []
lstrip ch (c ∷ s) = let rest = lstrip ch s in if eqb (code c) ch then rest else c ∷ s

-- a character that stays, or one to strip before an empty rest
abbrev unless_last : ℕ → Char → String → String
unless_last ch c [] = if eqb (code c) ch then [] else c ∷ []
unless_last ch c (d ∷ s) = c ∷ d ∷ s

unfoldable pub rstrip : ℕ → String → String
rstrip ch [] = []
rstrip ch (c ∷ s) = unless_last ch c (rstrip ch s)

-- s[:-1]
unfoldable pub without_last : String → String
without_last [] = []
without_last (c ∷ []) = []
without_last (c ∷ d ∷ s) = c ∷ without_last (d ∷ s)

-- An f-string: its parts in a row.
unfoldable pub join : List String → String
join List.[] = []
join (List.◌∷◌ s List.[]) = s
join (List.◌∷◌ s (List.◌∷◌ t ts)) = s ++ join (List.◌∷◌ t ts)

-- The decimal form of a number, with fuel for its digits: `n` has at most `n + 1` of them.
decimal_fuel : ℕ → ℕ → String
decimal_fuel zero n = ""
decimal_fuel (suc f) n =
    let rest = decimal_fuel f (n / 10) in
    let digit = char_at "0123456789" (n % 10) ∷ [] in if ltb n 10 then digit else rest ++ digit

-- str(n)
unfoldable pub decimal : ℕ → String
unfolding decimal_fuel
decimal n = decimal_fuel (suc n) n

-- [ord(c) for c in s]
unfoldable pub codes : String → List ℕ
codes [] = List.[]
codes (c ∷ s) = List.◌∷◌ (code c) (codes s)

-- `lower` on texts of ASCII letters, for examples.
ascii_lower_char : Char → Char
ascii_lower_char c =
    if leb 65 (code c) && leb (code c) 90
    then char_at "abcdefghijklmnopqrstuvwxyz" (code c - 65)
    else c

ascii_lower : String → String
unfolding ascii_lower_char
ascii_lower [] = []
ascii_lower (c ∷ s) = ascii_lower_char c ∷ ascii_lower s

unfoldable pub ascii : Casing
unfolding ascii_lower
ascii = record { lower = ascii_lower }

ascii_test : lower ⦃c = ascii⦄ "Content-TYPE" ≡ "content-type"
unfolding ascii
ascii_test = refl

decimal_test : decimal 4096 ≡ "4096"
unfolding decimal
decimal_test = refl

strip_test : rstrip b'/' "https://a/b//" ≡ "https://a/b"
unfolding rstrip
strip_test = refl
