-- ===== src/Text/Pattern.antt =====
-- The patterns of Python's `re` that cycletls/fingerprints.py searches for. `\d` and `int` follow the
-- interpreter's Unicode tables: the value of a digit is a parameter.
use Prim.Native.Char.{code}
use Prim.Native.String.{[], ◌∷◌}
use cycletls_python.Base.{
  ℕ, ◌+◌, ◌*◌, ◌-◌, String, Bool, true, ◌&&◌, Option, none, some, List, ◌==◌, eqb, leb,
  if◌then◌else◌, is_some, or_else, ◌≡◌, refl,
}

-- the value of a character that `\d` matches
pub record Digits : Type 0 where
  pub digit : ℕ → Option ℕ

abbrev pub digit : ⦃d : Digits⦄ → ℕ → Option ℕ
digit ⦃d⦄ = d.digit

-- s[len(p):], when s starts with p
unfoldable pub after : String → String → Option String
after [] s = some s
after (c ∷ p) [] = none
after (c ∷ p) (d ∷ s) = if eqb (code c) (code d) then after p s else none

-- the longest run at the front of a text, of characters that satisfy a test
unfoldable pub span : (ℕ → Bool) → String → String
span p [] = []
span p (c ∷ s) = if p (code c) then c ∷ span p s else []

-- a match of `prefix(run)`, where the run is not empty
run_after : (ℕ → Bool) → Option String → Option String
unfolding span
run_after p none = none
run_after p (some s) = let run = span p s in if run == "" then none else some run

-- re.match(r"(?:first|second|...)([p]+)", s), its group
unfoldable pub match : (ℕ → Bool) → List String → String → Option String
unfolding run_after after
match p List.[] s = none
match p (List.◌∷◌ prefix rest) s = or_else (run_after p (after prefix s)) (match p rest s)

-- re.search of the same pattern: the first position where it matches
unfoldable pub search_group : (ℕ → Bool) → List String → String → Option String
unfolding match
search_group p prefixes [] = match p prefixes []
search_group p prefixes (c ∷ s) = or_else (match p prefixes (c ∷ s)) (search_group p prefixes s)

-- `[0-9.]`
unfoldable pub is_version_char : ℕ → Bool
is_version_char c = if eqb c 46 then true else leb 48 c && leb c 57

module _ ⦃d : Digits⦄ where
  -- `\d`
  abbrev pub is_digit : ℕ → Bool
  is_digit c = is_some (digit c)

  -- re.findall(r"\d+", s), as numbers; `run` is the number that is being read
  unfoldable pub find_numbers : Option ℕ → String → List ℕ
  find_numbers none [] = List.[]
  find_numbers (some n) [] = List.◌∷◌ n List.[]
  find_numbers none (c ∷ s) = elim (digit (code c)) [
    | none ↦ find_numbers none s
    | some v ↦ find_numbers (some v) s
  ]
  find_numbers (some n) (c ∷ s) = elim (digit (code c)) [
    | none ↦ List.◌∷◌ n (find_numbers none s)
    | some v ↦ find_numbers (some (10 * n + v)) s
  ]

-- the digits of ASCII, for examples
unfoldable pub ascii_digits : Digits
ascii_digits = record { digit = λ c. if leb 48 c && leb c 57 then some (c - 48) else none }

search_test :
    search_group
      (is_digit ⦃d = ascii_digits⦄)
      (List.◌∷◌ "Chrome/" (List.◌∷◌ "Chromium/" List.[]))
      "Mozilla/5.0 Chrome/x Chromium/149.0 Chrome/3"
    ≡ some "149"
unfolding search_group ascii_digits
search_test = refl

numbers_test :
    find_numbers ⦃d = ascii_digits⦄ none "chromium_149_0_7827_55_linux"
    ≡ List.◌∷◌ 149 (List.◌∷◌ 0 (List.◌∷◌ 7827 (List.◌∷◌ 55 List.[])))
unfolding find_numbers ascii_digits
numbers_test = refl
