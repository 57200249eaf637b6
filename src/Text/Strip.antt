-- ===== src/Text/Strip.antt =====
-- `str.strip` without arguments and the substitution of `re`, as cycletls/fingerprints.py uses them.
use Prim.Native.Char.{Char, code}
use Prim.Native.String
use cycletls_python.Base.{
  ℕ, String, Bool, true, false, ◌&&◌, ◌||◌, [], ◌∷◌, eqb, leb, any, if◌then◌else◌,
}
use cycletls_python.Text.{join}

-- str.isspace() of one character
unfoldable pub is_space : ℕ → Bool
is_space c =
    (leb 9 c && leb c 13)
    || (leb 28 c && leb c 32)
    || (leb 8192 c && leb c 8202)
    || any (eqb c) (133 ∷ 160 ∷ 5760 ∷ 8232 ∷ 8233 ∷ 8239 ∷ 8287 ∷ 12288 ∷ [])

-- s.lstrip(), s.rstrip()
unfoldable pub drop_spaces : String → String
unfolding is_space
drop_spaces Prim.Native.String.[] = ""
drop_spaces (Prim.Native.String.◌∷◌ c s) =
    let rest = drop_spaces s in if is_space (code c) then rest else Prim.Native.String.◌∷◌ c s

unless_space : Char → String → String
unfolding is_space
unless_space c Prim.Native.String.[] = if is_space (code c) then "" else Prim.Native.String.◌∷◌ c ""
unless_space c (Prim.Native.String.◌∷◌ d s) = Prim.Native.String.◌∷◌ c (Prim.Native.String.◌∷◌ d s)

unfoldable pub drop_last_spaces : String → String
unfolding unless_space
drop_last_spaces Prim.Native.String.[] = ""
drop_last_spaces (Prim.Native.String.◌∷◌ c s) = unless_space c (drop_last_spaces s)

-- re.sub(r"[^0-9A-Za-z]+", "_", s); whether the run before is already replaced
unfoldable pub is_alphanumeric : ℕ → Bool
is_alphanumeric c = (leb 48 c && leb c 57) || (leb 65 c && leb c 90) || (leb 97 c && leb c 122)

unfoldable pub replace_runs : Bool → String → String
unfolding is_alphanumeric
replace_runs replaced Prim.Native.String.[] = ""
replace_runs replaced (Prim.Native.String.◌∷◌ c s) =
    let inside = replace_runs true s in
    if is_alphanumeric (code c)
    then Prim.Native.String.◌∷◌ c (replace_runs false s)
    else if replaced
    then inside
    else join ("_" ∷ inside ∷ [])
