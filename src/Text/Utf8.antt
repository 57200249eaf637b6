-- ===== src/Text/Utf8.antt =====
-- `str.encode("utf-8")`.
use cycletls_python.Base.{
  ℕ, ◌+◌, ◌/◌, ◌%◌, String, List, [], ◌∷◌, ◌++◌, ltb, if◌then◌else◌, ◌≡◌, refl,
}
use cycletls_python.Text.{codes}

-- the bytes of one character
unfoldable pub utf8_char : ℕ → List ℕ
utf8_char n =
    if ltb n 128
    then n ∷ []
    else if ltb n 2048
    then (192 + n / 64) ∷ (128 + n % 64) ∷ []
    else if ltb n 65536
    then (224 + n / 4096) ∷ (128 + n / 64 % 64) ∷ (128 + n % 64) ∷ []
    else (240 + n / 262144) ∷ (128 + n / 4096 % 64) ∷ (128 + n / 64 % 64) ∷ (128 + n % 64) ∷ []

unfoldable pub utf8 : List ℕ → List ℕ
unfolding utf8_char
utf8 [] = []
utf8 (n ∷ ns) = utf8_char n ++ utf8 ns

-- s.encode("utf-8")
unfoldable pub encode : String → List ℕ
unfolding utf8
encode s = utf8 (codes s)

encode_test : encode "aé€" ≡ 97 ∷ 195 ∷ 169 ∷ 226 ∷ 130 ∷ 172 ∷ []
unfolding encode codes
encode_test = refl
