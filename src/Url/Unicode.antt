-- ===== src/Url/Unicode.antt =====
-- `bytes.decode("utf-8", errors="replace")`, byte by byte, and that it undoes `str.encode`.
use cycletls_python.Base.{
  ℕ, zero, suc, ◌+◌, ◌-◌, ◌*◌, ◌<◌, ◌≤◌, ◌&&◌, List, [], ◌∷◌, ◌++◌, ltb, leb, eqb, if◌then◌else◌,
  ◌≡◌, arith, ◌⊎◌,
}
use cycletls_python.Text.Utf8.{utf8_char}

-- A character that is being read: how many bytes are missing, the bits so far, and the range of
-- the next byte.
pub data Pending : Type 0 where
  idle : Pending
  want : ℕ → ℕ → ℕ → ℕ → Pending

abbrev replacement : ℕ
replacement = 65533

-- the first byte of a character
unfoldable pub lead : ℕ → List ℕ × Pending
lead b =
    if ltb b 128
    then (b ∷ [], idle)
    else if leb 194 b && ltb b 224
    then ([], want 1 (b - 192) 128 191)
    else if leb 224 b && ltb b 240
    then ([], want 2 (b - 224) (if eqb b 224 then 160 else 128) (if eqb b 237 then 159 else 191))
    else if leb 240 b && ltb b 245
    then ([], want 3 (b - 240) (if eqb b 240 then 144 else 128) (if eqb b 244 then 143 else 191))
    else (replacement ∷ [], idle)

-- a further byte with the bits `v` so far
continue : ℕ → ℕ → List ℕ × Pending
continue zero v = (v ∷ [], idle)
continue (suc n) v = ([], want (suc n) v 128 191)

-- one byte: the characters that it completes
unfoldable pub byte : Pending → ℕ → List ℕ × Pending
unfolding lead continue
byte idle b = lead b
byte (want n acc lo hi) b =
    if leb lo b && leb b hi
    then continue (n - 1) (acc * 64 + (b - 128))
    else (replacement ∷ (lead b).0, (lead b).1)

-- the end of the bytes
unfoldable pub flush : Pending → List ℕ
flush idle = []
flush (want n acc lo hi) = replacement ∷ []

-- bs.decode("utf-8", "replace"), in the midst of a character
unfoldable pub decode : Pending → List ℕ → List ℕ
unfolding byte flush
decode p [] = flush p
decode p (b ∷ bs) = (byte p b).0 ++ decode (byte p b).1 bs

-- A code point of a text: no surrogate.
abbrev pub IsScalar : ℕ → Type 0
IsScalar n = (n < 55296) ⊎ ((57344 ≤ n) × (n < 1114112))

pub decode-utf8_char :
    (n : ℕ) (rest : List ℕ) → IsScalar n → decode idle (utf8_char n ++ rest) ≡ n ∷ decode idle rest
unfolding decode utf8_char
decode-utf8_char n rest h = ground arith
