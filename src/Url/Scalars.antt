-- ===== src/Url/Scalars.antt =====
-- Texts hold no surrogates, and decoding makes none.
use Prim.Native.Char.{Char, char, code}
use Prim.Native.String
use cycletls_python.Base.{
  ℕ, zero, suc, ◌+◌, ◌-◌, ◌*◌, ◌<◌, ◌≤◌, String, List, [], ◌∷◌, Option, none, some, map, eqb, ltb,
  leb, ◌&&◌, arith, All, All-append, Bool-cases, ◌⊎◌, inl, inr,
}
use cycletls_python.Exec.{on, if_case, on_case}
use cycletls_python.Text.{codes}
use cycletls_python.Values.{is_nil}
use cycletls_python.Url.Unicode.{Pending, idle, want, byte, lead, flush, IsScalar}
use cycletls_python.Url.Quote.{
  Codes, Token, octet, raw, plain, escape, tokens, decode_tokens, plus_to_space, unquote_plus,
  split_once, split_first, parse_pair, parse_parts, parse_qsl,
}
use cycletls_python.Url.RoundTrip.{IsPair}

char-IsScalar : (c : Char) → IsScalar (code c)
char-IsScalar (char n p) = ground arith

pub codes-IsScalar : (s : String) → All IsScalar (codes s)
unfolding codes
codes-IsScalar Prim.Native.String.[] = tt
codes-IsScalar (Prim.Native.String.◌∷◌ c s) = (char-IsScalar c, codes-IsScalar s)

-- The least and the greatest character that may come of some bits lie on one side of the
-- surrogates.
abbrev Between : ℕ → ℕ → Type 0
Between least greatest = (greatest < 55296) ⊎ ((57344 ≤ least) × (greatest < 1114112))

abbrev IsSafe : Pending → Type 0
IsSafe idle = Unit
IsSafe (want zero acc lo hi) = ⊥
IsSafe (want (suc zero) acc lo hi) =
    (128 ≤ lo) × (hi ≤ 191) × Between (acc * 64 + lo - 128) (acc * 64 + hi - 128)
IsSafe (want (suc (suc zero)) acc lo hi) =
    (128 ≤ lo)
    × (hi ≤ 191)
    × Between (acc * 4096 + (lo - 128) * 64) (acc * 4096 + (hi - 128) * 64 + 63)
IsSafe (want (suc (suc (suc zero))) acc lo hi) =
    (128 ≤ lo)
    × (hi ≤ 191)
    × Between (acc * 262144 + (lo - 128) * 4096) (acc * 262144 + (hi - 128) * 4096 + 4095)
IsSafe (want (suc (suc (suc (suc n)))) acc lo hi) = ⊥

lead-IsScalar : (b : ℕ) → All IsScalar (lead b).0
unfolding lead
lead-IsScalar b = ground arith

lead-IsSafe : (b : ℕ) → IsSafe (lead b).1
unfolding lead
lead-IsSafe b = ground arith

byte-IsScalar : (p : Pending) (b : ℕ) → IsSafe p → All IsScalar (byte p b).0
unfolding byte
byte-IsScalar idle b h = lead-IsScalar b
byte-IsScalar (want zero acc lo hi) b h = absurd h
byte-IsScalar (want (suc zero) acc lo hi) b h = ground (arith, lead-IsScalar b)
byte-IsScalar (want (suc (suc zero)) acc lo hi) b h = ground (arith, lead-IsScalar b)
byte-IsScalar (want (suc (suc (suc zero))) acc lo hi) b h = ground (arith, lead-IsScalar b)
byte-IsScalar (want (suc (suc (suc (suc n)))) acc lo hi) b h = absurd h

byte-IsSafe : (p : Pending) (b : ℕ) → IsSafe p → IsSafe (byte p b).1
unfolding byte
byte-IsSafe idle b h = lead-IsSafe b
byte-IsSafe (want zero acc lo hi) b h = absurd h
byte-IsSafe (want (suc zero) acc lo hi) b h = elim (Bool-cases (leb lo b && leb b hi)) [
  | inl inside ↦ rw inside (ground arith)
  | inr outside ↦ rw outside (lead-IsSafe b)
]
byte-IsSafe (want (suc (suc zero)) acc lo hi) b h = elim (Bool-cases (leb lo b && leb b hi)) [
  | inl inside ↦ rw inside (ground arith)
  | inr outside ↦ rw outside (lead-IsSafe b)
]
byte-IsSafe (want (suc (suc (suc zero))) acc lo hi) b h = elim (Bool-cases (leb lo b && leb b hi)) [
  | inl inside ↦ rw inside (ground arith)
  | inr outside ↦ rw outside (lead-IsSafe b)
]
byte-IsSafe (want (suc (suc (suc (suc n)))) acc lo hi) b h = absurd h

flush-IsScalar : (p : Pending) → All IsScalar (flush p)
unfolding flush
flush-IsScalar idle = tt
flush-IsScalar (want n acc lo hi) = (inr (omega arith, omega arith), tt)

-- A character that stands for itself is none of the surrogates.
abbrev IsClean : Token → Type 0
IsClean (octet b) = Unit
IsClean (raw c) = IsScalar c

decode_tokens-IsScalar :
    (p : Pending) (ts : List Token) → IsSafe p → All IsClean ts → All IsScalar (decode_tokens p ts)
unfolding decode_tokens
decode_tokens-IsScalar p [] h k = flush-IsScalar p
decode_tokens-IsScalar p (octet b ∷ ts) h k =
    All-append IsScalar (byte p b).0 (decode_tokens (byte p b).1 ts) (byte-IsScalar p b h)
      (decode_tokens-IsScalar (byte p b).1 ts (byte-IsSafe p b h) k.1)
decode_tokens-IsScalar p (raw c ∷ ts) h k =
    All-append IsScalar (flush p) (c ∷ decode_tokens idle ts) (flush-IsScalar p)
      (k.0, decode_tokens-IsScalar idle ts tt k.1)

plain-IsClean : (c : ℕ) → IsScalar c → IsClean (plain c)
unfolding plain
plain-IsClean c h = if_case IsClean (ltb c 128) (octet c) (raw c) tt h

tokens-IsClean : (n : ℕ) (s : Codes) → All IsScalar s → All IsClean (tokens n s)
unfolding tokens
tokens-IsClean zero [] h = tt
tokens-IsClean (suc n) [] h = tt
tokens-IsClean (suc n) (c ∷ s) h = tokens-IsClean n s h.1
tokens-IsClean zero (c ∷ s) h =
    on_case (All IsClean) (escape c s) (plain c ∷ tokens 0 s) (λ b. octet b ∷ tokens 2 s)
      (plain-IsClean c h.0, tokens-IsClean 0 s h.1) (λ b _. (tt, tokens-IsClean 2 s h.1))

spaces-IsScalar : (s : Codes) → All IsScalar s → All IsScalar (map plus_to_space s)
unfolding plus_to_space
spaces-IsScalar [] h = tt
spaces-IsScalar (c ∷ s) h =
    (if_case IsScalar (eqb c b'+') 32 c (inl (omega arith)) h.0, spaces-IsScalar s h.1)

unquote_plus-IsScalar : (s : Codes) → All IsScalar s → All IsScalar (unquote_plus s)
unfolding unquote_plus
unquote_plus-IsScalar s h =
    decode_tokens-IsScalar idle (tokens 0 (map plus_to_space s)) tt
      (tokens-IsClean 0 (map plus_to_space s) (spaces-IsScalar s h))

abbrev Both : Codes × Option Codes → Type 0
Both r = All IsScalar r.0 × on r.1 (Unit {0}) (All IsScalar)

split_once-IsScalar : (sep : ℕ) (s : Codes) → All IsScalar s → Both (split_once sep s)
unfolding split_once
split_once-IsScalar sep [] h = (tt, tt)
split_once-IsScalar sep (c ∷ s) h =
    let (first, second) = split_once-IsScalar sep s h.1 in
    if_case Both (eqb c sep) ([], some s) _ (tt, h.1) ((h.0, first), second)

value-IsScalar :
    (o : Option Codes) → on o (Unit {0}) (All IsScalar) → All IsScalar (on o [] (λ v. v))
value-IsScalar none h = tt
value-IsScalar (some v) h = h

parse_pair-IsPair : (s : Codes) → All IsScalar s → IsPair (parse_pair s)
unfolding parse_pair
parse_pair-IsPair s h =
    let (first, second) = split_once-IsScalar b'=' s h in
    (
      unquote_plus-IsScalar (split_once b'=' s).0 first,
      unquote_plus-IsScalar (on (split_once b'=' s).1 [] (λ v. v))
          (value-IsScalar (split_once b'=' s).1 second),
    )

split_first-IsScalar :
    (sep : ℕ) (s : Codes)
    → All IsScalar s
    → All (All IsScalar) ((split_first sep s).0 ∷ (split_first sep s).1)
unfolding split_first
split_first-IsScalar sep [] h = (tt, tt)
split_first-IsScalar sep (c ∷ s) h =
    let (first, others) = split_first-IsScalar sep s h.1 in
    if_case (λ (r : Codes × List Codes). All (All IsScalar) (r.0 ∷ r.1)) (eqb c sep) _ _
      (tt, (first, others)) ((h.0, first), others)

parse_parts-IsPair : (ps : List Codes) → All (All IsScalar) ps → All IsPair (parse_parts ps)
unfolding parse_parts
parse_parts-IsPair [] h = tt
parse_parts-IsPair (p ∷ ps) h =
    if_case (All IsPair) (is_nil p) (parse_parts ps) (parse_pair p ∷ parse_parts ps)
      (parse_parts-IsPair ps h.1) (parse_pair-IsPair p h.0, parse_parts-IsPair ps h.1)

pub parse_qsl-IsPair : (s : Codes) → All IsScalar s → All IsPair (parse_qsl s)
unfolding parse_qsl
parse_qsl-IsPair s h =
    parse_parts-IsPair ((split_first b'&' s).0 ∷ (split_first b'&' s).1)
      (split_first-IsScalar b'&' s h)
