-- ===== src/Request/Laws.antt =====
-- What `Request.to_dict` of cycletls/schema.py sends: the time limit in whole seconds, and each
-- option under its key.
use cycletls_python.Base.{
  ℕ, zero, suc, ◌+◌, ◌-◌, ◌*◌, ◌/◌, ◌%◌, ◌^◌, ◌≤◌, ◌<◌, max, pos, negsuc, String, Bool, false, List,
  [], ◌∷◌, Option, none, some, ◌≡◌, refl, sym, ap, ◌∙◌, ◌==◌, ◌||◌, eq_iff, arith, any, All,
  if◌then◌else◌, ltb,
}
use native.Mathlib.Omega.{div_any}
use native.Mathlib.Nat.{mod-lt}
use cycletls_python.Dict.{Dict, lookup}
use cycletls_python.Dict.Laws.{lookup-set, lookup-set_self}
use cycletls_python.Errors.{ok, ◌>>=◌, ok_inj}
use cycletls_python.Text.{Casing}
use cycletls_python.Values.{dyadic, Value}
use cycletls_python.Request.Cookie.{put}
use cycletls_python.Request.{
  Request, int, float, ceil_dyadic, timeout_int, required_fields, optional_fields, put_all, to_dict,
}

zero-lt-pow : (k : ℕ) → 0 < 2 ^ k
zero-lt-pow zero = omega arith
zero-lt-pow (suc k) = ground (arith, zero-lt-pow k)

-- `q` is the least number with `m ≤ q * p`.
abbrev pub IsCeiling : ℕ → ℕ → ℕ → Type 0
IsCeiling m p q = (m ≤ q * p) × ((q - 1) * p < m)

quotient-IsCeiling :
    (m p q r : ℕ) → 0 < m → 0 < p → q * p + r ≡ m + (p - 1) → r < p → IsCeiling m p q
quotient-IsCeiling m p zero r h i e l = (omega arith, omega arith)
quotient-IsCeiling m p (suc q) r h i e l = (omega arith, grind arith)

at_least_one : (m p q : ℕ) → 0 < m → IsCeiling m p q → (1 ≤ max 1 q) × IsCeiling m p (max 1 q)
at_least_one m p zero h c = absurd (omega (arith, c.0))
at_least_one m p (suc q) h c = rw one_max (omega arith, c)
  where
    one_max : max 1 (suc q) ≡ suc q
    one_max = omega arith

div-IsCeiling : (m p : ℕ) → 0 < m → 0 < p → IsCeiling m p ((m + (p - 1)) / p)
div-IsCeiling m p h i =
    quotient-IsCeiling m p ((m + (p - 1)) / p) ((m + (p - 1)) % p) h i
      (grind (arith, div_any (m + (p - 1)) p)) (mod-lt _ i)

ceil_dyadic_lem : (m k : ℕ) → 0 < m → (1 ≤ ceil_dyadic m k) × IsCeiling m (2 ^ k) (ceil_dyadic m k)
unfolding ceil_dyadic
ceil_dyadic_lem m k h = at_least_one m (2 ^ k) _ h (div-IsCeiling m (2 ^ k) h (zero-lt-pow k))

-- A positive time limit in seconds is sent as the least whole number that is not below it, and
-- that is at least 1; a whole number is sent as it is; a limit that is not positive is sent as 0.
pub timeout_int_lem :
    (m k n : ℕ)
    → 0 < m
    → (timeout_int (float (dyadic (pos m) k)) ≡ ok (ceil_dyadic m k))
      × (1 ≤ ceil_dyadic m k)
      × (m ≤ ceil_dyadic m k * 2 ^ k)
      × ((ceil_dyadic m k - 1) * 2 ^ k < m)
      × (timeout_int (int (pos n)) ≡ ok n)
      × (timeout_int (float (dyadic (pos 0) k)) ≡ ok 0)
      × (timeout_int (float (dyadic (negsuc n) k)) ≡ ok 0)
      × (timeout_int (int (negsuc n)) ≡ ok 0)
unfolding timeout_int
timeout_int_lem m k n h =
    let (least, bounds) = ceil_dyadic_lem m k h in
    (ground arith, least, bounds.0, bounds.1, whole n, refl, refl, refl)
  where
    whole : (n : ℕ) → (if ltb 0 n then ok (max 1 n) else ok 0) ≡ ok n
    whole zero = refl
    whole (suc n) = ground arith

pub neither : (a b : Bool) → (a || b) ≡ false → (a ≡ false) × (b ≡ false)
neither a b h = ground arith

swap : (k j : String) → (j == k) ≡ false → (k == j) ≡ false
swap k j h = ground (arith, eq_iff k j, eq_iff j k)

module _ {ℓ} {V : Type ℓ} where
  -- A key among the options.
  abbrev pub is_key : String → List (String × Option V) → Bool
  is_key k = any (λ e. e.0 == k)

  -- No option's key stands twice.
  abbrev pub IsDistinct : List (String × Option V) → Type 0
  IsDistinct [] = Unit
  IsDistinct ((k, v) ∷ ps) = (is_key k ps ≡ false) × IsDistinct ps

  pub lookup-put :
      (k j : String) (v : Option V) (d : Dict V)
      → (k == j) ≡ false
      → lookup j (put k v d) ≡ lookup j d
  unfolding put
  lookup-put k j none d h = refl
  lookup-put k j (some v) d h = rw (lookup-set k j v d, h) refl

  pub lookup-put_self :
      (k : String) (v : Option V) (d : Dict V) → lookup k d ≡ none → lookup k (put k v d) ≡ v
  unfolding put
  lookup-put_self k none d h = h
  lookup-put_self k (some v) d h = lookup-set_self k v d

  pub lookup-put_all :
      (j : String) (ps : List (String × Option V)) (d : Dict V)
      → is_key j ps ≡ false
      → lookup j (put_all ps d) ≡ lookup j d
  unfolding put_all
  lookup-put_all j [] d h = refl
  lookup-put_all j ((k, v) ∷ ps) d h =
      let (a, b) = neither (k == j) (is_key j ps) h in
      lookup-put_all j ps (put k v d) b ∙ lookup-put k j v d a

  unfoldable pub Absent : List (String × Option V) → Dict V → Type ℓ
  Absent ps d = All (λ e. lookup e.0 d ≡ none) ps

  put-Absent :
      (k : String) (v : Option V) (ps : List (String × Option V)) (d : Dict V)
      → is_key k ps ≡ false
      → Absent ps d
      → Absent ps (put k v d)
  unfolding Absent
  put-Absent k v [] d h a = tt
  put-Absent k v ((j, w) ∷ ps) d h a =
      let (p, q) = neither (j == k) (is_key k ps) h in
      (lookup-put k j v d (swap k j p) ∙ a.0, put-Absent k v ps d q a.1)

  pub put_all_found :
      (ps : List (String × Option V)) (d : Dict V)
      → IsDistinct ps
      → Absent ps d
      → All (λ e. lookup e.0 (put_all ps d) ≡ e.1) ps
  unfolding put_all Absent
  put_all_found [] d u a = tt
  put_all_found ((k, v) ∷ ps) d u a = (
    lookup-put_all k ps (put k v d) u.0 ∙ lookup-put_self k v d a.0,
    put_all_found ps (put k v d) u.1 (put-Absent k v ps d u.0 a.1),
  )

optional_fields-IsDistinct : ⦃c : Casing⦄ (r : Request) → IsDistinct (optional_fields r)
unfolding optional_fields
optional_fields-IsDistinct r = search depth 20

optional_fields-Absent :
    ⦃c : Casing⦄ (r : Request) (t : ℕ) → Absent (optional_fields r) (required_fields r t)
unfolding optional_fields required_fields Absent lookup
optional_fields-Absent r t = search depth 20

-- The dictionary of a request has each optional key with its field's value when the field is not
-- None and lacks it otherwise; every other key is as among the fixed ones.
pub to_dict_lem :
    ⦃c : Casing⦄ (r : Request) (t : ℕ) (d : Dict Value)
    → timeout_int r.timeout ≡ ok t
    → to_dict r ≡ ok d
    → All (λ e. lookup e.0 d ≡ e.1) (optional_fields r)
      × ((j : String)
          → is_key j (optional_fields r) ≡ false
          → lookup j d ≡ lookup j (required_fields r t))
unfolding to_dict
to_dict_lem r t d ht hd =
    transport_dict (put_all (optional_fields r) (required_fields r t)) d
      (ok_inj
        (sym (ap (λ x. x >>= λ t. ok (put_all (optional_fields r) (required_fields r t))) ht) ∙ hd))
      (put_all_found (optional_fields r) (required_fields r t) (optional_fields-IsDistinct r)
        (optional_fields-Absent r t))
      (λ j h. lookup-put_all j (optional_fields r) (required_fields r t) h)
  where
    transport_dict :
        (e d : Dict Value)
        → e ≡ d
        → All (λ e'. lookup e'.0 e ≡ e'.1) (optional_fields r)
        → ((j : String)
            → is_key j (optional_fields r) ≡ false
            → lookup j e ≡ lookup j (required_fields r t))
        → All (λ e'. lookup e'.0 d ≡ e'.1) (optional_fields r)
          × ((j : String)
              → is_key j (optional_fields r) ≡ false
              → lookup j d ≡ lookup j (required_fields r t))
    transport_dict e d p x y = rw (sym p) (x, y)
