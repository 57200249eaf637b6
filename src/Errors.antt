-- ===== src/Errors.antt =====
-- cycletls/exceptions.py, and the exceptions of Python that the modules raise.
use cycletls_python.Base.{
  String, Bool, Option, none, some, if◌then◌else◌, ◌≡◌, refl, ◌↔◌, ◌⊎◌, inl, inr, true, false,
}

-- The classes of cycletls/exceptions.py, the two that cycletls/websocket.py and cycletls/sse.py
-- declare for themselves under the names WebSocketError and SSEError, then those of Python and
-- asyncio.
pub data Class : Type 0 where
  cycletls_error request_exception : Class
  http_error connection_error timeout too_many_redirects : Class
  invalid_url tls_error proxy_error invalid_header : Class
  websocket_error sse_error : Class
  websocket_module_error sse_module_error : Class
  exception key_error value_error attribute_error runtime_error asyncio_timeout os_error
        overflow_error type_error :
      Class

-- `class C(P)`: the base class that the program names for `C`.
unfoldable pub base : Class → Option Class
base cycletls_error = some exception
base request_exception = some cycletls_error
base http_error = some request_exception
base connection_error = some request_exception
base timeout = some request_exception
base too_many_redirects = some request_exception
base invalid_url = some request_exception
base tls_error = some request_exception
base proxy_error = some request_exception
base invalid_header = some request_exception
base websocket_error = some cycletls_error
base sse_error = some cycletls_error
base websocket_module_error = some cycletls_error
base sse_module_error = some cycletls_error
base exception = none
base key_error = some exception
base value_error = some exception
base attribute_error = some exception
base runtime_error = some exception
base asyncio_timeout = some exception
base os_error = some exception
base overflow_error = some exception
base type_error = some exception

-- `ConnectTimeout = Timeout` and `ReadTimeout = Timeout`.
abbrev pub connect_timeout : Class
connect_timeout = timeout

abbrev pub read_timeout : Class
read_timeout = timeout

-- An exception: its class and its message.
pub record Error : Type 0 where
  pub class : Class
  pub message : String

abbrev pub error : Class → String → Error
error c m = record { class = c; message = m }

pub data Result {ℓ} (A : Type ℓ) : Type ℓ where
  ok : A → Result A
  err : Error → Result A

-- if test: raise e
abbrev pub raise_if : Bool → Error → Result (Unit {0})
raise_if test e = if test then err e else ok tt

infixl 5 ◌>>=◌
abbrev pub ◌>>=◌ {ℓ κ} : {A : Type ℓ} {B : Type κ} → Result A → (A → Result B) → Result B
r >>= next = elim r [ ok a ↦ next a | err e ↦ err e ]

infixl 5 ◌>>◌
abbrev pub ◌>>◌ {ℓ} : {B : Type ℓ} → Result (Unit {0}) → Result B → Result B
r >> next = elim r [ ok a ↦ next | err e ↦ err e ]

-- issubclass(C, D)
pub data IsSubclass : Class → Class → Type 0 where
  self : {c : Class} → IsSubclass c c
  step : {c d e : Class} → base c ≡ some d → IsSubclass d e → IsSubclass c e

-- What is raised, if anything is, satisfies `P`.
abbrev pub Raises {ℓ κ} : {A : Type ℓ} → (Error → Type κ) → Result A → Type κ
Raises P (ok a) = Unit
Raises P (err e) = P e

-- An exception is raised.
abbrev pub IsErr {ℓ} : {A : Type ℓ} → Result A → Type ℓ
IsErr r = (e : Error) × (r ≡ err e)

-- A block that returned went through its first action.
pub bind-ok {ℓ κ} :
    {A : Type ℓ} {B : Type κ} (r : Result A) (next : A → Result B) {b : B}
    → (r >>= next) ≡ ok b
    → (a : A) × (r ≡ ok a) × (next a ≡ ok b)
bind-ok (ok a) next h = (a, refl, h)
bind-ok (err e) next h = cc

pub then-ok {ℓ} :
    {B : Type ℓ} (r : Result (Unit {0})) (next : Result B) {b : B}
    → (r >> next) ≡ ok b
    → (r ≡ ok tt) × (next ≡ ok b)
then-ok (ok a) next h = (refl, h)
then-ok (err e) next h = cc

pub raise_if-ok : (test : Bool) (e : Error) → (raise_if test e ≡ ok tt) ↔ (test ≡ false)
raise_if-ok true e = (λ p. cc, λ p. cc)
raise_if-ok false e = (λ p. refl, λ p. refl)

pub ok_inj {ℓ} : {A : Type ℓ} {a b : A} → ◌≡◌ {A = Result A} (ok a) (ok b) → a ≡ b
ok_inj h = cc

pub not_both {ℓ} : {A : Type ℓ} (r : Result A) {a : A} → r ≡ ok a → IsErr r → ⊥
not_both (ok x) p q = cc
not_both (err x) p q = cc

pub Result-cases {ℓ} :
    {A : Type ℓ} (r : Result A) → ((a : A) × (r ≡ ok a)) ⊎ ((e : Error) × (r ≡ err e))
Result-cases (ok a) = inl (a, refl)
Result-cases (err e) = inr (e, refl)
