-- ===== src/Base/Result.antt =====
-- Python's exceptions as values.
use swarmbus.Base.{◌≡◌, refl, ap, Bool, true, false}

-- The exceptions that the program raises or lets through, by class.
pub data Error : Type 0 where
  value_error attribute_error key_error type_error runtime_error integrity_error message_conflict
        mqtt_error store_error ack_error cancelled config_error :
      Error

pub data Result {ℓ} (A : Type ℓ) : Type ℓ where
  ok : A → Result A
  err : Error → Result A

infixl 5 ◌>>=◌ ◌>>◌
abbrev pub ◌>>=◌ {κ ℓ} : {B : Type κ} {A : Type ℓ} → Result B → (B → Result A) → Result A
err raised >>= next = err raised
ok value >>= next = next value

abbrev pub ◌>>◌ {ℓ} : {A : Type ℓ} → Result (Unit {0}) → Result A → Result A
first >> second = first >>= λ done. second

-- `if bad: raise e`
abbrev pub raise_if : Bool → Error → Result (Unit {0})
raise_if true e = err e
raise_if false e = ok tt

-- Take a successful bind apart.
pub bind_cases {ℓ κ μ} :
    {A : Type ℓ} {B : Type κ} {P : Type μ} (m : Result A) (f : A → Result B) {b : B}
    → (m >>= f) ≡ ok b
    → ((a : A) → m ≡ ok a → f a ≡ ok b → P)
    → P
bind_cases (ok a) f h k = k a refl h
bind_cases (err e) f h k = cc

pub raise_if-eq-ok {ℓ} :
    {B : Type ℓ} (b : Bool) (e : Error) (k : Result B) {x : B}
    → (raise_if b e >> k) ≡ ok x
    → (b ≡ false) × (k ≡ ok x)
raise_if-eq-ok true e k h = cc
raise_if-eq-ok false e k h = (refl, h)

pub ok-injective {ℓ} : {A : Type ℓ} {x y : A} → ok x ≡ ok y → x ≡ y
ok-injective {A} {x} {y} h = ap payload h
  where
    payload : Result A → A
    payload (ok a) = a
    payload (err e) = x
