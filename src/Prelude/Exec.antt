-- ===== src/Prelude/Exec.antt =====
-- Code that changes a state and may raise: what was written before a raise stays written.
use mathlib.Core.Path.{◌≡◌, refl}
use magent.Prelude.Strings.{Text}

-- The exceptions that the program raises or tells apart.
pub data Kind : Type 0 where
  permission_error value_error key_error timeout_error type_error runtime_error redis_error
        http_error other_error :
      Kind

pub record Exception : Type 0 where
  pub kind : Kind
  pub message : Text

pub data Result {ℓ} (A : Type ℓ) : Type ℓ where
  return : A → Result A
  raise : Exception → Result A

abbrev pub Exec {ℓ κ} : Type ℓ → Type κ → Type (ℓ ⊔ κ)
Exec S A = S → Result A × S

abbrev pub pure {ℓ κ} : {S : Type ℓ} {A : Type κ} → A → Exec S A
pure a s = (return a, s)

abbrev pub throw {ℓ κ} : {S : Type ℓ} {A : Type κ} → Exception → Exec S A
throw e s = (raise e, s)

abbrev pub continue {ℓ κ μ} :
    {S : Type ℓ} {A : Type κ} {B : Type μ} → Result A → (A → Exec S B) → Exec S B
continue (return a) f s = f a s
continue (raise e) f s = (raise e, s)

infixl 10 ◌>>=◌ ◌>>◌
abbrev pub ◌>>=◌ {ℓ κ μ} :
    {S : Type ℓ} {A : Type κ} {B : Type μ} → Exec S A → (A → Exec S B) → Exec S B
◌>>=◌ m f s = let (r, s') = m s in continue r f s'

abbrev pub ◌>>◌ {ℓ κ μ} : {S : Type ℓ} {A : Type κ} {B : Type μ} → Exec S A → Exec S B → Exec S B
m >> n = m >>= λ _. n

-- A property of the state that the rest of a block keeps, whatever the first part returned.
pub continue-keeps {ℓ κ μ ν} :
    {S : Type ℓ} {A : Type κ} {B : Type μ} (P : S → Type ν) (r : Result A) (f : A → Exec S B)
    (s : S)
    → ((a : A) (t : S) → P t → P (f a t).1)
    → P s
    → P (continue r f s).1
continue-keeps P (return a) f s keep h = keep a s h
continue-keeps P (raise e) f s keep h = h

-- Inversion of a block that returned.
pub continue-eq-return {ℓ κ μ} :
    {S : Type ℓ} {A : Type κ} {B : Type μ} (out : Result A × S) (f : A → Exec S B) {b : B} {t : S}
    → continue out.0 f out.1 ≡ (return b, t)
    → (a : A) × (out ≡ (return a, out.1)) × (f a out.1 ≡ (return b, t))
continue-eq-return (return a, s) f h = (a, refl, h)
continue-eq-return (raise e, s) f h = cc
