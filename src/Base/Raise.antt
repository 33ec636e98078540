-- ===== src/Base/Raise.antt =====
-- Python code that may raise: the exceptions are told apart by their class, their text is not kept.

use mathlib.Core.Path.{◌≡◌, refl, ap}

pub data Exception : Type 0 where
  value_error type_error key_error attribute_error overflow_error unicode_error json_error os_error
        db_error :
      Exception

pub data Exc {ℓ} (A : Type ℓ) : Type ℓ where
  ok : A → Exc A
  raise : Exception → Exc A

infixl 5 ◌>>=◌
abbrev pub ◌>>=◌ {ℓ κ} : {A : Type ℓ} {B : Type κ} → Exc A → (A → Exc B) → Exc B
ok a >>= f = f a
raise e >>= f = raise e

-- Whatever is returned meets `P`; an exception is no return.
abbrev pub Returns {ℓ} : {A : Type ℓ} → (A → Type 0) → Exc A → Type 0
Returns P (ok a) = P a
Returns P (raise e) = Unit

-- A bind returns what its second part returns.
pub Returns-bind {ℓ κ} :
    {A : Type ℓ} {B : Type κ} (P : B → Type 0) (m : Exc A) (f : A → Exc B)
    → ((a : A) → m ≡ ok a → Returns P (f a))
    → Returns P (m >>= f)
Returns-bind P (ok a) f h = h a refl
Returns-bind P (raise e) f h = tt

pub Returns-mono {ℓ} :
    {A : Type ℓ} (P Q : A → Type 0) (m : Exc A) → ((a : A) → P a → Q a) → Returns P m → Returns Q m
Returns-mono P Q (ok a) f h = f a h
Returns-mono P Q (raise e) f h = tt

returned_or {ℓ} : {A : Type ℓ} → A → Exc A → A
returned_or a (ok b) = b
returned_or a (raise e) = a

pub ok_injective {ℓ} : {A : Type ℓ} {a b : A} → ok a ≡ ok b → a ≡ b
unfolding returned_or
ok_injective {a} e = ap (returned_or a) e
