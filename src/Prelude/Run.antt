-- ===== src/Prelude/Run.antt =====
-- How a call ends: it returns a value, or it panics.
use mathlib.Core.Path.{◌≡◌, refl}
use mathlib.Core.Option.{Option, none, some}

pub data Run {ℓ} (A : Type ℓ) : Type ℓ where
  panic : Run A
  ok : A → Run A

infixl 5 ◌>>=◌
abbrev pub ◌>>=◌ {κ ℓ} : {B : Type κ} {A : Type ℓ} → Run B → (B → Run A) → Run A
panic >>= next = panic
ok x >>= next = next x

-- A chain that returns has a first call that returned, and its value leads to the result.
pub >>=-returns {κ ℓ} :
    {B : Type κ} {A : Type ℓ} (first : Run B) (next : B → Run A) {result : A}
    → (first >>= next) ≡ ok result
    → (x : B) × (first ≡ ok x) × (next x ≡ ok result)
>>=-returns panic next e = cc
>>=-returns (ok x) next e = (x, refl, e)

-- The value of a call that may fail, where a failure panics.
abbrev pub or_panic {ℓ} : {A : Type ℓ} → Option A → Run A
or_panic none = panic
or_panic (some x) = ok x

pub or_panic-ok {ℓ} : {A : Type ℓ} (o : Option A) {x : A} → or_panic o ≡ ok x → o ≡ some x
or_panic-ok none e = cc
or_panic-ok (some y) e = cc
