-- ===== src/Base/Outcome.antt =====
-- Results of code that throws, with the exceptions that the program tells apart.
use mathlib.Core.Option.{Option, none, some}

-- `invalid_argument` is a `logic_error`; `bad_optional_access` is what `value()` throws. All are
-- `std::exception`s, and `catch (std::runtime_error&)` takes `runtime_error` alone.
pub data Exception : Type 0 where
  runtime_error logic_error invalid_argument bad_optional_access interprocess_exception : Exception

pub data Result {ℓ} (A : Type ℓ) : Type ℓ where
  ok : A → Result A
  throw : Exception → Result A

infixl 5 ◌>>=◌ ◌>>◌
abbrev pub ◌>>=◌ {ℓ κ} : {A : Type ℓ} {B : Type κ} → Result A → (A → Result B) → Result B
ok a >>= f = f a
throw e >>= f = throw e

abbrev pub ◌>>◌ {ℓ} : {B : Type ℓ} → Result (Unit {0}) → Result B → Result B
m >> k = m >>= λ _. k

-- The value of an option, or the one given for a missing value.
abbrev pub value_or {ℓ} : {A : Type ℓ} → A → Option A → A
value_or a none = a
value_or a (some b) = b
