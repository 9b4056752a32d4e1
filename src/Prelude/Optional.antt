-- ===== src/Prelude/Optional.antt =====
-- `do` over values that may be missing: code that throws, where the handler does not look at the
-- exception.
use mathlib.Core.Option.{Option, none, some}

infixl 5 ◌>>=◌
abbrev pub ◌>>=◌ {ℓ κ} : {A : Type ℓ} {B : Type κ} → Option A → (A → Option B) → Option B
none >>= f = none
some a >>= f = f a
