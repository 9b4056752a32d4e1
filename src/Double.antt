-- ===== src/Double.antt =====
-- What the code does with a `double`: decimal literals, arithmetic, comparisons, conversions, and the
-- functions of <cmath> and `std::to_string`. The type and its operations are a parameter of the
-- model; a theorem that needs a law of them names it as a hypothesis.
pub mod Fixed
use Prim.Native.String.{String}
use ai_solo_coder_task_b.Prelude.{ℕ, ◌≡◌, ◌↔◌, Bool, true, false, if◌then◌else◌}
use ai_solo_coder_task_b.Prelude.Int.{ℤ, pos}

pub record Double {ℓ} (W : Type ℓ) : Type ℓ where
  -- `lit n k` is the literal n / 10 ^ k: `lit 981 2` is 9.81.
  pub lit : ℕ → ℕ → W
  pub neg : W → W
  pub add : W → W → W
  pub sub : W → W → W
  pub mul : W → W → W
  pub div : W → W → W
  pub lt : W → W → Bool
  pub le : W → W → Bool
  -- The conversions from and to a signed integer; to one, towards zero.
  pub of_int : ℤ → W
  pub trunc : W → ℤ
  pub sqrt : W → W
  pub exp : W → W
  pub log : W → W
  pub tanh : W → W
  pub erfc : W → W
  pub ceil : W → W
  pub cos : W → W
  pub sin : W → W
  pub atan2 : W → W → W
  pub pow : W → W → W
  pub abs : W → W
  pub to_string : W → String

module _ {ℓ} {W : Type ℓ} ⦃d : Double W⦄ where
  open d use {lt}

  infixl 60 ◌⊕◌
  infixl 60 ◌⊖◌
  infixl 70 ◌⊗◌
  infixl 70 ◌⊘◌
  -- The arithmetic of the code, as written: `a + b`, `a - b`, `a * b` and `a / b`.
  abbrev pub ◌⊕◌ : W → W → W
  a ⊕ b = d.add a b

  abbrev pub ◌⊖◌ : W → W → W
  a ⊖ b = d.sub a b

  abbrev pub ◌⊗◌ : W → W → W
  a ⊗ b = d.mul a b

  abbrev pub ◌⊘◌ : W → W → W
  a ⊘ b = d.div a b

  -- The conversion of an unsigned number.
  abbrev pub of_size : ℕ → W
  of_size n = d.of_int (pos n)

  -- `M_PI`, and `to_radians` and `to_degrees` of common.h.
  abbrev pub pi : W
  pi = d.lit 314159265358979323846 20

  abbrev pub to_radians : W → W
  to_radians degrees = degrees ⊗ pi ⊘ d.lit 180 0

  abbrev pub to_degrees : W → W
  to_degrees radians = radians ⊗ d.lit 180 0 ⊘ pi

  -- `a > b`.
  abbrev pub gt : W → W → Bool
  gt a b = lt b a

  -- `std::max(a, b)` and `std::min(a, b)`.
  abbrev pub max : W → W → W
  max a b = if lt a b then b else a

  abbrev pub min : W → W → W
  min a b = if lt b a then b else a

  -- `std::clamp(v, lo, hi)`.
  abbrev pub clamp : W → W → W → W
  clamp v lo hi = if lt v lo then lo else if lt hi v then hi else v

  -- A value that is not NaN.
  abbrev pub IsNumber : W → Type 0
  IsNumber x = d.le x x ≡ true

-- The comparisons of IEEE 754 away from NaN: `<` and `<=` are each other's negations, with the sides
-- exchanged, `<` entails `<=`, and `<=` is transitive; a literal is a number.
pub record IsOrdered {ℓ} (W : Type ℓ) ⦃d : Double W⦄ : Type ℓ where
  pub lit_number : (n k : ℕ) → IsNumber (d.lit n k)
  pub neg_number : (x : W) → IsNumber x → IsNumber (d.neg x)
  pub not_lt : (x y : W) → IsNumber x → IsNumber y → (d.lt x y ≡ false) ↔ (d.le y x ≡ true)
  pub not_le : (x y : W) → IsNumber x → IsNumber y → (d.le x y ≡ false) ↔ (d.lt y x ≡ true)
  pub lt_le : (x y : W) → d.lt x y ≡ true → d.le x y ≡ true
  pub le_trans : (x y z : W) → d.le x y ≡ true → d.le y z ≡ true → d.le x z ≡ true
