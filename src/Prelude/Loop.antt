-- ===== src/Prelude/Loop.antt =====
-- Counting loops and the decimal digits of a number.
pub mod Fill
use Prim.Native.Nat.{ℕ, zero, suc, ◌+◌, ◌/◌, ◌%◌, ◌≤◌, min, max}
use Prim.Native.String.{String, slice, ◌++◌}
use mathlib.Core.Path.{◌≡◌, refl, sym, ap, ◌∙◌}
use mathlib.Core.Logic.{inl, inr}
use mathlib.Core.Bool.{Bool, true, false}
use mathlib.Core.List.{List}
use native.Mathlib.Omega.{arith}
use ai_solo_coder_task_b.Prelude.Compare.{ltb, if◌then◌else◌, Bool-cases}
use ai_solo_coder_task_b.Prelude.Lists.{length}

-- `for (k = i; k < i + n; ++k) s = body(k, s)`.
unfoldable pub for_range {ℓ} : {S : Type ℓ} → (ℕ → S → S) → ℕ → ℕ → S → S
for_range body zero i s = s
for_range body (suc n) i s = for_range body n (i + 1) (body i s)

-- The same with a second test, `k < i + n && go(s)`.
unfoldable pub for_while {ℓ} : {S : Type ℓ} → (S → Bool) → (ℕ → S → S) → ℕ → ℕ → S → S
for_while go body zero i s = s
for_while go body (suc n) i s = elim (go s) [
  | true ↦ for_while go body n (i + 1) (body i s)
  | false ↦ s
]

module _ {ℓ} {S : Type ℓ} (go : S → Bool) (body : ℕ → S → S) where
  pub for_while-goes :
      (n i : ℕ) (s : S)
      → go s ≡ true
      → for_while go body (suc n) i s ≡ for_while go body n (i + 1) (body i s)
  unfolding for_while
  for_while-goes n i s e =
      ap (λ b. elim b as (λ _. S) [ true ↦ for_while go body n (i + 1) (body i s) | false ↦ s ]) e

  pub for_while-stops : (n i : ℕ) (s : S) → go s ≡ false → for_while go body (suc n) i s ≡ s
  unfolding for_while
  for_while-stops n i s e =
      ap (λ b. elim b as (λ _. S) [ true ↦ for_while go body n (i + 1) (body i s) | false ↦ s ]) e

module _ {ℓ κ} {S : Type ℓ} (P : S → Type κ) where
  pub for_range-keeps :
      (body : ℕ → S → S)
      → ((k : ℕ) (s : S) → P s → P (body k s))
      → (n i : ℕ) (s : S) → P s
      → P (for_range body n i s)
  unfolding for_range
  for_range-keeps body keep zero i s p = p
  for_range-keeps body keep (suc n) i s p =
      for_range-keeps body keep n (i + 1) (body i s) (keep i s p)

  pub for_while-keeps :
      (go : S → Bool) (body : ℕ → S → S)
      → ((k : ℕ) (s : S) → P s → P (body k s))
      → (n i : ℕ) (s : S) → P s
      → P (for_while go body n i s)
  unfolding for_while
  for_while-keeps go body keep zero i s p = p
  for_while-keeps go body keep (suc n) i s p = elim (Bool-cases (go s)) [
    | inl goes ↦
        rw (for_while-goes go body n i s goes)
          (for_while-keeps go body keep n (i + 1) (body i s) (keep i s p))
    | inr stops ↦ rw (for_while-stops go body n i s stops) p
  ]

module _ {ℓ} {A : Type ℓ} (body : ℕ → List A → List A) where
  -- A loop whose body adds one element adds as many as it has rounds.
  pub length-for_range :
      ((k : ℕ) (s : List A) → length (body k s) ≡ suc (length s))
      → (n i : ℕ) (s : List A) → length (for_range body n i s) ≡ length s + n
  unfolding for_range
  length-for_range grow zero i s = omega arith
  length-for_range grow (suc n) i s =
      omega (arith, length-for_range grow n (i + 1) (body i s), grow i s)

  -- With the test that there are fewer than `limit`, it stops there.
  pub length-for_while :
      (limit : ℕ)
      → ((k : ℕ) (s : List A) → length (body k s) ≡ suc (length s))
      → (n i : ℕ) (s : List A) → length s ≤ limit
      → length (for_while (λ s'. ltb (length s') limit) body n i s) ≡ min limit (length s + n)
  unfolding for_while
  length-for_while limit grow zero i s h = omega arith
  length-for_while limit grow (suc n) i s h = elim (Bool-cases (ltb (length s) limit)) [
    | inl below ↦ rw (for_while-goes _ body n i s below) (
        ground (
          arith,
          length-for_while limit grow n (i + 1) (body i s) (ground (arith, grow i s)),
          grow i s,
        ))
    | inr full ↦ rw (for_while-stops (λ s'. ltb (length s') limit) body n i s full) (ground arith)
  ]

abbrev digit : ℕ → String
digit n = slice "0123456789" (n % 10) (n % 10 + 1)

-- The last digit and those before it, of which a number has fewer than its value.
unfoldable pub digits : ℕ → ℕ → String
digits zero n = digit n
digits (suc fuel) n = elim (ltb n 10) [ true ↦ digit n | false ↦ digits fuel (n / 10) ++ digit n ]

-- `std::to_string` of an integer that is not negative.
unfoldable pub decimal : ℕ → String
unfolding digits
decimal n = digits n n

-- More fuel than the number makes no difference.
pub digits_enough : (fuel n : ℕ) → n ≤ fuel → digits (suc fuel) n ≡ digits fuel n
unfolding digits
digits_enough zero n h =
    ap (λ b. elim b as (λ _. String) [ true ↦ digit n | false ↦ digit (n / 10) ++ digit n ])
      (small n h)
  where
    small : (n : ℕ) → n ≤ 0 → ltb n 10 ≡ true
    small n h = ground arith
digits_enough (suc fuel) n h =
    digits_further (λ below. digits_enough fuel (n / 10) below) (ltb n 10) refl
  where
    digits_further :
        (n / 10 ≤ fuel → digits (suc fuel) (n / 10) ≡ digits fuel (n / 10))
        → (b : Bool) → ltb n 10 ≡ b
        → elim b as (λ _. String) [ true ↦ digit n | false ↦ digits (suc fuel) (n / 10) ++ digit n ]
          ≡ elim b as (λ _. String) [ true ↦ digit n | false ↦ digits fuel (n / 10) ++ digit n ]
    digits_further less true e = refl
    digits_further less false e = ap (λ s. s ++ digit n) (less (ground arith))

forty_two : decimal 42 ≡ "42"
unfolding decimal
forty_two = refl
