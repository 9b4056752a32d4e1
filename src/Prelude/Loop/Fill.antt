-- ===== src/Prelude/Loop/Fill.antt =====
-- Loops that add rows to a list until it is full.
use ai_solo_coder_task_b.Prelude.{
  ℕ, zero, suc, ◌+◌, ◌-◌, ◌*◌, ◌/◌, ◌≤◌, ◌<◌, min, ◌≡◌, subst, List, arith, ltb, length, inl, inr,
  Bool-cases,
}
use ai_solo_coder_task_b.Prelude.Loop.{for_range, for_while, for_while-goes, for_while-stops}
use native.Mathlib.Omega.{div_any}
use native.Mathlib.Nat.{mod-lt}

module _ {ℓ} {A : Type ℓ} (body : ℕ → List A → List A) (n c : ℕ) where
  -- Rows of `c` at least, that stop at `n`: after `k` of them there are `c * k`, or `n`.
  pub for_while-fills :
      ((i : ℕ) (s : List A)
        → length s ≤ n
        → (length (body i s) ≤ n) × (min n (length s + c) ≤ length (body i s)))
      → (k i : ℕ) (s : List A) → length s ≤ n
      → (length (for_while (λ s'. ltb (length s') n) body k i s) ≤ n)
        × (min n (length s + k * c) ≤ length (for_while (λ s'. ltb (length s') n) body k i s))
  unfolding for_while
  for_while-fills row zero i s h = (h, omega arith)
  for_while-fills row (suc k) i s h = elim (Bool-cases (ltb (length s) n)) [
    | inl below ↦ rw (for_while-goes _ body k i s below) (
        let step = row i s h in
        let (most, least) = for_while-fills row k (i + 1) (body i s) step.0 in (most, omega arith))
    | inr full ↦ rw (for_while-stops (λ s'. ltb (length s') n) body k i s full) (h, ground arith)
  ]

module _ {ℓ} {A : Type ℓ} (body : ℕ → List A → List A) (n c : ℕ) where
  -- Rows of `c`, or of as many as `n` leaves beside the rows before.
  pub for_range-fills :
      ((i : ℕ) (s : List A) → length (body i s) ≡ length s + min c (n - i * c))
      → (k i : ℕ) (s : List A) → length s ≡ min n (i * c)
      → length (for_range body k i s) ≡ min n ((i + k) * c)
  unfolding for_range
  for_range-fills row zero i s h = subst (λ j. length s ≡ min n (j * c)) (omega arith) h
  for_range-fills row (suc k) i s h =
      subst (λ j. length (for_range body k (i + 1) (body i s)) ≡ min n (j * c)) (omega arith)
        (for_range-fills row k (i + 1) (body i s) omega (arith, row i s))

-- As many columns as divide `n`, rounded up, have room for it.
pub rounded_up : (n rows : ℕ) → 0 < rows → n ≤ rows * ((n + rows - 1) / rows)
rounded_up n rows h = omega (arith, div_any (n + rows - 1) rows, mod-lt (n + rows - 1) h)
