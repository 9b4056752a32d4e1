-- ===== src/Prelude/Window.antt =====
-- The last `n` elements of a list: what a bounded buffer keeps of its history.
use Prim.Native.Nat.{ℕ, zero, suc, ◌-◌, ◌≤◌, min}
use mathlib.Core.Path.{◌≡◌, refl, sym, ap, ◌∙◌}
use mathlib.Core.List.{List, [], ◌∷◌, ◌++◌}
use native.Mathlib.Omega.{arith}
use mathlib.Core.Logic.{inl, inr}
use ai_solo_coder_task_b.Prelude.Compare.{ltb, if◌then◌else◌, Bool-cases}
use ai_solo_coder_task_b.Prelude.Lists.{
  length, drop, length-append, length-drop, drop-append, drop-drop, drop_congr, All, All-drop,
}

module _ {ℓ} {A : Type ℓ} where
  abbrev pub keep_last : ℕ → List A → List A
  keep_last n xs = drop (length xs - n) xs

  pub length-keep_last : (n : ℕ) (xs : List A) → length (keep_last n xs) ≡ min n (length xs)
  length-keep_last n xs = omega (arith, length-drop (length xs - n) xs)

  pub keep_last_all : (n : ℕ) (xs : List A) → length xs ≤ n → keep_last n xs ≡ xs
  keep_last_all n xs h = drop_congr {n = 0} xs (omega arith)

  drop_past : (n : ℕ) (xs : List A) → length xs ≤ n → drop n xs ≡ []
  drop_past zero [] h = refl
  drop_past zero (x ∷ xs) h = elim h [ ]
  drop_past (suc n) [] h = refl
  drop_past (suc n) (x ∷ xs) h = drop_past n xs (omega arith)

  -- Trimming before an append is lost in the trimming after it.
  pub keep_last-append :
      (n : ℕ) (xs ys : List A) → keep_last n (keep_last n xs ++ ys) ≡ keep_last n (xs ++ ys)
  keep_last-append n xs ys =
      let k = length xs - n in
      ap (λ zs. drop (length (drop k xs ++ ys) - n) zs) (sym (drop-append k xs ys (omega arith)))
      ∙ drop-drop (length (drop k xs ++ ys) - n) k (xs ++ ys)
      ∙ drop_congr (xs ++ ys)
          (omega (arith, length-append (drop k xs) ys, length-append xs ys, length-drop k xs))

  pub All-keep_last {κ} : (P : A → Type κ) (n : ℕ) (xs : List A) → All P xs → All P (keep_last n xs)
  All-keep_last P n xs p = All-drop P (length xs - n) xs p

  -- The two ways in which the code trims: by the elements in excess, or by a start index.
  pub drop_excess :
      (n : ℕ) (xs : List A)
      → (if ltb n (length xs) then drop (length xs - n) xs else xs) ≡ keep_last n xs
  drop_excess n xs = elim (Bool-cases (ltb n (length xs))) [
    | inl over ↦ rw over
    | inr under ↦ rw under (sym (keep_last_all n xs (ground arith)))
  ]

  pub drop_start :
      (n : ℕ) (xs : List A)
      → drop (if ltb n (length xs) then length xs - n else 0) xs ≡ keep_last n xs
  drop_start n xs = drop_congr xs (ground arith)
