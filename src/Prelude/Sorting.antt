-- ===== src/Prelude/Sorting.antt =====
-- `std::sort` as the library does it on short sequences, by insertion: elements of which neither is before the
-- other keep their order, which the standard leaves open.
use Prim.Native.Nat.{suc, ◌+◌}
use mathlib.Core.Path.{◌≡◌, ap, refl}
use mathlib.Core.Bool.{Bool, true, false}
use mathlib.Core.List.{List, [], ◌∷◌, ◌++◌, append-nil}
use mathlib.Core.List.Perm
use mathlib.Core.List.{Perm, perm_middle}
use native.Mathlib.Omega.{arith}
use mathlib.Core.Logic.{inl, inr}
use ai_solo_coder_task_b.Prelude.Lists.{length}
use ai_solo_coder_task_b.Prelude.Compare.{if◌then◌else◌, Bool-cases}

module _ {A : Type 0} (before : A → A → Bool) where
  -- The element goes in front of the first one that it is before.
  unfoldable pub place : A → List A → List A
  place x [] = x ∷ []
  place x (y ∷ ys) = let rest = place x ys in if before x y then x ∷ y ∷ ys else y ∷ rest

  unfoldable pub sort_onto : List A → List A → List A
  sort_onto sorted [] = sorted
  sort_onto sorted (x ∷ xs) = sort_onto (place x sorted) xs

  abbrev pub sort : List A → List A
  sort xs = sort_onto [] xs

  -- No element is before the one in front of it.
  abbrev pub Follows : A → List A → Type 0
  Follows x [] = Unit
  Follows x (y ∷ ys) = before y x ≡ false

  abbrev pub InOrder : List A → Type 0
  InOrder [] = Unit
  InOrder (x ∷ xs) = Follows x xs × InOrder xs

  abbrev pub IsAsymmetric : Type 0
  IsAsymmetric = (x y : A) → before x y ≡ true → before y x ≡ false

  place-Follows :
      (y x : A) (ys : List A) → before x y ≡ false → Follows y ys → Follows y (place x ys)
  unfolding place
  place-Follows y x [] e h = e
  place-Follows y x (z ∷ zs) e h = elim (Bool-cases (before x z)) [
    | inl t ↦ rw t e
    | inr f ↦ rw f h
  ]

  place-InOrder : IsAsymmetric → (x : A) (ys : List A) → InOrder ys → InOrder (place x ys)
  unfolding place
  place-InOrder asym x [] h = (tt, tt)
  place-InOrder asym x (y ∷ ys) h = elim (Bool-cases (before x y)) [
    | inl t ↦ rw t (asym x y t, h)
    | inr f ↦ rw f (place-Follows y x ys f h.0, place-InOrder asym x ys h.1)
  ]

  sort_onto-InOrder :
      IsAsymmetric → (sorted xs : List A) → InOrder sorted → InOrder (sort_onto sorted xs)
  unfolding sort_onto
  sort_onto-InOrder asym sorted [] h = h
  sort_onto-InOrder asym sorted (x ∷ xs) h =
      sort_onto-InOrder asym (place x sorted) xs (place-InOrder asym x sorted h)

  pub sort-InOrder : IsAsymmetric → (xs : List A) → InOrder (sort xs)
  sort-InOrder asym xs = sort_onto-InOrder asym [] xs tt

  place-Perm : (x : A) (ys : List A) → Perm (place x ys) (x ∷ ys)
  unfolding place
  place-Perm x [] = Perm.refl (x ∷ [])
  place-Perm x (y ∷ ys) = elim (Bool-cases (before x y)) [
    | inl t ↦ rw t (Perm.refl (x ∷ y ∷ ys))
    | inr f ↦ rw f (Perm.trans (Perm.cons y (place-Perm x ys)) (Perm.swap x y ys))
  ]

  sort_onto-Perm : (sorted xs : List A) → Perm (sort_onto sorted xs) (sorted ++ xs)
  unfolding sort_onto
  sort_onto-Perm sorted [] = rw (append-nil sorted) (Perm.refl sorted)
  sort_onto-Perm sorted (x ∷ xs) =
      Perm.trans (sort_onto-Perm (place x sorted) xs) (
        Perm.trans (Perm.append_right xs (place-Perm x sorted)) (Perm.symm (perm_middle sorted xs)))

  pub sort-Perm : (xs : List A) → Perm (sort xs) xs
  sort-Perm xs = sort_onto-Perm [] xs

  length-place : (x : A) (ys : List A) → length (place x ys) ≡ suc (length ys)
  unfolding place
  length-place x [] = refl
  length-place x (y ∷ ys) = elim (Bool-cases (before x y)) [
    | inl t ↦ rw t refl
    | inr f ↦ rw f (ap suc (length-place x ys))
  ]

  length-sort_onto : (sorted xs : List A) → length (sort_onto sorted xs) ≡ length sorted + length xs
  unfolding sort_onto
  length-sort_onto sorted [] = omega arith
  length-sort_onto sorted (x ∷ xs) =
      omega (arith, length-sort_onto (place x sorted) xs, length-place x sorted)

  pub length-sort : (xs : List A) → length (sort xs) ≡ length xs
  length-sort xs = omega (arith, length-sort_onto [] xs)
