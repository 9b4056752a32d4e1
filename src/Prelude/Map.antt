-- ===== src/Prelude/Map.antt =====
-- `std::map` with unsigned keys: an association list in the order of the keys.
pub mod Sorted
use Prim.Native.Nat.{ℕ}
use mathlib.Core.Path.{◌≡◌, refl}
use mathlib.Core.Bool.{false}
use mathlib.Core.Option.{Option, none, some}
use mathlib.Core.List.{List, [], ◌∷◌}
use native.Mathlib.Omega.{arith}
use ai_solo_coder_task_b.Prelude.Compare.{ltb, ◌==◌, if◌then◌else◌}

abbrev pub Map {ℓ} : Type ℓ → Type ℓ
Map V = List (ℕ × V)

module _ {ℓ} {V : Type ℓ} where
  unfoldable pub find : ℕ → Map V → Option V
  find k [] = none
  find k ((j, v) ∷ m) = if j == k then some v else find k m

  -- `m[k]` as a value: a missing key reads as the default.
  unfoldable pub find_or : ℕ → Map V → V → V
  find_or k m d = elim (find k m) [ none ↦ d | some v ↦ v ]

  -- `m[k] = v`.
  unfoldable pub insert : ℕ → V → Map V → Map V
  insert k v [] = (k, v) ∷ []
  insert k v ((j, w) ∷ m) =
      if j == k then (k, v) ∷ m else if ltb k j then (k, v) ∷ (j, w) ∷ m else (j, w) ∷ insert k v m

  pub find-insert :
      (k j : ℕ) (v : V) (m : Map V) → find j (insert k v m) ≡ (if k == j then some v else find j m)
  unfolding find insert
  find-insert k j v [] = refl
  find-insert k j v ((i, w) ∷ m) = ground (arith, find-insert k j v m)

  pub find_or-insert :
      (k j : ℕ) (v d : V) (m : Map V)
      → find_or j (insert k v m) d ≡ (if k == j then v else find_or j m d)
  unfolding find_or
  find_or-insert k j v d m = ground (arith, find-insert k j v m)

  pub find_or-insert_self : (k : ℕ) (v d : V) (m : Map V) → find_or k (insert k v m) d ≡ v
  find_or-insert_self k v d m = rw (find_or-insert k k v d m) (ground arith)

  pub find_or-insert_ne :
      (k j : ℕ) (v d : V) (m : Map V)
      → (k == j) ≡ false
      → find_or j (insert k v m) d ≡ find_or j m d
  find_or-insert_ne k j v d m e = rw (find_or-insert k j v d m, e)

  -- Every value of the map satisfies `P`.
  abbrev pub AllValues {κ} : (V → Type κ) → Map V → Type κ
  AllValues P [] = Unit
  AllValues P ((k, v) ∷ m) = P v × AllValues P m

  pub insert-AllValues {κ} :
      (P : V → Type κ) (k : ℕ) (v : V) (m : Map V)
      → P v
      → AllValues P m
      → AllValues P (insert k v m)
  unfolding insert
  insert-AllValues P k v [] p all = (p, tt)
  insert-AllValues P k v ((j, w) ∷ m) p all = ground (arith, insert-AllValues P k v m p all.1)

  pub find_or-AllValues {κ} :
      (P : V → Type κ) (k : ℕ) (m : Map V) (d : V) → P d → AllValues P m → P (find_or k m d)
  unfolding find_or find
  find_or-AllValues P k [] d p all = p
  find_or-AllValues P k ((j, v) ∷ m) d p all = ground (arith, find_or-AllValues P k m d p all.1)
