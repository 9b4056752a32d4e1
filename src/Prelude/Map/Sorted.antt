-- ===== src/Prelude/Map/Sorted.antt =====
-- The keys of a map rise, so an entry is what a look-up finds.
use Prim.Native.Nat.{ℕ, ◌<◌}
use mathlib.Core.Path.{◌≡◌}
use mathlib.Core.List.{[], ◌∷◌}
use native.Mathlib.Omega.{arith}
use ai_solo_coder_task_b.Prelude.Map.{Map, find, find_or, insert}

module _ {ℓ} {V : Type ℓ} where
  abbrev pub Above : ℕ → Map V → Type 0
  Above k [] = Unit
  Above k ((j, v) ∷ m) = (k < j) × Above k m

  abbrev pub IsSorted : Map V → Type 0
  IsSorted [] = Unit
  IsSorted ((k, v) ∷ m) = Above k m × IsSorted m

  insert-Above : (k i : ℕ) (v : V) (m : Map V) → k < i → Above k m → Above k (insert i v m)
  unfolding insert
  insert-Above k i v [] h a = (h, tt)
  insert-Above k i v ((j, w) ∷ m) h a = ground (arith, insert-Above k i v m h)

  Above-trans : (k i : ℕ) (m : Map V) → k < i → Above i m → Above k m
  Above-trans k i [] h a = tt
  Above-trans k i ((j, v) ∷ m) h a = (omega arith, Above-trans k i m h a.1)

  pub insert-IsSorted : (k : ℕ) (v : V) (m : Map V) → IsSorted m → IsSorted (insert k v m)
  unfolding insert
  insert-IsSorted k v [] s = (tt, tt)
  insert-IsSorted k v ((j, w) ∷ m) s =
      ground (arith, insert-IsSorted k v m s.1, insert-Above j k v m, Above-trans k j m)

  -- Every entry of a part of a map is what the map holds under its key.
  abbrev pub Entries : Map V → Map V → V → Type ℓ
  Entries whole [] d = Unit
  Entries whole ((k, v) ∷ m) d = (find_or k whole d ≡ v) × Entries whole m d

  Entries-cons :
      (k : ℕ) (v d : V) (whole m : Map V)
      → Above k m
      → Entries whole m d
      → Entries ((k, v) ∷ whole) m d
  unfolding find_or find
  Entries-cons k v d whole [] a e = tt
  Entries-cons k v d whole ((j, w) ∷ m) a e = (ground arith, Entries-cons k v d whole m a.1 e.1)

  pub IsSorted-Entries : (d : V) (m : Map V) → IsSorted m → Entries m m d
  unfolding find_or find
  IsSorted-Entries d [] s = tt
  IsSorted-Entries d ((k, v) ∷ m) s =
      (ground arith, Entries-cons k v d m m s.0 (IsSorted-Entries d m s.1))
