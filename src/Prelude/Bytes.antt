-- ===== src/Prelude/Bytes.antt =====
-- Texts as their bytes, and what the code finds in them.
use Prim.Native.Char.{code}
use Prim.Native.String.{String}
use Prim.Native.Nat.{ℕ, ◌+◌, ◌/◌, ◌%◌}
use mathlib.Core.Path.{◌≡◌, refl}
use mathlib.Core.Bool.{not, Bool, true, false, ◌&&◌}
use mathlib.Core.Option.{Option, none, some}
use mathlib.Core.List.{List, [], ◌∷◌, ◌++◌}
use native.Mathlib.Omega.{arith}
use ai_solo_coder_task_b.Prelude.Compare.{ltb, ◌==◌, if◌then◌else◌}
use ai_solo_coder_task_b.Prelude.Lists.{All}

abbrev pub Bytes : Type 0
Bytes = List ℕ

-- The UTF-8 of a character and of a text.
abbrev utf8_char : ℕ → Bytes
utf8_char c =
    if ltb c 128
    then c ∷ []
    else if ltb c 2048
    then (192 + c / 64) ∷ (128 + c % 64) ∷ []
    else if ltb c 65536
    then (224 + c / 4096) ∷ (128 + c / 64 % 64) ∷ (128 + c % 64) ∷ []
    else (240 + c / 262144) ∷ (128 + c / 4096 % 64) ∷ (128 + c / 64 % 64) ∷ (128 + c % 64) ∷ []

abbrev pub utf8 : String → Bytes
utf8 String.[] = []
utf8 (String.◌∷◌ c s) = utf8_char (code c) ++ utf8 s

-- `==` on texts.
infix 50 ◌=ᵇ◌
abbrev pub ◌=ᵇ◌ : Bytes → Bytes → Bool
[] =ᵇ [] = true
[] =ᵇ (c ∷ t) = false
(b ∷ s) =ᵇ [] = false
(b ∷ s) =ᵇ (c ∷ t) = b == c && s =ᵇ t

-- `find` of a byte, with the `substr` before it and the one behind it.
unfoldable pub split_at : ℕ → Bytes → Option (Bytes × Bytes)
split_at c [] = none
split_at c (b ∷ s) =
    if b == c
    then some ([], s)
    else elim (split_at c s) [ none ↦ none | some (before, after) ↦ some (b ∷ before, after) ]

-- The byte does not stand in the text.
abbrev pub Free : ℕ → Bytes → Type 0
Free c s = All (λ b. (b == c) ≡ false) s

abbrev pub is_free : ℕ → Bytes → Bool
is_free c [] = true
is_free c (b ∷ s) = not (b == c) && is_free c s

pub is_free-Free : (c : ℕ) (s : Bytes) → is_free c s ≡ true → Free c s
is_free-Free c [] h = tt
is_free-Free c (b ∷ s) h = (ground arith, is_free-Free c s (ground arith))

pub split_at-found : (c : ℕ) (s t : Bytes) → Free c s → split_at c (s ++ (c ∷ t)) ≡ some (s, t)
unfolding split_at
split_at-found c [] t h = ground arith
split_at-found c (b ∷ s) t h = rw (h.0) (rw (split_at-found c s t h.1) refl)

pub split_at-none : (c : ℕ) (s : Bytes) → Free c s → split_at c s ≡ none
unfolding split_at
split_at-none c [] h = refl
split_at-none c (b ∷ s) h = rw (h.0) (rw (split_at-none c s h.1) refl)

pub append-Free : (c : ℕ) (s t : Bytes) → Free c s → Free c t → Free c (s ++ t)
append-Free c [] t p q = q
append-Free c (b ∷ s) t p q = (p.0, append-Free c s t p.1 q)

pub =ᵇ-refl : (s : Bytes) → (s =ᵇ s) ≡ true
=ᵇ-refl [] = refl
=ᵇ-refl (b ∷ s) = ground (arith, =ᵇ-refl s)

pub =ᵇ-eq : (s t : Bytes) → (s =ᵇ t) ≡ true → s ≡ t
=ᵇ-eq [] [] h = refl
=ᵇ-eq [] (c ∷ t) h = cc
=ᵇ-eq (b ∷ s) [] h = cc
=ᵇ-eq (b ∷ s) (c ∷ t) h = ground (arith, =ᵇ-eq s t)

bow_string : utf8 "弓a" ≡ 229 ∷ 188 ∷ 147 ∷ 97 ∷ []
bow_string = refl
