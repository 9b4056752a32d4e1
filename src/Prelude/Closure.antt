-- ===== src/Prelude/Closure.antt =====
-- What can be reached by the steps of a relation.
module _ {ℓ κ} {S : Type ℓ} (Step : S → S → Type κ) where
  pub data Closure (s : S) : S → Type (ℓ ⊔ κ) where
    here : Closure s s
    next : {t u : S} → Closure s t → Step t u → Closure s u

module _ {ℓ κ μ} {S : Type ℓ} {Step : S → S → Type κ} (P : S → Type μ) where
  -- What every step keeps holds wherever the steps lead.
  pub Closure-keeps : ((t u : S) → Step t u → P t → P u) → {s t : S} → P s → Closure Step s t → P t
  Closure-keeps keep p here = p
  Closure-keeps keep p (next {t = t} {u = u} r st) = keep t u st (Closure-keeps keep p r)
