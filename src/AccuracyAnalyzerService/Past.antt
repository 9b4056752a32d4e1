-- ===== src/AccuracyAnalyzerService/Past.antt =====
-- Whatever the threads do, every analysis is of a window that its crossbow had.
use Prim.Native.String.{String}
use ai_solo_coder_task_b.Prelude.{
  append-nil, leb, leb→le, ℕ, ◌≤◌, ◌≡◌, refl, sym, ap, ◌∙◌, Bool, true, false, Bool-cases, inl, inr,
  some, List, [], ◌∷◌, ◌++◌, arith, ◌==◌, ==_iff, if◌then◌else◌, length, length-append,
  length-keep_last, All, append_assoc,
}
use ai_solo_coder_task_b.Prelude.Map.{Map, find, find_or, insert, find-insert, find_or-insert}
use ai_solo_coder_task_b.Prelude.Map.Sorted.{IsSorted, Entries}
use ai_solo_coder_task_b.Double.{Double}
use ai_solo_coder_task_b.Sensor.{SensorData, AccuracyAnalysis}
use ai_solo_coder_task_b.Sensor.History.{of_crossbow, of_crossbow-append, window, Windows}
use ai_solo_coder_task_b.AccuracyAnalyzer.{analyze}
use ai_solo_coder_task_b.AccuracyAnalyzerService.{AccuracyAnalyzerService, ready_ids}
use ai_solo_coder_task_b.AccuracyAnalyzerService.System.{
  Task, Periodic, asleep, todo, analysing, System, copy_of,
}

pub All-map :
    {A : Type 0} {P Q : A → Type 0} → ((x : A) → P x → Q x) → (xs : List A) → All P xs → All Q xs
All-map f [] a = tt
All-map f (x ∷ xs) a = (f x a.0, All-map f xs a.1)

module _ {W : Type 0} where
  -- The shots of a task are the window of its crossbow after a first part of the history.
  abbrev pub IsPast : List (SensorData W) → Task W → Type 0
  IsPast history t =
      (before : List (SensorData W)) × (after : List (SensorData W)) × (history ≡ before ++ after)
      × (t.shots ≡ window 5000 t.id before)

  pub IsPast-append :
      (history : List (SensorData W)) (x : SensorData W) (t : Task W)
      → IsPast history t
      → IsPast (history ++ (x ∷ [])) t
  IsPast-append history x t (before, after, e, w) =
      (before, after ++ (x ∷ []), ap (λ h. h ++ (x ∷ [])) e ∙ append_assoc before after (x ∷ []), w)

  -- A crossbow with enough samples for the periodic analysis.
  abbrev pub IsReady : List (SensorData W) → ℕ → Type 0
  IsReady history id = 10 ≤ length (window 5000 id history)

  IsReady-append :
      (history : List (SensorData W)) (x : SensorData W) (id : ℕ)
      → IsReady history id
      → IsReady (history ++ (x ∷ [])) id
  IsReady-append history x id h = omega (
    arith,
    length-keep_last 5000 (of_crossbow id history),
    length-keep_last 5000 (of_crossbow id (history ++ (x ∷ []))),
    ap (λ l. length l) (of_crossbow-append id history (x ∷ [])),
    length-append (of_crossbow id history) (of_crossbow id (x ∷ [])),
  )

  pub ready_ids-IsReady :
      (history : List (SensorData W)) (whole m : Map (List (SensorData W)))
      → Windows 5000 history whole
      → Entries whole m []
      → All (IsReady history) (ready_ids m)
  unfolding ready_ids
  ready_ids-IsReady history whole [] w e = tt
  ready_ids-IsReady history whole ((id, shots) ∷ m) w e =
      let rest = ready_ids-IsReady history whole m w e.1 in
      let same = ap (λ l. length l) (sym e.0 ∙ w id) in
      elim (Bool-cases (leb 10 (length shots))) [
        | inl many ↦ rw many (omega (arith, leb→le _ _ many), rest)
        | inr few ↦ rw few rest
      ]

  pub touch-Windows :
      (history : List (SensorData W)) (k : ℕ) (m : Map (List (SensorData W)))
      → Windows 5000 history m
      → Windows 5000 history (insert k (find_or k m []) m)
  touch-Windows history k m w id = find_or-insert k id _ [] m ∙ touched (k == id) refl
    where
      touched :
          (same : Bool)
          → (k == id) ≡ same
          → (if same then find_or k m [] else find_or id m []) ≡ window 5000 id history
      touched true e = ap (λ j. find_or j m []) ((==_iff k id).0 e) ∙ w id
      touched false e = w id

module _ {W : Type 0} ⦃d : Double W⦄ where
  -- An analysis of a crossbow, at some time, of a window that the crossbow had.
  abbrev pub IsAnalysis : List (SensorData W) → ℕ → AccuracyAnalysis W → Type 0
  IsAnalysis history id a =
      (t : Task W) × (now : ℕ) × (t.id ≡ id)
      × IsPast history t
      × (a ≡ analyze t.id t.name now t.shots)

  -- The periodic thread only works on crossbows that have 10 samples or more.
  abbrev pub IsOnTrack : List (SensorData W) → Periodic W → Type 0
  IsOnTrack history asleep = Unit
  IsOnTrack history (todo ids) = All (IsReady history) ids
  IsOnTrack history (analysing t ids) =
      IsPast history t × (10 ≤ length t.shots) × All (IsReady history) ids

  pub record IsConsistent (s : System W) : Type 0 where
    pub sorted : IsSorted s.service.crossbow_data
    pub windows : Windows 5000 s.history s.service.crossbow_data
    pub on_track : IsOnTrack s.history s.periodic
    pub calls : All (IsPast s.history) s.calls
    pub analyses :
        (id : ℕ) (a : AccuracyAnalysis W)
        → find id s.service.latest_analyses ≡ some a
        → IsAnalysis s.history id a

  pub now_past :
      (history : List (SensorData W)) (id : ℕ) (name : String) (s : AccuracyAnalyzerService W)
      → Windows 5000 history s.crossbow_data
      → IsPast history (copy_of id name s)
  now_past history id name s w = (history, [], sym (append-nil history), w id)

  pub publish-analyses :
      (history : List (SensorData W)) (now : ℕ) (t : Task W) (m : Map (AccuracyAnalysis W))
      → IsPast history t
      → ((id : ℕ) (a : AccuracyAnalysis W) → find id m ≡ some a → IsAnalysis history id a)
      → (id : ℕ) (a : AccuracyAnalysis W)
      → find id (insert t.id (analyze t.id t.name now t.shots) m) ≡ some a
      → IsAnalysis history id a
  publish-analyses history now t m past old id a found =
      stored (t.id == id) refl (sym (find-insert t.id id _ m) ∙ found)
    where
      stored :
          (same : Bool)
          → (t.id == id) ≡ same
          → (if same then some (analyze t.id t.name now t.shots) else find id m) ≡ some a
          → IsAnalysis history id a
      stored true e f = (t, now, (==_iff t.id id).0 e, past, cc)
      stored false e f = old id a f

  pub IsAnalysis-append :
      (history : List (SensorData W)) (x : SensorData W) (id : ℕ) (a : AccuracyAnalysis W)
      → IsAnalysis history id a
      → IsAnalysis (history ++ (x ∷ [])) id a
  IsAnalysis-append history x id a (t, now, e, p, r) = (t, now, e, IsPast-append history x t p, r)

  pub IsOnTrack-append :
      (history : List (SensorData W)) (x : SensorData W) (p : Periodic W)
      → IsOnTrack history p
      → IsOnTrack (history ++ (x ∷ [])) p
  IsOnTrack-append history x asleep h = tt
  IsOnTrack-append history x (todo ids) h = All-map (IsReady-append history x) ids h
  IsOnTrack-append history x (analysing t ids) (p, n, r) =
      (IsPast-append history x t p, n, All-map (IsReady-append history x) ids r)
