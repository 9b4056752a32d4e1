-- ===== src/AccuracyAnalyzerService/Steps.antt =====
-- Every move of the threads keeps the service consistent with the samples that came in.

use ai_solo_coder_task_b.Prelude.{
  ltb, ◌-◌, if◌then◌else◌, drop, drop-nil, ℕ, ◌≡◌, sym, ap, subst, ◌∙◌, Option, none, some, List,
  [], ◌∷◌, ◌++◌, arith, length, keep_last, All, drop_excess, drop_start,
}
use ai_solo_coder_task_b.Prelude.Map.{find, find_or, insert}
use ai_solo_coder_task_b.Prelude.Map.Sorted.{insert-IsSorted, IsSorted-Entries}
use ai_solo_coder_task_b.Prelude.Closure.{Closure-keeps}
use ai_solo_coder_task_b.Double.{Double}
use ai_solo_coder_task_b.Sensor.{SensorData}
use ai_solo_coder_task_b.Sensor.History.{window, Windows, insert-Windows}
use ai_solo_coder_task_b.AccuracyAnalyzerService.{
  trim_data, collect, touch_data, touch_name, publish, stop, get_crossbow_data,
}
use ai_solo_coder_task_b.AccuracyAnalyzerService.System.{
  analysing, System, Step, receive, wake, copy, store, sleep, halt, call, answer, Reach,
}
use ai_solo_coder_task_b.AccuracyAnalyzerService.Past.{
  All-map, IsPast, IsPast-append, IsReady, ready_ids-IsReady, touch-Windows, IsOnTrack,
  IsConsistent, now_past, publish-analyses, IsAnalysis-append, IsOnTrack-append,
}

All-remove :
    {A : Type 0} (P : A → Type 0) (xs : List A) (y : A) (zs : List A)
    → All P (xs ++ (y ∷ zs))
    → P y × All P (xs ++ zs)
All-remove P [] y zs a = a
All-remove P (x ∷ xs) y zs a = let (p, rest) = All-remove P xs y zs a.1 in (p, (a.0, rest))

module _ {W : Type 0} ⦃d : Double W⦄ where
  collect-IsConsistent :
      (x : SensorData W) (s : System W)
      → IsConsistent s
      → IsConsistent (record s { service = collect x s.service; history = s.history ++ (x ∷ []) })
  unfolding collect trim_data
  collect-IsConsistent x s c = record {
    sorted = insert-IsSorted x.crossbow_id _ s.service.crossbow_data c.sorted;
    windows =
        subst
          (λ l.
            Windows 5000 (s.history ++ (x ∷ [])) (insert x.crossbow_id l s.service.crossbow_data))
          (sym (drop_excess 5000 (find_or x.crossbow_id s.service.crossbow_data [] ++ (x ∷ []))))
          (insert-Windows 5000 s.history s.service.crossbow_data x c.windows);
    on_track = IsOnTrack-append s.history x s.periodic c.on_track;
    calls = All-map (IsPast-append s.history x) s.calls c.calls;
    analyses = λ id a f. IsAnalysis-append s.history x id a (c.analyses id a f);
  }

  Step-IsConsistent : {s t : System W} → Step s t → IsConsistent s → IsConsistent t
  unfolding touch_data touch_name publish stop
  Step-IsConsistent {s = s} (receive x) c = collect-IsConsistent x s c
  Step-IsConsistent {s = s} (wake e r) c = record {
    sorted = c.sorted;
    windows = c.windows;
    on_track =
        ready_ids-IsReady s.history s.service.crossbow_data s.service.crossbow_data c.windows
          (IsSorted-Entries [] s.service.crossbow_data c.sorted);
    calls = c.calls;
    analyses = c.analyses;
  }
  Step-IsConsistent {s = s} (copy id ids e) c =
      let ready : All (IsReady s.history) (id ∷ ids) = subst (IsOnTrack s.history) e c.on_track in
      record {
        sorted = insert-IsSorted id _ s.service.crossbow_data c.sorted;
        windows = touch-Windows s.history id s.service.crossbow_data c.windows;
        on_track = (
          now_past s.history id (find_or id s.service.crossbow_names "") s.service c.windows,
          omega (arith, ready.0, ap (λ l. length l) (c.windows id)),
          ready.1,
        );
        calls = c.calls;
        analyses = c.analyses;
      }
  Step-IsConsistent {s = s} (store now t ids e) c =
      let (past, many, ready) : IsOnTrack s.history (analysing t ids) =
        subst (IsOnTrack s.history) e c.on_track in
      record {
        sorted = c.sorted;
        windows = c.windows;
        on_track = ready;
        calls = c.calls;
        analyses = publish-analyses s.history now t s.service.latest_analyses past c.analyses;
      }
  Step-IsConsistent (sleep e) c = record {
    sorted = c.sorted;
    windows = c.windows;
    on_track = tt;
    calls = c.calls;
    analyses = c.analyses;
  }
  Step-IsConsistent halt c = record {
    sorted = c.sorted;
    windows = c.windows;
    on_track = c.on_track;
    calls = c.calls;
    analyses = c.analyses;
  }
  Step-IsConsistent {s = s} (call id name) c = record {
    sorted = insert-IsSorted id _ s.service.crossbow_data c.sorted;
    windows = touch-Windows s.history id s.service.crossbow_data c.windows;
    on_track = c.on_track;
    calls = (now_past s.history id name s.service c.windows, c.calls);
    analyses = c.analyses;
  }
  Step-IsConsistent {s = s} (answer now before t after e) c =
      let (past, rest) =
        All-remove (IsPast s.history) before t after (subst (All (IsPast s.history)) e c.calls) in
      record {
        sorted = c.sorted;
        windows = c.windows;
        on_track = c.on_track;
        calls = rest;
        analyses = publish-analyses s.history now t s.service.latest_analyses past c.analyses;
      }

  -- From a consistent state, whatever the order of the threads' moves: the map holds the newest 5000
  -- samples of each crossbow, the periodic analysis only works on copies with 10 samples or more, and
  -- every analysis stored is that of a window which its crossbow had at some moment.
  pub Reach-IsConsistent : {s t : System W} → IsConsistent s → Reach s t → IsConsistent t
  Reach-IsConsistent c r = Closure-keeps IsConsistent (λ t u st. Step-IsConsistent st) c r

  -- A client is given the newest samples of its crossbow, as many as it asks for, of the newest 5000
  -- that came in, whatever the threads did.
  pub get_crossbow_data-Reach :
      {s t : System W} (id n : ℕ)
      → IsConsistent s
      → Reach s t
      → get_crossbow_data id n t.service ≡ keep_last n (window 5000 id t.history)
  unfolding get_crossbow_data find_or
  get_crossbow_data-Reach {t = t} id n c r =
      given (find id t.service.crossbow_data)
      ∙ ap (λ l. keep_last n l) ((Reach-IsConsistent c r).windows id)
    where
      given :
          (o : Option (List (SensorData W)))
          → elim o [
            | none ↦ []
            | some xs ↦ drop (if ltb n (length xs) then length xs - n else 0) xs
          ]
            ≡ keep_last n (elim o [ none ↦ [] | some xs ↦ xs ])
      given none = sym (drop-nil (0 - n))
      given (some xs) = drop_start n xs
