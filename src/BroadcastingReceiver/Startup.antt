-- ===== src/BroadcastingReceiver/Startup.antt =====
-- The start of the broadcast thread: it tests `running_`, which is set only after it was made.
use ai_solo_coder_task_b.Prelude.{ℕ, ◌≡◌, refl, ◌∙◌, true, []}
use ai_solo_coder_task_b.Prelude.Closure.{here, next, Closure-keeps}
use ai_solo_coder_task_b.MessageQueue.{pushed}
use ai_solo_coder_task_b.BroadcastingReceiver.{
  ended, up, BroadcastingReceiver, Step, arrive, spawn, set_running, go_on, leave, take, give_up,
  push_ballistic, push_accuracy, push_alarm, use_ballistic, use_accuracy, use_alarm, halt, Reach,
  begin,
}
use ai_solo_coder_task_b.BroadcastingReceiver.Transit.{pushed-Consumes}

module _ {A : Type 0} where
  -- The receiver after a `start` that answered true, whose thread tested `running_` before it was set.
  abbrev pub started_deaf : ℕ → BroadcastingReceiver A
  started_deaf capacity = record (begin capacity) { running = true; thread = ended; main = up }

  begin-deaf : (capacity : ℕ) → Reach (begin capacity) (started_deaf capacity)
  begin-deaf capacity =
      next (next (next here (spawn refl refl)) (leave refl refl)) (set_running refl)

  record IsDeaf (s : BroadcastingReceiver A) : Type 0 where
    pub left : s.thread ≡ ended
    pub no_ballistic : pushed s.ballistic ≡ []
    pub no_accuracy : pushed s.accuracy ≡ []
    pub no_alarm : pushed s.alarm ≡ []

  Step-IsDeaf : (s t : BroadcastingReceiver A) → Step s t → IsDeaf s → IsDeaf t
  Step-IsDeaf s t (arrive x) v = record {
    left = v.left;
    no_ballistic = v.no_ballistic;
    no_accuracy = v.no_accuracy;
    no_alarm = v.no_alarm;
  }
  Step-IsDeaf s t (spawn b e) v = cc
  Step-IsDeaf s t (set_running b) v = record {
    left = v.left;
    no_ballistic = v.no_ballistic;
    no_accuracy = v.no_accuracy;
    no_alarm = v.no_alarm;
  }
  Step-IsDeaf s t (go_on e r) v = cc
  Step-IsDeaf s t (leave e r) v = cc
  Step-IsDeaf s t (take o x rest e w) v = cc
  Step-IsDeaf s t (give_up o rest e w) v = cc
  Step-IsDeaf s t (push_ballistic x e) v = cc
  Step-IsDeaf s t (push_accuracy x e) v = cc
  Step-IsDeaf s t (push_alarm x e) v = cc
  Step-IsDeaf s t (use_ballistic op c) v = record {
    left = v.left;
    no_ballistic = pushed-Consumes s.ballistic c ∙ v.no_ballistic;
    no_accuracy = v.no_accuracy;
    no_alarm = v.no_alarm;
  }
  Step-IsDeaf s t (use_accuracy op c) v = record {
    left = v.left;
    no_ballistic = v.no_ballistic;
    no_accuracy = pushed-Consumes s.accuracy c ∙ v.no_accuracy;
    no_alarm = v.no_alarm;
  }
  Step-IsDeaf s t (use_alarm op c) v = record {
    left = v.left;
    no_ballistic = v.no_ballistic;
    no_accuracy = v.no_accuracy;
    no_alarm = pushed-Consumes s.alarm c ∙ v.no_alarm;
  }
  Step-IsDeaf s t (halt b) v = record {
    left = v.left;
    no_ballistic = v.no_ballistic;
    no_accuracy = v.no_accuracy;
    no_alarm = v.no_alarm;
  }

  started_deaf-IsDeaf : (capacity : ℕ) → IsDeaf (started_deaf capacity)
  started_deaf-IsDeaf capacity = record {
    left = refl;
    no_ballistic = refl;
    no_accuracy = refl;
    no_alarm = refl;
  }

  -- The start can lose the whole service: the thread may test `running_` before `start` sets it, and
  -- then, although `start` went through and the receiver runs, nothing is ever pushed to a queue.
  pub Reach-deaf :
      (capacity : ℕ) {t : BroadcastingReceiver A}
      → Reach (started_deaf capacity) t
      → Reach (begin capacity) (started_deaf capacity)
        × (pushed t.ballistic ≡ [])
        × (pushed t.accuracy ≡ [])
        × (pushed t.alarm ≡ [])
  Reach-deaf capacity r =
      let v = Closure-keeps IsDeaf Step-IsDeaf (started_deaf-IsDeaf capacity) r in
      (begin-deaf capacity, v.no_ballistic, v.no_accuracy, v.no_alarm)
