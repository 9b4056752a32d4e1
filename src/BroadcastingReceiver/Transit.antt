-- ===== src/BroadcastingReceiver/Transit.antt =====
-- No sample is invented, repeated or put out of order on its way from the receiver to a consumer.
use mathlib.Core.List.{Sublistᴰ}
use ai_solo_coder_task_b.Prelude.{
  ℕ, ◌≡◌, refl, sym, ap, subst, ◌∙◌, Bool, Option, none, some, List, [], ◌∷◌, ◌++◌, append_assoc,
  append-nil,
}
use ai_solo_coder_task_b.Prelude.Closure.{Closure-keeps}
use ai_solo_coder_task_b.MessageQueue.{
  handed, settle, MessageQueue, Op, pushes, push, pushed, run, returned, wait_pop,
}
use ai_solo_coder_task_b.MessageQueue
use ai_solo_coder_task_b.MessageQueue.Order.{push-sublist, wait_pop-split}
use ai_solo_coder_task_b.BroadcastingReceiver.{
  Thread, unborn, testing, waiting, to_ballistic, to_accuracy, to_alarm, ended,
  BroadcastingReceiver, Consumes, Step, arrive, spawn, set_running, go_on, leave, take, give_up,
  push_ballistic, push_accuracy, push_alarm, use_ballistic, use_accuracy, use_alarm, halt, Reach,
  begin,
}

module _ {A : Type 0} where
  pushed-append :
      (ops : List (Op A)) (op : Op A) → pushed (ops ++ (op ∷ [])) ≡ pushed ops ++ pushed (op ∷ [])
  pushed-append [] op = refl
  pushed-append (pushes x ∷ ops) op = ap (λ l. x ∷ l) (pushed-append ops op)
  pushed-append (Op.tries ∷ ops) op = pushed-append ops op
  pushed-append (Op.waits t ∷ ops) op = pushed-append ops op
  pushed-append (Op.stops ∷ ops) op = pushed-append ops op

  -- A consumer's call adds nothing to what was pushed.
  pub pushed-Consumes :
      (ops : List (Op A)) {op : Op A} → Consumes op → pushed (ops ++ (op ∷ [])) ≡ pushed ops
  pushed-Consumes ops Consumes.tries = pushed-append ops _ ∙ append-nil (pushed ops)
  pushed-Consumes ops (Consumes.waits t) = pushed-append ops _ ∙ append-nil (pushed ops)
  pushed-Consumes ops Consumes.stops = pushed-append ops _ ∙ append-nil (pushed ops)

  -- The sample that the thread holds.
  abbrev pub held : Thread A → List A
  held unborn = []
  held testing = []
  held waiting = []
  held (to_ballistic x) = x ∷ []
  held (to_accuracy x) = x ∷ []
  held (to_alarm x) = x ∷ []
  held ended = []

  -- The samples pushed to the three queues: the same, but for the one held and the queues that have it.
  abbrev pub InStep : Thread A → List A → List A → List A → Type 0
  InStep (to_accuracy x) ballistic accuracy alarm =
      (ballistic ≡ alarm ++ (x ∷ [])) × (accuracy ≡ alarm)
  InStep (to_alarm x) ballistic accuracy alarm =
      (ballistic ≡ alarm ++ (x ∷ [])) × (accuracy ≡ alarm ++ (x ∷ []))
  InStep unborn ballistic accuracy alarm = (ballistic ≡ alarm) × (accuracy ≡ alarm)
  InStep testing ballistic accuracy alarm = (ballistic ≡ alarm) × (accuracy ≡ alarm)
  InStep waiting ballistic accuracy alarm = (ballistic ≡ alarm) × (accuracy ≡ alarm)
  InStep (to_ballistic x) ballistic accuracy alarm = (ballistic ≡ alarm) × (accuracy ≡ alarm)
  InStep ended ballistic accuracy alarm = (ballistic ≡ alarm) × (accuracy ≡ alarm)

  pub record IsForwarded (s : BroadcastingReceiver A) : Type 0 where
    pub in_step : InStep s.thread (pushed s.ballistic) (pushed s.accuracy) (pushed s.alarm)
    pub in_order : Sublistᴰ ((pushed s.alarm ++ held s.thread) ++ s.raw_queue.queue) s.arrived

  -- The samples on their way, for a thread, what the alarm queue was given, and the raw queue.
  abbrev way : Thread A → List A → List A → List A
  way thread alarm queue = (alarm ++ held thread) ++ queue

  at_thread :
      (s : BroadcastingReceiver A) (k : Thread A)
      → s.thread ≡ k
      → IsForwarded s
      → InStep k (pushed s.ballistic) (pushed s.accuracy) (pushed s.alarm)
        × Sublistᴰ (way k (pushed s.alarm) s.raw_queue.queue) s.arrived
  at_thread s k e v = (
    subst (λ th. InStep th (pushed s.ballistic) (pushed s.accuracy) (pushed s.alarm)) e v.in_step,
    subst (λ th. Sublistᴰ (way th (pushed s.alarm) s.raw_queue.queue) s.arrived) e v.in_order,
  )

  -- What `wait_pop` returns was at the front of the queue.
  returned-split :
      (t : Bool) (q rest : MessageQueue A) (item : Option A)
      → wait_pop t q ≡ returned item rest
      → q.queue ≡ handed item ++ rest.queue
  returned-split t q rest item e =
      subst (λ r. let (out, q') = settle q r in q.queue ≡ out ++ q'.queue) e (wait_pop-split t q)

  pushed_one :
      (ops : List (Op A)) (x : A) {ys : List A}
      → pushed ops ≡ ys
      → pushed (ops ++ (pushes x ∷ [])) ≡ ys ++ (x ∷ [])
  pushed_one ops x e = pushed-append ops (pushes x) ∙ ap (λ l. l ++ (x ∷ [])) e

  Step-IsForwarded : (s t : BroadcastingReceiver A) → Step s t → IsForwarded s → IsForwarded t
  unfolding MessageQueue.stop
  Step-IsForwarded s t (arrive x) v = record {
    in_step = v.in_step;
    in_order = push-sublist _ x s.raw_queue s.arrived v.in_order;
  }
  Step-IsForwarded s t (spawn e e') v =
      let (same, order) = at_thread s unborn e' v in record { in_step = same; in_order = order }
  Step-IsForwarded s t (set_running e) v = record { in_step = v.in_step; in_order = v.in_order }
  Step-IsForwarded s t (go_on e r) v =
      let (same, order) = at_thread s testing e v in record { in_step = same; in_order = order }
  Step-IsForwarded s t (leave e r) v =
      let (same, order) = at_thread s testing e v in record { in_step = same; in_order = order }
  Step-IsForwarded s t (take o x rest e w) v =
      let (same, order) = at_thread s waiting e v in
      record {
        in_step = same;
        in_order = rw (append_assoc (pushed s.alarm) (x ∷ []) rest.queue) (
            subst (λ l. Sublistᴰ l s.arrived)
              (ap (λ l. l ++ s.raw_queue.queue) (append-nil (pushed s.alarm))
                ∙ ap (λ l. pushed s.alarm ++ l) (returned-split o s.raw_queue rest (some x) w))
              order);
      }
  Step-IsForwarded s t (give_up o rest e w) v =
      let (same, order) = at_thread s waiting e v in
      record {
        in_step = same;
        in_order =
            subst (λ q. Sublistᴰ (way testing (pushed s.alarm) q) s.arrived)
              (returned-split o s.raw_queue rest none w) order;
      }
  Step-IsForwarded s t (push_ballistic x e) v =
      let (same, order) = at_thread s (to_ballistic x) e v in
      record { in_step = (pushed_one s.ballistic x same.0, same.1); in_order = order }
  Step-IsForwarded s t (push_accuracy x e) v =
      let (same, order) = at_thread s (to_accuracy x) e v in
      record { in_step = (same.0, pushed_one s.accuracy x same.1); in_order = order }
  Step-IsForwarded s t (push_alarm x e) v =
      let (same, order) = at_thread s (to_alarm x) e v in
      let grown = pushed_one s.alarm x refl in
      record {
        in_step = (same.0 ∙ sym grown, same.1 ∙ sym grown);
        in_order =
            subst (λ l. Sublistᴰ (l ++ s.raw_queue.queue) s.arrived) (sym (append-nil _ ∙ grown))
              order;
      }
  Step-IsForwarded s t (use_ballistic op c) v = record {
    in_step =
        subst (λ l. InStep s.thread l (pushed s.accuracy) (pushed s.alarm))
          (sym (pushed-Consumes s.ballistic c)) v.in_step;
    in_order = v.in_order;
  }
  Step-IsForwarded s t (use_accuracy op c) v = record {
    in_step =
        subst (λ l. InStep s.thread (pushed s.ballistic) l (pushed s.alarm))
          (sym (pushed-Consumes s.accuracy c)) v.in_step;
    in_order = v.in_order;
  }
  Step-IsForwarded s t (use_alarm op c) v = record {
    in_step =
        subst (λ l. InStep s.thread (pushed s.ballistic) (pushed s.accuracy) l)
          (sym (pushed-Consumes s.alarm c)) v.in_step;
    in_order =
        subst (λ l. Sublistᴰ (way s.thread l s.raw_queue.queue) s.arrived)
          (sym (pushed-Consumes s.alarm c)) v.in_order;
  }
  Step-IsForwarded s t (halt e) v = record { in_step = v.in_step; in_order = v.in_order }

  begin-IsForwarded : (capacity : ℕ) → IsForwarded (begin capacity)
  begin-IsForwarded capacity = record { in_step = (refl, refl); in_order = Sublistᴰ.slnil }

  -- However the threads and the consumers interleave from the start of the program, the three queues
  -- are given the same samples in the same order, but for the one that is being handed round; and what
  -- they were given, with the sample held and those still in the raw queue, is a subsequence of the
  -- samples that arrived.
  pub Reach-IsForwarded :
      (capacity : ℕ) {s : BroadcastingReceiver A} → Reach (begin capacity) s → IsForwarded s
  Reach-IsForwarded capacity r =
      Closure-keeps IsForwarded Step-IsForwarded (begin-IsForwarded capacity) r
