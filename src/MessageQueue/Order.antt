-- ===== src/MessageQueue/Order.antt =====
-- What `MessageQueue` promises: bounds, order, no invented or repeated element, and when it blocks.
use mathlib.Core.List.{Sublistᴰ}
use mathlib.Core.List.Sublistᴰ
use ai_solo_coder_task_b.Prelude.{
  ℕ, suc, ◌+◌, ◌-◌, ◌≤◌, ◌<◌, ◌≡◌, refl, sym, ap, ◌∙◌, ◌↔◌, inl, inr, Bool, true, false, leb, List,
  [], ◌∷◌, ◌++◌, append-nil, append_assoc, arith, length, length-append, drop_congr, subst,
  Bool-cases, keep_last, keep_last_all, keep_last-append,
}
use ai_solo_coder_task_b.MessageQueue.{
  MessageQueue, blocked, IsValid, push, push_all, try_pop, wait_pop, stop, Op, pushes, tries, waits,
  stops, step, run, pushed, make_room, take_front, handed, settle, wake,
}

module _ {ℓ} {A : Type ℓ} where
  length-make_room :
      (x : A) (n : ℕ) (xs : List A)
      → 0 < n
      → length xs ≤ n
      → length (make_room n xs ++ (x ∷ [])) ≤ n
  length-make_room x n [] p h = ground arith
  length-make_room x n (y ∷ ys) p h =
      ground (arith, length-append ys (x ∷ []), length-append (y ∷ ys) (x ∷ []))

  pub push-IsValid : (x : A) (q : MessageQueue A) → IsValid q → IsValid (push x q)
  unfolding push
  push-IsValid x q v = record {
    positive = v.positive;
    bounded = length-make_room x q.capacity q.queue v.positive v.bounded;
  }

  make_room-append :
      (x : A) (n : ℕ) (xs : List A)
      → 0 < n
      → length xs ≤ n
      → make_room n xs ++ (x ∷ []) ≡ keep_last n (xs ++ (x ∷ []))
  make_room-append x n [] p h = ground arith
  make_room-append x n (y ∷ ys) p h = elim (Bool-cases (leb n (suc (length ys)))) [
    | inl full ↦ rw full (
        sym (
          drop_congr {m = length (y ∷ ys ++ x ∷ []) - n} {n = 1} (y ∷ ys ++ x ∷ [])
            (ground (arith, length-append ys (x ∷ [])))))
    | inr room ↦ rw room (sym (keep_last_all n _ (ground (arith, length-append ys (x ∷ [])))))
  ]

  -- On a queue within its capacity a push appends, and keeps the newest `capacity` elements.
  pub queue-push :
      (x : A) (q : MessageQueue A)
      → IsValid q
      → (push x q).queue ≡ keep_last q.capacity (q.queue ++ (x ∷ []))
  unfolding push
  queue-push x q v = make_room-append x q.capacity q.queue v.positive v.bounded

  step-IsValid : (op : Op A) (q : MessageQueue A) → IsValid q → IsValid (step op q).1
  unfolding step wait_pop try_pop stop
  step-IsValid (pushes x) q v = push-IsValid x q v
  step-IsValid tries q v = ground arith
  step-IsValid (waits t) q v = ground arith
  step-IsValid stops q v = ground arith

  -- The bound holds after any sequence of calls.
  pub run-IsValid : (ops : List (Op A)) (q : MessageQueue A) → IsValid q → IsValid (run ops q).1
  unfolding run
  run-IsValid [] q v = v
  run-IsValid (op ∷ ops) q v = run-IsValid ops (step op q).1 (step-IsValid op q v)

  -- `wait_pop` sleeps on exactly while the queue is empty, runs, and the deadline has not passed.
  pub wait_pop-blocked_iff :
      (t : Bool) (q : MessageQueue A)
      → (wait_pop t q ≡ blocked) ↔ ((q.queue ≡ []) × (q.running ≡ true) × (t ≡ false))
  unfolding wait_pop try_pop
  wait_pop-blocked_iff t q = ground arith

  make_room-sublist :
      (x : A) (n : ℕ) (xs out more : List A)
      → Sublistᴰ out ((make_room n xs ++ (x ∷ [])) ++ more)
      → Sublistᴰ out (xs ++ x ∷ more)
  make_room-sublist x n [] out more s = ground arith
  make_room-sublist x n (y ∷ ys) out more s = elim (Bool-cases (leb n (suc (length ys)))) [
    | inl full ↦ Sublistᴰ.cons (subst (Sublistᴰ out) (append_assoc ys (x ∷ []) more) (rw full at s))
    | inr room ↦ subst (Sublistᴰ out) (append_assoc (y ∷ ys) (x ∷ []) more) (rw room at s)
  ]

  -- A call that pushes nothing takes off the front what it hands over, and nothing else.
  take_front-split :
      (q : MessageQueue A) (xs : List A)
      → q.queue ≡ xs
      → let (item, rest) = take_front q xs in xs ≡ handed item ++ rest.queue
  take_front-split q [] e = sym e
  take_front-split q (x ∷ xs) e = refl

  try_pop-split :
      (q : MessageQueue A) → let (item, rest) = try_pop q in q.queue ≡ handed item ++ rest.queue
  unfolding try_pop
  try_pop-split q = take_front-split q q.queue refl

  pub wait_pop-split :
      (t : Bool) (q : MessageQueue A)
      → let (out, rest) = settle q (wait_pop t q) in q.queue ≡ out ++ rest.queue
  unfolding wait_pop
  wait_pop-split t q = elim (Bool-cases (wake q)) [
    | inl up ↦ rw up (try_pop-split q)
    | inr down ↦ rw down (ground arith)
  ]

  append-sublist : (xs : List A) {ys zs : List A} → Sublistᴰ ys zs → Sublistᴰ (xs ++ ys) (xs ++ zs)
  append-sublist [] s = s
  append-sublist (x ∷ xs) s = Sublistᴰ.cons-cons refl (append-sublist xs s)

  pub append-sublist_both :
      {ws xs ys zs : List A} → Sublistᴰ ws xs → Sublistᴰ ys zs → Sublistᴰ (ws ++ ys) (xs ++ zs)
  append-sublist_both Sublistᴰ.slnil t = t
  append-sublist_both (Sublistᴰ.cons s) t = Sublistᴰ.cons (append-sublist_both s t)
  append-sublist_both (Sublistᴰ.cons-cons e s) t = Sublistᴰ.cons-cons e (append-sublist_both s t)

  take-sublist :
      (xs out rest last ys more : List A)
      → xs ≡ out ++ ys
      → Sublistᴰ (rest ++ last) (ys ++ more)
      → Sublistᴰ ((out ++ rest) ++ last) (xs ++ more)
  take-sublist xs out rest last ys more e s =
      rw (e, append_assoc out rest last, append_assoc out ys more) (append-sublist out s)

  -- Nothing is invented, repeated or put out of order: what was handed out, followed by what is
  -- still in the queue, is a subsequence of the old contents followed by what was pushed.
  pub run-sublist :
      (ops : List (Op A)) (q : MessageQueue A)
      → let (out, q') = run ops q in Sublistᴰ (out ++ q'.queue) (q.queue ++ pushed ops)
  unfolding run step push
  run-sublist [] q = rw append-nil (Sublistᴰ.refl q.queue)
  run-sublist (pushes x ∷ ops) q =
      make_room-sublist x q.capacity q.queue _ _ (run-sublist ops (push x q))
  run-sublist (tries ∷ ops) q =
      take-sublist q.queue _ _ _ _ _ (try_pop-split q) (run-sublist ops (try_pop q).1)
  run-sublist (waits t ∷ ops) q =
      take-sublist q.queue _ _ _ _ _ (wait_pop-split t q)
        (run-sublist ops (settle q (wait_pop t q)).1)
  run-sublist (stops ∷ ops) q = run-sublist ops (stop q)

  pushed-sublist : (x : A) (q : MessageQueue A) → Sublistᴰ (push x q).queue (q.queue ++ (x ∷ []))
  unfolding push
  pushed-sublist x q = make_room-sublist x q.capacity q.queue _ [] (rw append-nil (Sublistᴰ.refl _))

  -- A push keeps what stands before the queue, and the queue, in the order of the arrivals.
  pub push-sublist :
      (out : List A) (x : A) (q : MessageQueue A) (arrived : List A)
      → Sublistᴰ (out ++ q.queue) arrived
      → Sublistᴰ (out ++ (push x q).queue) (arrived ++ (x ∷ []))
  push-sublist out x q arrived s =
      Sublistᴰ.trans (append-sublist out (pushed-sublist x q))
        (rw (← append_assoc out q.queue (x ∷ [])) (append-sublist_both s (Sublistᴰ.refl (x ∷ []))))

  queue-push_room :
      (x : A) (q : MessageQueue A)
      → length q.queue < q.capacity
      → (push x q).queue ≡ q.queue ++ (x ∷ [])
  unfolding push
  queue-push_room x q h = ground arith

  take_fifo :
      (xs out rest last ys more : List A)
      → xs ≡ out ++ ys
      → rest ++ last ≡ ys ++ more
      → (out ++ rest) ++ last ≡ xs ++ more
  take_fifo xs out rest last ys more e s =
      rw (e, append_assoc out rest last, s, append_assoc out ys more)

  -- While the pushes fit, nothing is lost either.
  pub run_fifo :
      (ops : List (Op A)) (q : MessageQueue A)
      → length q.queue + length (pushed ops) ≤ q.capacity
      → let (out, q') = run ops q in out ++ q'.queue ≡ q.queue ++ pushed ops
  unfolding run step try_pop wait_pop
  run_fifo [] q h = rw append-nil
  run_fifo (pushes x ∷ ops) q h =
      let e : (push x q).queue ≡ q.queue ++ (x ∷ []) = queue-push_room x q (omega arith) in
      run_fifo ops (push x q) (rw e (omega (arith, length-append q.queue (x ∷ []))))
      ∙ ap (λ xs. xs ++ pushed ops) e
      ∙ append_assoc q.queue (x ∷ []) (pushed ops)
  run_fifo (tries ∷ ops) q h =
      take_fifo q.queue _ _ _ _ _ (try_pop-split q) (run_fifo ops (try_pop q).1 (ground arith))
  run_fifo (waits t ∷ ops) q h =
      take_fifo q.queue _ _ _ _ _ (wait_pop-split t q)
        (run_fifo ops (settle q (wait_pop t q)).1 (ground arith))
  run_fifo (stops ∷ ops) q h = run_fifo ops (stop q) h

  -- With no consumer the queue holds the newest `capacity` elements of its whole history.
  pub queue-push_all :
      (xs : List A) (q : MessageQueue A)
      → IsValid q
      → (push_all xs q).queue ≡ keep_last q.capacity (q.queue ++ xs)
  unfolding push
  queue-push_all [] q v = sym (rw append-nil (keep_last_all q.capacity q.queue v.bounded))
  queue-push_all (x ∷ xs) q v =
      queue-push_all xs (push x q) (push-IsValid x q v)
      ∙ ap (λ ys. keep_last q.capacity (ys ++ xs)) (queue-push x q v)
      ∙ keep_last-append q.capacity (q.queue ++ (x ∷ [])) xs
      ∙ ap (keep_last q.capacity) (append_assoc q.queue (x ∷ []) xs)

  pub push_all-append :
      (xs ys : List A) (q : MessageQueue A) → push_all (xs ++ ys) q ≡ push_all ys (push_all xs q)
  push_all-append [] ys q = refl
  push_all-append (x ∷ xs) ys q = push_all-append xs ys (push x q)
