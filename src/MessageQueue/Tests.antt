-- ===== src/MessageQueue/Tests.antt =====
-- Tests of `MessageQueue`, and its theorems at concrete queues.
use mathlib.Core.List.{Sublistᴰ}
use ai_solo_coder_task_b.Prelude.{ℕ, ◌≡◌, refl, true, false, List, [], ◌∷◌, ◌++◌, arith}
use ai_solo_coder_task_b.MessageQueue.{
  MessageQueue, IsValid, create, push, push_all, try_pop, wait_pop, stop, size, empty, is_running,
  Op, pushes, tries, waits, stops, run, step,
}
use ai_solo_coder_task_b.MessageQueue.Order.{queue-push_all, run-sublist, run_fifo}

-- 1 and 2 wait in a queue of capacity 2.
abbrev full : MessageQueue ℕ
full = record { capacity = 2; running = true; queue = 1 ∷ 2 ∷ [] }

full-IsValid : IsValid full
full-IsValid = omega arith

abbrev calls : List (Op ℕ)
calls = pushes 3 ∷ tries ∷ waits false ∷ stops ∷ waits false ∷ []

runs : run calls full ≡ (2 ∷ 3 ∷ [], record { capacity = 2; running = false; queue = [] })
unfolding run step push try_pop wait_pop stop
runs = refl

observers : (size (create {A = ℕ} 5) ≡ 0) × (empty full ≡ false) × (is_running (stop full) ≡ false)
unfolding create size empty is_running stop
observers = (refl, refl, refl)

queue-push_all_example : (push_all (3 ∷ 4 ∷ 5 ∷ []) full).queue ≡ 4 ∷ 5 ∷ []
queue-push_all_example = queue-push_all (3 ∷ 4 ∷ 5 ∷ []) full full-IsValid

run-sublist_example : Sublistᴰ {A = ℕ} (2 ∷ 3 ∷ []) (1 ∷ 2 ∷ 3 ∷ [])
unfolding run step push try_pop wait_pop stop
run-sublist_example = run-sublist calls full

abbrev two_calls : List (Op ℕ)
two_calls = pushes 7 ∷ tries ∷ []

run_fifo_example : let (out, q') = run two_calls (create 2) in out ++ q'.queue ≡ 7 ∷ []
unfolding create
run_fifo_example = run_fifo two_calls (create 2) (omega arith)
