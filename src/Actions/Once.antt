-- ===== src/Actions/Once.antt =====
-- A queue of actions that leave the queue alone.
use werk.Prelude.{
  ℕ, zero, suc, ◌+◌, ◌≤◌, ◌<◌, ◌≡◌, refl, sym, ap, ◌∙◌, inl, inr, false, some, List, [], ◌∷◌, ◌++◌,
  arith, ltb, if-true, if-false, Bool-cases, length, get_or, take, length-append,
}
use mathlib.Core.List.{append-nil, append_assoc}
use werk.Actions.{
  Action, Actions, State, capacity, push, execute, execute_each, execute_next, execute_queue,
}

abbrev pub push_all : List Action → State → State
push_all [] s = s
push_all (a ∷ as') s = push_all as' (push a s)

push-room :
    (a : Action) (s : State)
    → length s.queue < capacity
    → push a s ≡ record s { queue = s.queue ++ (a ∷ []) }
unfolding push
push-room a s h = if-true (ltb (length s.queue) capacity) _ _ (ground arith)

push-full : (a : Action) (s : State) → length s.queue ≡ capacity → push a s ≡ s
unfolding push
push-full a s h = if-false (ltb (length s.queue) capacity) _ _ (ground arith)

push_all-take :
    (as' : List Action) (room : ℕ) (s : State)
    → length s.queue + room ≡ capacity
    → push_all as' s ≡ record s { queue = s.queue ++ take room as' }
push_all-take [] zero s h = ap (λ q. record s { queue = q }) (sym (append-nil s.queue))
push_all-take [] (suc room) s h = ap (λ q. record s { queue = q }) (sym (append-nil s.queue))
push_all-take (a ∷ as') zero s h =
    ap (push_all as') (push-full a s (omega arith)) ∙ push_all-take as' zero s h
push_all-take (a ∷ as') (suc room) s h =
    let s' : State = record s { queue = s.queue ++ (a ∷ []) } in
    ap (push_all as') (push-room a s (omega arith))
    ∙ push_all-take as' room s' (omega (arith, length-append s.queue (a ∷ [])))
    ∙ ap (λ q. record s { queue = q }) (append_assoc s.queue (a ∷ []) (take room as'))

length-take-le : (n : ℕ) (as' : List Action) → length (take n as') ≤ length as'
length-take-le zero as' = omega arith
length-take-le (suc n) [] = omega arith
length-take-le (suc n) (a ∷ as') = omega (arith, length-take-le n as')

module _ (app : ℕ → State → State) where
  -- Actions of the application that neither look at the queue nor change it.
  abbrev pub LeavesQueue : Type 0
  LeavesQueue =
      (n : ℕ) (q : List Action) (s : State)
      → app n (record s { queue = q }) ≡ record (app n s) { queue = q }

  abbrev pub execute_list : List Action → State → State
  execute_list [] s = s
  execute_list (a ∷ as') s = execute_list as' (execute app a s)

  mutual
    unfolding execute

    execute-queue :
        LeavesQueue
        → (a : Action) (q : List Action) (s : State)
        → execute app a (record s { queue = q }) ≡ record (execute app a s) { queue = q }
    execute-queue h Action.null_action q s = refl
    execute-queue h (Action.counter_action n) q s = refl
    execute-queue h (Action.set_latch_action n) q s = refl
    execute-queue h (Action.reset_latch_action n) q s = refl
    execute-queue h (Action.increment_counter_action n) q s = refl
    execute-queue h (Action.reset_counter_action n) q s = refl
    execute-queue h (Action.compound_action as') q s = execute_each-queue h as' q s
    execute-queue h (Action.pair_action a b) q s =
        ap (execute app b) (execute-queue h a q s) ∙ execute-queue h b q (execute app a s)
    execute-queue h (Action.conditional_action n a) q s =
        elim (Bool-cases (get_or s.latches n false)) [
          | inl e ↦
              if-true (get_or s.latches n false) _ _ e
              ∙ execute-queue h a q s
              ∙ ap {A = State} (λ x. record x { queue = q })
                  (sym (if-true (get_or s.latches n false) (execute app a s) s e))
          | inr e ↦
              if-false (get_or s.latches n false) _ _ e
              ∙ ap {A = State} (λ x. record x { queue = q })
                  (sym (if-false (get_or s.latches n false) (execute app a s) s e))
        ]
    execute-queue h (Action.application n) q s = h n q s

    execute_each-queue :
        LeavesQueue
        → (as' : Actions) (q : List Action) (s : State)
        → execute_each app as' (record s { queue = q })
          ≡ record (execute_each app as' s) { queue = q }
    execute_each-queue h Actions.no_actions q s = refl
    execute_each-queue h (Actions.then_action a as') q s =
        ap (execute_each app as') (execute-queue h a q s)
        ∙ execute_each-queue h as' q (execute app a s)

  execute_queue-drains :
      LeavesQueue
      → (as' : List Action) (n : ℕ) (s : State) → length as' < n
      → execute_queue app n (record s { queue = as' })
        ≡ some (record (execute_list as' s) { queue = [] })
  unfolding execute_queue execute_next
  execute_queue-drains h as' zero s lt = absurd (omega arith)
  execute_queue-drains h [] (suc n) s lt = refl
  execute_queue-drains h (a ∷ as') (suc n) s lt =
      ap (execute_queue app n) (execute-queue h a as' s)
      ∙ execute_queue-drains h as' n (execute app a s) (omega arith)

  -- Actions pushed to an empty queue, where those of the application neither look at the queue nor
  -- change it: with one round of fuel more than actions, an execution of the queue ends, leaves it
  -- empty, and has executed the first 1024 of them, each once and in order, and no others.
  pub execute_queue-once :
      (as' : List Action) (s : State)
      → LeavesQueue
      → s.queue ≡ []
      → execute_queue app (suc (length as')) (push_all as' s)
        ≡ some (record (execute_list (take capacity as') s) { queue = [] })
  execute_queue-once as' s h e =
      ap (execute_queue app (suc (length as'))) (
        push_all-take as' capacity s (omega (arith, ap length e))
        ∙ ap (λ q. record s { queue = q ++ take capacity as' }) e)
      ∙ execute_queue-drains h (take capacity as') (suc (length as')) s
          (omega (arith, length-take-le capacity as'))
