-- ===== src/Saga/Compensation.antt =====
-- Rolling back a saga after a failure.
use heidi_microservices.Common.{
  ℕ, zero, suc, ◌<◌, ◌≤◌, ◌≡◌, refl, ◌∙◌, inl, inr, true, false, some, List, [], ◌∷◌, ◌++◌, map,
  String, length, length-update_at, get_elem?, get_elem?_lt, update_at, take, take-suc,
  take-update_at, select, select-append, any, every, arith, if◌then◌else◌, Bool-cases,
}
use mathlib.Core.List.{reverse, reverse-append, append_assoc, append-nil}
use heidi_microservices.Common.Outcome.{returned}
use heidi_microservices.Saga.Running.{is_pending, progress, IsRunning}
use heidi_microservices.Saga.{
  compensated, is_compensating, SagaStep, SagaState, compensate_step, fail_step_with, settle_step,
  is_compensable, compensate_below, roll_back, fail_current, settle,
}

module _ {P : Type 0} where
  abbrev pub mark_step : SagaStep P → SagaStep P
  mark_step step = if is_compensable step then compensate_step step else step

  -- The steps below an index, the last first, that were completed and have a compensation.
  abbrev pub to_undo : ℕ → List (SagaStep P) → List (SagaStep P)
  to_undo n steps = map compensate_step (reverse (select is_compensable (take n steps)))

  -- The steps, those to roll back marked.
  abbrev pub marked : ℕ → List (SagaStep P) → List (SagaStep P)
  marked zero steps = steps
  marked (suc n) [] = []
  marked (suc n) (step ∷ steps) = mark_step step ∷ marked n steps

  marked-update_at :
      (n : ℕ) (steps : List (SagaStep P)) (step : SagaStep P)
      → get_elem? steps n ≡ some step
      → is_compensable step ≡ true
      → marked n (update_at steps n compensate_step) ≡ marked (suc n) steps
  marked-update_at n [] step h c = cc
  marked-update_at zero (s ∷ steps) step h c = let e : s ≡ step = ground arith in rw (e, c)
  marked-update_at (suc n) (s ∷ steps) step h c = rw (marked-update_at n steps step h c)

  marked-suc :
      (n : ℕ) (steps : List (SagaStep P)) (step : SagaStep P)
      → get_elem? steps n ≡ some step
      → is_compensable step ≡ false
      → marked n steps ≡ marked (suc n) steps
  marked-suc n [] step h c = cc
  marked-suc zero (s ∷ steps) step h c = let e : s ≡ step = ground arith in rw (e, c)
  marked-suc (suc n) (s ∷ steps) step h c = rw (marked-suc n steps step h c)

  to_undo-suc :
      (n : ℕ) (steps : List (SagaStep P)) (step : SagaStep P)
      → get_elem? steps n ≡ some step
      → is_compensable step ≡ true
      → to_undo (suc n) steps ≡ compensate_step step ∷ to_undo n steps
  to_undo-suc n steps step h c = rw (
    take-suc n steps step h,
    select-append is_compensable (take n steps) (step ∷ []),
    c,
    reverse-append (select is_compensable (take n steps)) (step ∷ []),
  )

  to_undo_skip :
      (n : ℕ) (steps : List (SagaStep P)) (step : SagaStep P)
      → get_elem? steps n ≡ some step
      → is_compensable step ≡ false
      → to_undo (suc n) steps ≡ to_undo n steps
  to_undo_skip n steps step h c = rw (
    take-suc n steps step h,
    select-append is_compensable (take n steps) (step ∷ []),
    c,
    append-nil (select is_compensable (take n steps)),
  )

  module _ (n : ℕ) (steps found : List (SagaStep P)) (step : SagaStep P)
      (e : get_elem? steps n ≡ some step) where
    compensate_below_undo :
        is_compensable step ≡ true
        → compensate_below (suc n) steps found
          ≡ compensate_below n
              (update_at steps n compensate_step)
              (found ++ compensate_step step ∷ [])
    unfolding compensate_below
    compensate_below_undo c = rw (e, c, compensate_below)

    compensate_below_skip :
        is_compensable step ≡ false
        → compensate_below (suc n) steps found ≡ compensate_below n steps found
    unfolding compensate_below
    compensate_below_skip c = rw (e, c, compensate_below)

  compensate_below_lem :
      (n : ℕ) (steps found : List (SagaStep P))
      → n ≤ length steps
      → compensate_below n steps found ≡ returned (marked n steps, found ++ to_undo n steps)
  unfolding compensate_below
  compensate_below_lem zero steps found h = rw (append-nil found)
  compensate_below_lem (suc n) steps found h =
      let (step, e) = get_elem?_lt n steps (omega arith) in
      elim (Bool-cases (is_compensable step)) [
        | inl c ↦
            compensate_below_undo n steps found step e c
            ∙ compensate_below_lem n (update_at steps n compensate_step)
                (found ++ compensate_step step ∷ [])
                (omega (arith, length-update_at steps n compensate_step))
            ∙ rw
                (
                  marked-update_at n steps step e c,
                  take-update_at n steps compensate_step,
                  to_undo-suc n steps step e c,
                )
                (simp append_assoc)
        | inr c ↦
            compensate_below_skip n steps found step e c
            ∙ compensate_below_lem n steps found (omega arith)
            ∙ rw (marked-suc n steps step e c, to_undo_skip n steps step e c)
      ]

  -- The saga with the steps before the current one marked.
  abbrev pub rolled_back : SagaState P → SagaState P
  rolled_back saga = record saga { steps = marked saga.current_step saga.steps }

  -- If the current step lies within the saga, `compensate` hands back the completed steps before it
  -- that have a compensation, the last first, and marks these, and no others, as compensating.
  pub roll_back_lem :
      (saga : SagaState P)
      → saga.current_step ≤ length saga.steps
      → roll_back saga ≡ returned (rolled_back saga, to_undo saga.current_step saga.steps)
  unfolding roll_back
  roll_back_lem saga h = rw (compensate_below_lem saga.current_step saga.steps [] h)

  pending_not_compensable :
      (steps : List (SagaStep P)) → every is_pending steps ≡ true → any is_compensable steps ≡ false
  pending_not_compensable [] h = refl
  pending_not_compensable (step ∷ steps) h = ground (arith, pending_not_compensable steps)

  mark_step_lem : (step : SagaStep P) → is_compensable (mark_step step) ≡ false
  mark_step_lem step = elim (Bool-cases (is_compensable step)) [ inl e ↦ rw e | inr e ↦ rw e e ]

  marked_lem :
      (n : ℕ) (steps : List (SagaStep P)) (error : String)
      → n < length steps
      → progress n steps ≡ true
      → any is_compensable (marked n (update_at steps n (fail_step_with error))) ≡ false
  marked_lem n [] error h p = elim h [ ]
  marked_lem zero (step ∷ steps) error h p = pending_not_compensable steps (ground arith)
  marked_lem (suc n) (step ∷ steps) error h p =
      rw (mark_step_lem step) (marked_lem n steps error (omega arith) (ground arith))

  settle_step_lem :
      (step : SagaStep P)
      → (is_compensable (settle_step step) ≡ is_compensable step)
        × (is_compensating (settle_step step).status ≡ false)
  settle_step_lem step = ground arith

  settled_lem :
      (steps : List (SagaStep P))
      → (any is_compensable (map settle_step steps) ≡ any is_compensable steps)
        × (any (λ step. is_compensating step.status) (map settle_step steps) ≡ false)
  settled_lem [] = (refl, refl)
  settled_lem (step ∷ steps) =
      let (a, b) = settle_step_lem step in let (c, d) = settled_lem steps in (rw (a, c), rw (b, d))

  -- When a step of a running saga fails and the saga is rolled back and settled, the steps handed
  -- out for compensation are the completed ones before the failed step that have a compensation, in
  -- reverse order, and in the end no step is left that is completed and has a compensation, nor one
  -- that is compensating; the saga counts as compensated.
  pub fail_current-roll_back-settle :
      (error : String) (saga : SagaState P)
      → IsRunning saga
      → let rolled = rolled_back (fail_current error saga) in
        (roll_back (fail_current error saga)
          ≡ returned (rolled, to_undo saga.current_step saga.steps))
        × (any is_compensable (settle rolled).steps ≡ false)
        × (any (λ step. is_compensating step.status) (settle rolled).steps ≡ false)
        × ((settle rolled).status ≡ compensated)
  unfolding fail_current settle
  fail_current-roll_back-settle error saga run =
      let steps = update_at saga.steps saga.current_step (fail_step_with error) in
      let (a, b) = settled_lem (marked saga.current_step steps) in
      (
        roll_back_lem (fail_current error saga) (
              omega (
                arith,
                length-update_at saga.steps saga.current_step (fail_step_with error),
                run.within,
              ))
            ∙ rw (take-update_at saga.current_step saga.steps (fail_step_with error)),
        a ∙ marked_lem saga.current_step saga.steps error run.within run.reached,
        b,
        refl,
      )
