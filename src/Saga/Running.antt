-- ===== src/Saga/Running.antt =====
-- Executing the steps of a saga, from its creation to its completion.
use heidi_microservices.Common.{
  ℕ, zero, suc, ◌+◌, ◌<◌, ◌≡◌, refl, ◌∙◌, ◌⊎◌, inl, inr, Bool, true, false, ◌&&◌, Option, none,
  some, List, [], ◌∷◌, ◌++◌, map, String, length, length-update_at, length-map, get_elem?,
  update_at, take, every, leb, arith, Bool-cases,
}
use mathlib.Core.List.{append_assoc}
use native.Mathlib.Numerals.{add-one}
use heidi_microservices.Saga.{
  pending, completed, is_completed, StepDefinition, SagaStep, SagaState, fresh_step, complete_step,
  new_saga, advance,
}

module _ {P : Type 0} where
  abbrev pub is_pending : SagaStep P → Bool
  is_pending step = elim step.status [ pending ↦ true | _ ↦ false ]

  -- The first `n` steps are completed, and the others pending.
  abbrev pub progress : ℕ → List (SagaStep P) → Bool
  progress zero steps = every is_pending steps
  progress (suc n) [] = false
  progress (suc n) (step ∷ steps) = is_completed step.status && progress n steps

  pub record IsRunning (saga : SagaState P) : Type 0 where
    pub within : saga.current_step < length saga.steps
    pub reached : progress saga.current_step saga.steps ≡ true
    pub running : saga.status ≡ pending

  pub record IsFinished (saga : SagaState P) : Type 0 where
    pub at_end : saga.current_step ≡ length saga.steps
    pub reached : progress saga.current_step saga.steps ≡ true
    pub finished : saga.status ≡ completed

  every-fresh : (ds : List (StepDefinition P)) → every is_pending (map fresh_step ds) ≡ true
  every-fresh [] = refl
  every-fresh (d ∷ ds) = every-fresh ds

  progress-update_at :
      (n : ℕ) (steps : List (SagaStep P)) (r : P)
      → n < length steps
      → progress n steps ≡ true
      → progress (suc n) (update_at steps n (complete_step r)) ≡ true
  progress-update_at n [] r h p = elim h [ ]
  progress-update_at zero (step ∷ steps) r h p = ground arith
  progress-update_at (suc n) (step ∷ steps) r h p = ground (arith, progress-update_at n steps r)

  -- The results of the first steps.
  abbrev pub results : List (SagaStep P) → List (Option P)
  results steps = map (λ step. step.result) steps

  results-update_at :
      (n : ℕ) (steps : List (SagaStep P)) (r : P)
      → n < length steps
      → results (take (suc n) (update_at steps n (complete_step r)))
        ≡ results (take n steps) ++ some r ∷ []
  results-update_at n [] r h = elim h [ ]
  results-update_at zero (step ∷ steps) r h = refl
  results-update_at (suc n) (step ∷ steps) r h = rw (results-update_at n steps r (omega arith))

  -- A running saga is still running after one step, and says so and names a next step, or that was
  -- its last one, and it is finished and says so.
  pub advance_lem :
      (r : P) (now : ℕ) (saga : SagaState P)
      → IsRunning saga
      → let (saga', answer) = advance r now saga in
        ((suc saga.current_step < length saga.steps)
          × IsRunning saga'
          × (answer.completed ≡ false)
          × (answer.next_step ≡ get_elem? saga'.steps saga'.current_step))
        ⊎ ((suc saga.current_step ≡ length saga.steps)
            × IsFinished saga'
            × (answer.completed ≡ true)
            × (answer.next_step ≡ none))
  unfolding advance
  advance_lem r now saga run =
      let steps = update_at saga.steps saga.current_step (complete_step r) in
      let len = length-update_at saga.steps saga.current_step (complete_step r) in
      let reached : progress (saga.current_step + 1) steps ≡ true =
        rw add-one (progress-update_at saga.current_step saga.steps r run.within run.reached) in
      elim (Bool-cases (leb (length steps) (saga.current_step + 1))) [
        | inl e ↦
            let last : suc saga.current_step ≡ length saga.steps =
              ground (arith, len, run.within) in
            rw e (
              inr (
                last,
                record { at_end = omega (arith, len, last); reached = reached; finished = refl },
                refl,
                refl,
              ))
        | inr e ↦
            let more : suc saga.current_step < length saga.steps =
              ground (arith, len, run.within) in
            rw e (
              inl (
                more,
                record {
                  within = omega (arith, len, more);
                  reached = reached;
                  running = run.running;
                },
                refl,
                refl,
              ))
      ]

  -- `executeStep` once for each result, and what it said of completion each time.
  pub run_steps : ℕ → List P → SagaState P → SagaState P × List Bool
  unfolding advance
  run_steps now [] saga = (saga, [])
  run_steps now (r ∷ rs) saga =
      let (saga', answer) = advance r now saga in
      let (end, flags) = run_steps now rs saga' in (end, answer.completed ∷ flags)

  -- `false` as often as there are further results, and then `true`.
  abbrev pub only_last : List P → List Bool
  only_last [] = []
  only_last (r ∷ []) = true ∷ []
  only_last (r ∷ s ∷ rs) = false ∷ only_last (s ∷ rs)

  advance-steps :
      (r : P) (now : ℕ) (saga : SagaState P)
      → ((advance r now saga).0.steps ≡ update_at saga.steps saga.current_step (complete_step r))
        × ((advance r now saga).0.current_step ≡ suc saga.current_step)
  unfolding advance
  advance-steps r now saga =
      elim (Bool-cases (
        leb (length (update_at saga.steps saga.current_step (complete_step r)))
          (saga.current_step + 1))) [
            | inl e ↦ rw e (refl, add-one _)
            | inr e ↦ rw e (refl, add-one _)
          ]

  -- The results of the steps before the current one.
  abbrev pub recorded : SagaState P → List (Option P)
  recorded saga = results (take saga.current_step saga.steps)

  advance-recorded :
      (r : P) (now : ℕ) (saga : SagaState P)
      → saga.current_step < length saga.steps
      → recorded (advance r now saga).0 ≡ recorded saga ++ some r ∷ []
  advance-recorded r now saga h =
      let (steps, at) = advance-steps r now saga in
      rw (steps, at) (results-update_at saga.current_step saga.steps r h)

  advance-length :
      (r : P) (now : ℕ) (saga : SagaState P)
      → length (advance r now saga).0.steps ≡ length saga.steps
  advance-length r now saga =
      rw ((advance-steps r now saga).0)
        (length-update_at saga.steps saga.current_step (complete_step r))

  -- A running saga that is given as many results as it has steps left finishes with the last of
  -- them and not before, and has recorded each result in its step.
  pub run_steps_lem :
      (now : ℕ) (r : P) (rs : List P) (saga : SagaState P)
      → IsRunning saga
      → saga.current_step + length (r ∷ rs) ≡ length saga.steps
      → let (end, flags) = run_steps now (r ∷ rs) saga in
        IsFinished end
        × (flags ≡ only_last (r ∷ rs))
        × (recorded end ≡ recorded saga ++ map some (r ∷ rs))
  unfolding run_steps
  run_steps_lem now r [] saga run h = elim (advance_lem r now saga run) [
    | inl w ↦ absurd (let m = w.0 in omega arith)
    | inr w ↦ (w.1, rw (w.2), advance-recorded r now saga run.within)
  ]
  run_steps_lem now r (q ∷ rs) saga run h = elim (advance_lem r now saga run) [
    | inl w ↦
        let at = (advance-steps r now saga).1 in
        let len = advance-length r now saga in
        let (done, flags, kept) =
          run_steps_lem now q rs (advance r now saga).0 w.1 (omega (arith, at, len)) in
        (
          done,
          cc (w.2, flags),
          kept ∙ rw (advance-recorded r now saga run.within) (append_assoc (recorded saga) _ _),
        )
    | inr w ↦ absurd (let l = w.0 in omega arith)
  ]

  pub new_saga-IsRunning :
      (i t : String) (d : StepDefinition P) (ds : List (StepDefinition P)) (now : ℕ)
      → IsRunning (new_saga i t (d ∷ ds) now)
  unfolding new_saga
  new_saga-IsRunning i t d ds now = record {
    within = omega arith;
    reached = every-fresh (d ∷ ds);
    running = refl;
  }

  -- A new saga with at least one step, given a result for each of its steps, reports completion
  -- with the last result and not before; then it is completed, all its steps are, and they hold the
  -- results in order.
  pub new_saga-run_steps :
      (i t : String) (d : StepDefinition P) (ds : List (StepDefinition P)) (created now : ℕ) (r : P)
      (rs : List P)
      → length (r ∷ rs) ≡ length (d ∷ ds)
      → let (end, flags) = run_steps now (r ∷ rs) (new_saga i t (d ∷ ds) created) in
        IsFinished end × (flags ≡ only_last (r ∷ rs)) × (recorded end ≡ map some (r ∷ rs))
  unfolding new_saga
  new_saga-run_steps i t d ds created now r rs h =
      run_steps_lem now r rs (new_saga i t (d ∷ ds) created) (new_saga-IsRunning i t d ds created)
        (omega (arith, length-map fresh_step ds))
