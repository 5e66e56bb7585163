-- ===== src/Saga.antt =====
-- libs/saga/src/saga-orchestrator.service.ts, with the types of libs/contracts/src/dto/saga. The
-- payloads and results of steps, `any` in the source, are values of a type `P`. The saga is kept in
-- Redis as JSON, which stands here for the state that it encodes.
pub mod Running
pub mod Compensation
pub mod Stored
mod Tests
use heidi_microservices.Common.{
  ℕ, zero, suc, ◌+◌, Bool, true, false, ◌&&◌, Option, none, some, List, [], ◌∷◌, ◌++◌, map, String,
  text_append, length, get_elem?, update_at, is_some, leb, if◌then◌else◌,
}
use heidi_microservices.Common.Outcome.{
  Outcome, returned, thrown, unfinished, ◌>>=◌, Exception, failure,
}
use heidi_microservices.Redis
use heidi_microservices.Redis.{Client}

pub data SagaStatus : Type 0 where
  pending completed failed compensating compensated : SagaStatus

abbrev pub is_completed : SagaStatus → Bool
is_completed completed = true
is_completed _ = false

abbrev pub is_compensating : SagaStatus → Bool
is_compensating compensating = true
is_compensating _ = false

module _ (P : Type 0) where
  -- The `compensation` of a step.
  pub record Rollback : Type 0 where
    pub action : String
    pub payload : P

  -- A step as a caller defines it, without status, result and error.
  pub record StepDefinition : Type 0 where
    pub step_id : String
    pub service : String
    pub action : String
    pub payload : P
    pub compensation : Option Rollback

  pub record SagaStep : Type 0 where
    pub definition : StepDefinition
    pub status : SagaStatus
    pub result : Option P
    pub error : Option String

  pub record SagaState : Type 0 where
    pub saga_id : String
    pub transaction_type : String
    pub steps : List SagaStep
    pub current_step : ℕ
    pub status : SagaStatus
    pub created_at : ℕ
    pub completed_at : Option ℕ

  pub record StepOutcome : Type 0 where
    pub next_step : Option SagaStep
    pub completed : Bool

abbrev pub saga_key : String → String
saga_key saga_id = text_append "saga:" saga_id

module _ {P : Type 0} where
  abbrev pub fresh_step : StepDefinition P → SagaStep P
  fresh_step d = record { definition = d; status = pending; result = none; error = none }

  abbrev pub complete_step : P → SagaStep P → SagaStep P
  complete_step result step = record step { status = completed; result = some result }

  abbrev pub fail_step_with : String → SagaStep P → SagaStep P
  fail_step_with error step = record step { status = failed; error = some error }

  abbrev pub compensate_step : SagaStep P → SagaStep P
  compensate_step step = record step { status = compensating }

  abbrev pub settle_step : SagaStep P → SagaStep P
  settle_step step =
      if is_compensating step.status then record step { status = compensated } else step

  -- The saga that `createSaga` stores.
  pub new_saga : String → String → List (StepDefinition P) → ℕ → SagaState P
  new_saga saga_id transaction_type definitions now = record {
    saga_id = saga_id;
    transaction_type = transaction_type;
    steps = map fresh_step definitions;
    current_step = 0;
    status = pending;
    created_at = now;
    completed_at = none;
  }

  -- What `executeStep` does to the saga, and its answer.
  pub advance : P → ℕ → SagaState P → SagaState P × StepOutcome P
  advance result now saga =
      let steps = update_at saga.steps saga.current_step (complete_step result) in
      let next = saga.current_step + 1 in
      if leb (length steps) next
      then (
        record saga {
          steps = steps;
          current_step = next;
          status = completed;
          completed_at = some now;
        },
        record { next_step = none; completed = true },
      )
      else (
        record saga { steps = steps; current_step = next },
        record { next_step = get_elem? steps next; completed = false },
      )

  -- What `failStep` does to the saga.
  pub fail_current : String → SagaState P → SagaState P
  fail_current error saga = record saga {
    steps = update_at saga.steps saga.current_step (fail_step_with error);
    status = compensating;
  }

  -- A step that `compensate` rolls back.
  abbrev pub is_compensable : SagaStep P → Bool
  is_compensable step = is_completed step.status && is_some step.definition.compensation

  -- The loop of `compensate`, at index `i - 1` and down: the steps, and those to roll back so far.
  compensate_below :
      ℕ → List (SagaStep P) → List (SagaStep P) → Outcome (List (SagaStep P) × List (SagaStep P))
  compensate_below zero steps found = returned (steps, found)
  compensate_below (suc i) steps found = elim (get_elem? steps i) [
    | none ↦ thrown (failure "Cannot read properties of undefined (reading 'status')")
    | some step ↦ elim (is_compensable step) [
      | true ↦
          compensate_below i (update_at steps i compensate_step)
            (found ++ compensate_step step ∷ [])
      | false ↦ compensate_below i steps found
    ]
  ]

  -- What `compensate` does to the saga, and its answer.
  pub roll_back : SagaState P → Outcome (SagaState P × List (SagaStep P))
  roll_back saga = compensate_below saga.current_step saga.steps [] >>= λ (steps, found).
      returned (record saga { steps = steps }, found)

  -- What `markCompensated` does to the saga.
  pub settle : SagaState P → SagaState P
  settle saga = record saga { steps = map settle_step saga.steps; status = compensated }

  module _ {S : Type 0} (client : Client S (SagaState P)) where
    pub get_saga : String → S → Outcome (Option (SagaState P))
    get_saga saga_id s = Redis.get client (saga_key saga_id) s

    -- The service's answer, `false` after an exception of the client, is not looked at.
    save_saga : SagaState P → S → Outcome (Unit {0}) × S
    save_saga saga s =
        let (stored, s') = Redis.set client (saga_key saga.saga_id) saga (some 3600) s in
        (stored >>= λ _. returned tt, s')

    abbrev after_save : {A : Type 0} → A → Outcome (Unit {0}) × S → Outcome A × S
    after_save a (saved, s) = (saved >>= λ _. returned a, s)

    pub create_saga : String → String → List (StepDefinition P) → ℕ → S → Outcome String × S
    create_saga saga_id transaction_type definitions now s =
        after_save saga_id (save_saga (new_saga saga_id transaction_type definitions now) s)

    -- `if (!saga) throw …`, and then the rest of the method.
    with_saga :
        {A : Type 0}
        → String
        → Outcome (Option (SagaState P))
        → (SagaState P → S → Outcome A × S)
        → S
        → Outcome A × S
    with_saga saga_id (returned none) rest s =
        (thrown (failure (text_append "Saga not found: " saga_id)), s)
    with_saga saga_id (returned (some saga)) rest s = rest saga s
    with_saga saga_id (thrown e) rest s = (thrown e, s)
    with_saga saga_id unfinished rest s = (unfinished, s)

    pub execute_step : String → P → ℕ → S → Outcome (StepOutcome P) × S
    execute_step saga_id result now s =
        with_saga saga_id (get_saga saga_id s)
          (λ saga t.
            let (saga', answer) = advance result now saga in after_save answer (save_saga saga' t))
          s

    pub fail_step : String → String → S → Outcome (Unit {0}) × S
    fail_step saga_id error s =
        with_saga saga_id (get_saga saga_id s) (λ saga t. save_saga (fail_current error saga) t) s

    save_rolled_back :
        Outcome (SagaState P × List (SagaStep P)) → S → Outcome (List (SagaStep P)) × S
    save_rolled_back (returned (saga, found)) s = after_save found (save_saga saga s)
    save_rolled_back (thrown e) s = (thrown e, s)
    save_rolled_back unfinished s = (unfinished, s)

    pub compensate : String → S → Outcome (List (SagaStep P)) × S
    compensate saga_id s =
        with_saga saga_id (get_saga saga_id s) (λ saga t. save_rolled_back (roll_back saga) t) s

    pub mark_compensated : String → S → Outcome (Unit {0}) × S
    mark_compensated saga_id s =
        with_saga saga_id (get_saga saga_id s) (λ saga t. save_saga (settle saga) t) s
