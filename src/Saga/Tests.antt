-- ===== src/Saga/Tests.antt =====
-- A saga of two steps, of which the first can be undone.
use heidi_microservices.Common.{
  ◌⊎◌, ◌≡◌, refl, false, none, some, List, [], ◌∷◌, map, String, any, arith,
}
use heidi_microservices.Common.Outcome.{Exception, returned, thrown, failure}
use heidi_microservices.Redis.{Client, IsStore}
use heidi_microservices.Redis.Memory.{Keys, no_keys, memory, memory-IsStore}
use heidi_microservices.Saga.{
  pending, compensated, is_compensable, is_compensating, StepDefinition, SagaState, saga_key,
  fresh_step, complete_step, new_saga, create_saga, get_saga, execute_step, fail_step, compensate,
  mark_compensated,
}
use heidi_microservices.Saga.Running.{
  IsRunning, IsFinished, run_steps, only_last, recorded, new_saga-run_steps,
}
use heidi_microservices.Saga.Compensation.{to_undo}
use heidi_microservices.Saga.Stored.{Holds, failure_stored, create_saga_lem}

abbrev reserve : StepDefinition String
reserve = record {
  step_id = "1";
  service = "core";
  action = "reserve";
  payload = "seat";
  compensation = some (record { action = "release"; payload = "seat" });
}

abbrev notify : StepDefinition String
notify = record {
  step_id = "2";
  service = "notification";
  action = "notify";
  payload = "mail";
  compensation = none;
}

-- The saga when its first step is done.
abbrev half_done : SagaState String
half_done = record {
  saga_id = "s1";
  transaction_type = "booking";
  steps = complete_step "ok" (fresh_step reserve) ∷ fresh_step notify ∷ [];
  current_step = 1;
  status = pending;
  created_at = 1000;
  completed_at = none;
}

half_done-IsRunning : IsRunning half_done
half_done-IsRunning = record { within = omega arith; reached = refl; running = refl }

abbrev stored : Keys (SagaState String)
stored = (memory.setex (saga_key "s1") 3600 half_done no_keys).1

half_done_held : Holds memory memory-IsStore stored half_done
half_done_held = memory-IsStore.setex_alive no_keys (saga_key "s1") 3600 half_done refl

abbrev answers : List String
answers = "a" ∷ "b" ∷ []

new_saga-run_steps_example :
    let (end, flags) =
      run_steps 2000 answers (new_saga "s1" "booking" (reserve ∷ notify ∷ []) 1000) in
    IsFinished end × (flags ≡ only_last answers) × (recorded end ≡ map some answers)
new_saga-run_steps_example =
    new_saga-run_steps "s1" "booking" reserve (notify ∷ []) 1000 2000 "a" ("b" ∷ []) refl

failure_stored_example :
    let s1 = (fail_step memory "s1" "no mail server" stored).1 in
    let (undone, s2) = compensate memory "s1" s1 in
    let s3 = (mark_compensated memory "s1" s2).1 in
    (undone ≡ returned (to_undo 1 half_done.steps))
    × ((end : SagaState String) × memory-IsStore.Alive s3 (saga_key "s1") end
        × (any is_compensable end.steps ≡ false)
        × (any (λ step. is_compensating step.status) end.steps ≡ false)
        × (end.status ≡ compensated))
failure_stored_example =
    failure_stored memory memory-IsStore (λ saga s. refl) half_done "no mail server" stored
      half_done_held half_done-IsRunning

-- A client that refuses every write.
abbrev read_only : Client (Keys (SagaState String)) (SagaState String)
read_only = record memory { setex = λ k n v s. (thrown (failure "READONLY"), s) }

read_only-IsStore : IsStore read_only
read_only-IsStore = record {
  Alive = memory-IsStore.Alive;
  get_alive = memory-IsStore.get_alive;
  setex_alive = λ s k n v h. cc;
}

create_saga_lem_example :
    let (answer, after) = create_saga read_only "s1" "booking" (reserve ∷ []) 1000 no_keys in
    (answer ≡ returned "s1")
    × ((((read_only.setex
              (saga_key "s1")
              3600
              (new_saga "s1" "booking" (reserve ∷ []) 1000)
              no_keys).0
            ≡ returned tt)
          × (get_saga read_only "s1" after
              ≡ returned (some (new_saga "s1" "booking" (reserve ∷ []) 1000))))
        ⊎ ((e : Exception) × ((read_only.setex
                (saga_key "s1")
                3600
                (new_saga "s1" "booking" (reserve ∷ []) 1000)
                no_keys).0
              ≡ thrown e)
            × (get_saga read_only "s1" after ≡ returned none)
            × ((execute_step read_only "s1" "ok" 1000 after).0
                ≡ thrown (failure "Saga not found: s1"))))
create_saga_lem_example =
    create_saga_lem read_only read_only-IsStore (λ k n v s e h. refl) "s1" "booking" (reserve ∷ [])
      1000 no_keys "ok" refl (λ h. cc)
