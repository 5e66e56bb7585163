-- ===== src/Saga/Stored.antt =====
-- The saga in the store: what a method reads, it has been handed by the method before.
use heidi_microservices.Common.{
  ℕ, ◌≡◌, ◌≢◌, refl, ◌∙◌, ◌⊎◌, inl, inr, none, text_append, false, some, List, String, any,
}
use heidi_microservices.Common.Outcome.{Outcome, returned, thrown, unfinished, Exception, failure}
use heidi_microservices.Redis
use heidi_microservices.Redis.{Client, IsStore}
use heidi_microservices.Saga.Running.{IsRunning}
use heidi_microservices.Saga.Compensation.{to_undo, rolled_back, fail_current-roll_back-settle}
use heidi_microservices.Saga.{
  compensated, is_compensable, is_compensating, save_rolled_back, StepDefinition, SagaStep,
  SagaState, new_saga, advance, fail_current, roll_back, settle, saga_key, get_saga, save_saga,
  with_saga, create_saga, execute_step, fail_step, compensate, mark_compensated,
}

module _ {P S : Type 0} (client : Client S (SagaState P)) (store : IsStore client) where
  -- The client's write of a saga succeeds.
  abbrev pub Writes : SagaState P → S → Type 0
  Writes saga s = (client.setex (saga_key saga.saga_id) 3600 saga s).0 ≡ returned tt

  save_saga_lem :
      (saga : SagaState P) (s : S)
      → Writes saga s
      → ((save_saga client saga s).0 ≡ returned tt)
        × store.Alive (save_saga client saga s).1 (saga_key saga.saga_id) saga
  unfolding save_saga
  save_saga_lem saga s w = (
    rw (Redis.set_succeeds client (saga_key saga.saga_id) saga 3599 s w),
    rw (Redis.set_state client (saga_key saga.saga_id) saga 3599 s)
        (store.setex_alive s (saga_key saga.saga_id) 3600 saga w),
  )

  -- The store holds the saga under its identifier.
  abbrev pub Holds : S → SagaState P → Type 0
  Holds s saga = store.Alive s (saga_key saga.saga_id) saga

  get_saga_lem :
      (saga : SagaState P) (s : S)
      → Holds s saga
      → get_saga client saga.saga_id s ≡ returned (some saga)
  unfolding get_saga
  get_saga_lem saga s h =
      Redis.get_returns client (saga_key saga.saga_id) s
        (store.get_alive s (saga_key saga.saga_id) saga h)

  -- `executeStep` on a saga that the store holds answers by that saga's next step and leaves the
  -- advanced saga in the store, if the client's write succeeds.
  pub execute_step_lem :
      (saga : SagaState P) (result : P) (now : ℕ) (s : S)
      → Holds s saga
      → Writes (advance result now saga).0 s
      → ((execute_step client saga.saga_id result now s).0 ≡ returned (advance result now saga).1)
        × store.Alive
            (execute_step client saga.saga_id result now s).1
            (saga_key (advance result now saga).0.saga_id)
            (advance result now saga).0
  unfolding execute_step with_saga
  execute_step_lem saga result now s h w =
      let (saved, kept) = save_saga_lem (advance result now saga).0 s w in
      rw (get_saga_lem saga s h) (rw saved, kept)

  fail_step_lem :
      (saga : SagaState P) (error : String) (s : S)
      → Holds s saga
      → Writes (fail_current error saga) s
      → store.Alive
          (fail_step client saga.saga_id error s).1
          (saga_key saga.saga_id)
          (fail_current error saga)
  unfolding fail_step with_saga fail_current
  fail_step_lem saga error s h w =
      rw (get_saga_lem saga s h) ((save_saga_lem (fail_current error saga) s w).1)

  compensate_lem :
      (saga rolled : SagaState P) (undone : List (SagaStep P)) (s : S)
      → Holds s saga
      → roll_back saga ≡ returned (rolled, undone)
      → Writes rolled s
      → ((compensate client saga.saga_id s).0 ≡ returned undone)
        × Holds (compensate client saga.saga_id s).1 rolled
  unfolding compensate with_saga save_rolled_back
  compensate_lem saga rolled undone s h r w =
      let (saved, kept) = save_saga_lem rolled s w in rw (get_saga_lem saga s h, r) (rw saved, kept)

  mark_compensated_lem :
      (saga : SagaState P) (s : S)
      → Holds s saga
      → Writes (settle saga) s
      → Holds (mark_compensated client saga.saga_id s).1 (settle saga)
  unfolding mark_compensated with_saga settle
  mark_compensated_lem saga s h w = rw (get_saga_lem saga s h) ((save_saga_lem (settle saga) s w).1)

  -- The whole way back, through the store: when a step of a running saga that the store holds fails
  -- and all writes succeed, `failStep`, `compensate` and `markCompensated` in turn hand out the
  -- completed steps that have a compensation, the last first, and leave a saga in the store that
  -- counts as compensated and in which no step is completed with a compensation or compensating.
  pub failure_stored :
      ((saga : SagaState P) (s : S) → Writes saga s)
      → (saga : SagaState P) (error : String) (s : S) → Holds s saga
      → IsRunning saga
      → let s1 = (fail_step client saga.saga_id error s).1 in
        let (undone, s2) = compensate client saga.saga_id s1 in
        let s3 = (mark_compensated client saga.saga_id s2).1 in
        (undone ≡ returned (to_undo saga.current_step saga.steps))
        × ((end : SagaState P) × store.Alive s3 (saga_key saga.saga_id) end
            × (any is_compensable end.steps ≡ false)
            × (any (λ step. is_compensating step.status) end.steps ≡ false)
            × (end.status ≡ compensated))
  unfolding fail_current settle
  failure_stored reliable saga error s h run =
      let rolled = rolled_back (fail_current error saga) in
      let (r, a, b, c) = fail_current-roll_back-settle error saga run in
      let s1 = (fail_step client saga.saga_id error s).1 in
      let h1 = fail_step_lem saga error s h (reliable (fail_current error saga) s) in
      let (answer, h2) =
        compensate_lem (fail_current error saga) rolled _ s1 h1 r (reliable rolled s1) in
      (
        answer,
        (settle rolled, mark_compensated_lem rolled _ h2 (reliable (settle rolled) _), a, b, c),
      )

execute_step_unknown :
    {P S : Type 0} (client : Client S (SagaState P)) (i : String) (result : P) (now : ℕ) (s : S)
    → get_saga client i s ≡ returned none
    → (execute_step client i result now s).0 ≡ thrown (failure (text_append "Saga not found: " i))
unfolding execute_step with_saga
execute_step_unknown client i result now s h = rw h

-- Under an identifier that the store does not hold, `createSaga` answers with the identifier whether the
-- client's write succeeds or throws. If it succeeds, the new saga is read back; if it throws, nothing is
-- under the identifier, and `executeStep` on it throws. A write of the client that throws leaves its key
-- as it was.
pub create_saga_lem :
    {P S : Type 0} (client : Client S (SagaState P)) (store : IsStore client)
    → ((k : String) (n : ℕ) (v : SagaState P) (s : S) (e : Exception)
        → (client.setex k n v s).0 ≡ thrown e
        → client.get k (client.setex k n v s).1 ≡ client.get k s)
    → (i t : String) (definitions : List (StepDefinition P)) (now : ℕ) (s : S) (result : P)
    → client.get (saga_key i) s ≡ returned none
    → (client.setex (saga_key i) 3600 (new_saga i t definitions now) s).0 ≢ unfinished
    → let (answer, after) = create_saga client i t definitions now s in
      (answer ≡ returned i)
      × ((((client.setex (saga_key i) 3600 (new_saga i t definitions now) s).0 ≡ returned tt)
            × (get_saga client i after ≡ returned (some (new_saga i t definitions now))))
          ⊎ ((e : Exception) × ((client.setex (saga_key i) 3600 (new_saga i t definitions now) s).0
                ≡ thrown e)
              × (get_saga client i after ≡ returned none)
              × ((execute_step client i result now after).0
                  ≡ thrown (failure (text_append "Saga not found: " i)))))
unfolding create_saga save_saga new_saga get_saga
create_saga_lem {P} {S} client store refused i t definitions now s result fresh ends =
    by_write (client.setex (saga_key i) 3600 saga s).0 refl
  where
    saga : SagaState P
    saga = new_saga i t definitions now

    written : S
    written = (Redis.set client (saga_key i) saga (some 3600) s).1

    same : written ≡ (client.setex (saga_key i) 3600 saga s).1
    same = Redis.set_state client (saga_key i) saga 3599 s

    by_write :
        (m : Outcome (Unit {0}))
        → (client.setex (saga_key i) 3600 saga s).0 ≡ m
        → let (answer, after) = create_saga client i t definitions now s in
          (answer ≡ returned i)
          × ((((client.setex (saga_key i) 3600 saga s).0 ≡ returned tt)
                × (get_saga client i after ≡ returned (some saga)))
              ⊎ ((e : Exception) × ((client.setex (saga_key i) 3600 saga s).0 ≡ thrown e)
                  × (get_saga client i after ≡ returned none)
                  × ((execute_step client i result now after).0
                      ≡ thrown (failure (text_append "Saga not found: " i)))))
    by_write (returned u) h = rw (Redis.set_succeeds client (saga_key i) saga 3599 s h) (
      refl,
      inl (
        h,
        Redis.get_returns client (saga_key i) written (
            store.get_alive written (saga_key i) saga
              (rw same (store.setex_alive s (saga_key i) 3600 saga h))),
      ),
    )
    by_write (thrown e) h =
        let nothing : get_saga client i written ≡ returned none =
          Redis.get_returns client (saga_key i) written
            (rw same (refused (saga_key i) 3600 saga s e h ∙ fresh)) in
        rw (Redis.set_fails client (saga_key i) saga 3599 s h)
          (refl, inr (e, h, nothing, execute_step_unknown client i result now written nothing))
    by_write unfinished h = absurd (ends h)
