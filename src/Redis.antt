-- ===== src/Redis.antt =====
-- libs/redis/src/redis.service.ts: the operations on single keys. The client of the `ioredis`
-- package is the parameter `Client`, over its own state `S`. Its texts are JSON, and stand here for
-- the values `V` that they encode, since `JSON.parse` undoes `JSON.stringify` on JSON values.
pub mod Memory
use heidi_microservices.Common.{
  ℕ, zero, suc, ◌≡◌, ◌≢◌, refl, Bool, true, false, Option, none, some, String, ◌==◌,
}
use heidi_microservices.Common.Outcome.{
  Exception, Outcome, returned, thrown, unfinished, catch_with, ◌>>=◌,
}

pub record Client (S : Type 0) (V : Type 0) : Type 0 where
  pub get : String → S → Outcome (Option V)
  pub setex : String → ℕ → V → S → Outcome (Unit {0}) × S
  pub set : String → V → S → Outcome (Unit {0}) × S
  pub del : String → S → Outcome ℕ × S
  pub exists : String → S → Outcome ℕ
  pub expire : String → ℕ → S → Outcome ℕ × S

module _ {S V : Type 0} (client : Client S V) where
  unfoldable pub get : String → S → Outcome (Option V)
  get key s = catch_with none (client.get key s)

  -- The answer of a write that logs an exception and reports it as `false`.
  abbrev succeeded : {A : Type 0} → (A → Bool) → Outcome A × S → Outcome Bool × S
  succeeded ok (m, s) = (catch_with false (m >>= λ a. returned (ok a)), s)

  -- A `ttl` of zero is falsy, and so is an absent one.
  unfoldable pub set : String → V → Option ℕ → S → Outcome Bool × S
  set key value none s = succeeded (λ _. true) (client.set key value s)
  set key value (some zero) s = succeeded (λ _. true) (client.set key value s)
  set key value (some (suc n)) s = succeeded (λ _. true) (client.setex key (suc n) value s)

  -- If the client answers, be it with an exception, the service returns.
  pub set_returns :
      (key : String) (value : V) (n : ℕ) (s : S)
      → (client.setex key (suc n) value s).0 ≢ unfinished
      → (b : Bool) × ((set key value (some (suc n)) s).0 ≡ returned b)
  unfolding set
  set_returns key value n s h = settle (client.setex key (suc n) value s) h
    where
      settle :
          (r : Outcome (Unit {0}) × S)
          → r.0 ≢ unfinished
          → (b : Bool) × ((succeeded (λ _. true) r).0 ≡ returned b)
      settle (returned a, t) h = (true, refl)
      settle (thrown e, t) h = (false, refl)
      settle (unfinished, t) h = absurd (h refl)

  -- A write of the client that succeeds, and the state that any write leaves.
  pub set_succeeds :
      (key : String) (value : V) (n : ℕ) (s : S)
      → (client.setex key (suc n) value s).0 ≡ returned tt
      → (set key value (some (suc n)) s).0 ≡ returned true
  unfolding set
  set_succeeds key value n s h = rw h

  pub set_fails :
      (key : String) (value : V) (n : ℕ) (s : S) {e : Exception}
      → (client.setex key (suc n) value s).0 ≡ thrown e
      → (set key value (some (suc n)) s).0 ≡ returned false
  unfolding set
  set_fails key value n s h = rw h

  pub set_state :
      (key : String) (value : V) (n : ℕ) (s : S)
      → (set key value (some (suc n)) s).1 ≡ (client.setex key (suc n) value s).1
  unfolding set
  set_state key value n s = refl

  pub get_returns :
      (key : String) (s : S) {found : Option V}
      → client.get key s ≡ returned found
      → get key s ≡ returned found
  unfolding get
  get_returns key s h = rw h

  unfoldable pub del : String → S → Outcome Bool × S
  del key s = succeeded (λ _. true) (client.del key s)

  pub del_state : (key : String) (s : S) → (del key s).1 ≡ (client.del key s).1
  unfolding del
  del_state key s = refl

  pub exists : String → S → Outcome Bool
  exists key s = catch_with false (client.exists key s >>= λ n. returned (n == 1))

  pub expire : String → ℕ → S → Outcome Bool × S
  expire key seconds s = succeeded (λ n. n == 1) (client.expire key seconds s)

-- What the callers rely on: a value that was set with a time to live is read back until it expires
-- or is overwritten, and other keys keep theirs. `Alive s k v` says that `k` holds `v` in `s`.
pub record IsStore {S V : Type 0} (client : Client S V) : Type 1 where
  pub Alive : S → String → V → Type 0
  pub get_alive : (s : S) (k : String) (v : V) → Alive s k v → client.get k s ≡ returned (some v)
  pub setex_alive :
      (s : S) (k : String) (n : ℕ) (v : V)
      → (client.setex k n v s).0 ≡ returned tt
      → Alive (client.setex k n v s).1 k v

-- What the callers rely on that delete a key: it is gone.
pub record IsErasing {S V : Type 0} (client : Client S V) : Type 0 where
  pub del_gone :
      (s : S) (k : String) (n : ℕ)
      → (client.del k s).0 ≡ returned n
      → client.get k (client.del k s).1 ≡ returned none

-- A write that succeeds is read back through the service.
pub get-set :
    {S V : Type 0} (client : Client S V) (store : IsStore client) (key : String) (value : V) (n : ℕ)
    (s : S)
    → (client.setex key (suc n) value s).0 ≡ returned tt
    → get client key (set client key value (some (suc n)) s).1 ≡ returned (some value)
get-set client store key value n s h = rw (set_state client key value n s) (
    get_returns client key (client.setex key (suc n) value s).1 (
      store.get_alive (client.setex key (suc n) value s).1 key value
        (store.setex_alive s key (suc n) value h)))
