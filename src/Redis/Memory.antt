-- ===== src/Redis/Memory.antt =====
-- A client of Redis that keeps its keys in memory and lets none expire.
use heidi_microservices.Common.{
  ℕ, ◌≡◌, ◌≢◌, refl, Option, none, some, String, str_eq, str_eq_refl, is_some, if◌then◌else◌,
}
use heidi_microservices.Common.Outcome.{Outcome, returned, unfinished}
use heidi_microservices.Redis
use heidi_microservices.Redis.{Client, IsStore, IsErasing}

answered_lem : ¬ (Path (Outcome (Unit {0})) (returned tt) unfinished)
answered_lem h = cc

abbrev pub Keys : Type 0 → Type 0
Keys V = String → Option V

module _ {V : Type 0} where
  abbrev pub no_keys : Keys V
  no_keys k = none

  abbrev put : String → V → Keys V → Keys V
  put k v s j = if str_eq j k then some v else s j

  abbrev drop : String → Keys V → Keys V
  drop k s j = if str_eq j k then none else s j

  abbrev found : String → Keys V → ℕ
  found k s = if is_some (s k) then 1 else 0

  abbrev pub memory : Client (Keys V) V
  memory = record {
    get = λ k s. returned (s k);
    setex = λ k n v s. (returned tt, put k v s);
    set = λ k v s. (returned tt, put k v s);
    del = λ k s. (returned (found k s), drop k s);
    exists = λ k s. returned (found k s);
    expire = λ k n s. (returned (found k s), s);
  }

  pub memory-IsStore : IsStore memory
  memory-IsStore = record {
    Alive = λ s k v. s k ≡ some v;
    get_alive = λ s k v h. rw h;
    setex_alive = λ s k n v _. rw (str_eq_refl k);
  }

  pub memory_responsive :
      (k : String) (v : V) (n : ℕ) (s : Keys V) → (memory.setex k n v s).0 ≢ unfinished
  memory_responsive k v n s h = answered_lem h

  pub memory_empty : (k : String) → Redis.get memory k no_keys ≡ returned none
  memory_empty k = Redis.get_returns memory k no_keys refl

  pub memory-IsErasing : IsErasing memory
  memory-IsErasing = record { del_gone = λ s k n h. rw (str_eq_refl k) }
