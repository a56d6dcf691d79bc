-- ===== src/Rdb/Laws.antt =====
-- What the adapter and the workers rely on: a Redis server that replies without errors, as long as
-- nothing expires.
use mquery_fcs.Prelude.{ℕ, suc, String, Option, none, some, List, [], ◌∷◌, ◌++◌, ◌≡◌, ◌≢◌}
use mquery_fcs.Rdb.{Query, Redis, default_queue_key}
use mquery_fcs.Result.{ConcResult}

-- The queries in the order in which they are popped, the subscribers of a channel, and the result
-- stored under a key; and what each command does to them.
pub record Reliable {R L : Type 0} (redis : Redis R L) : Type 0 where
  pub waiting : R → List Query
  pub subs : R → String → ℕ
  pub stored : R → String → Option (ConcResult L)
  pub push_reply : (q : Query) (r : R) → (redis.l_push default_queue_key q r).0 ≡ none
  pub waiting_push :
      (q : Query) (r : R) → waiting (redis.l_push default_queue_key q r).1 ≡ waiting r ++ q ∷ []
  pub subs_push :
      (q : Query) (r : R) (c : String) → subs (redis.l_push default_queue_key q r).1 c ≡ subs r c
  pub stored_push :
      (q : Query) (r : R) (c : String)
      → stored (redis.l_push default_queue_key q r).1 c ≡ stored r c
  pub pop_empty : (r : R) → waiting r ≡ [] → (redis.r_pop default_queue_key r).0.val ≡ none
  pub pop_oldest :
      (r : R) (q : Query) (qs : List Query)
      → waiting r ≡ q ∷ qs
      → (redis.r_pop default_queue_key r).0 ≡ record { val = some q; err = none }
  pub waiting_pop_empty :
      (r : R) → waiting r ≡ [] → waiting (redis.r_pop default_queue_key r).1 ≡ []
  pub waiting_pop :
      (r : R) (q : Query) (qs : List Query)
      → waiting r ≡ q ∷ qs
      → waiting (redis.r_pop default_queue_key r).1 ≡ qs
  pub subs_pop : (r : R) (c : String) → subs (redis.r_pop default_queue_key r).1 c ≡ subs r c
  pub stored_pop : (r : R) (c : String) → stored (redis.r_pop default_queue_key r).1 c ≡ stored r c
  pub num_sub_reply :
      (r : R) (c : String) → redis.num_sub r c ≡ record { val = some (subs r c); err = none }
  pub get_reply :
      (r : R) (c : String) (v : ConcResult L)
      → stored r c ≡ some v
      → redis.get r c ≡ record { val = some v; err = none }
  pub waiting_set : (k : String) (v : ConcResult L) (r : R) → waiting (redis.set k v r) ≡ waiting r
  pub subs_set :
      (k : String) (v : ConcResult L) (r : R) (c : String) → subs (redis.set k v r) c ≡ subs r c
  pub stored_set : (k : String) (v : ConcResult L) (r : R) → stored (redis.set k v r) k ≡ some v
  pub stored_set_other :
      (k : String) (v : ConcResult L) (r : R) (c : String)
      → c ≢ k
      → stored (redis.set k v r) c ≡ stored r c
  pub publish_reply : (c m : String) (r : R) → (redis.publish c m r).0 ≡ none
  pub waiting_publish : (c m : String) (r : R) → waiting (redis.publish c m r).1 ≡ waiting r
  pub subs_publish : (c m : String) (r : R) (d : String) → subs (redis.publish c m r).1 d ≡ subs r d
  pub stored_publish :
      (c m : String) (r : R) (d : String) → stored (redis.publish c m r).1 d ≡ stored r d
  pub waiting_subscribe : (c : String) (r : R) → waiting (redis.subscribe c r) ≡ waiting r
  pub subs_subscribe : (c : String) (r : R) → subs (redis.subscribe c r) c ≡ suc (subs r c)
  pub subs_subscribe_other :
      (c : String) (r : R) (d : String) → d ≢ c → subs (redis.subscribe c r) d ≡ subs r d
  pub stored_subscribe :
      (c : String) (r : R) (d : String) → stored (redis.subscribe c r) d ≡ stored r d
  pub waiting_close : (c : String) (r : R) → waiting (redis.close c r) ≡ waiting r
  pub stored_close : (c : String) (r : R) (d : String) → stored (redis.close c r) d ≡ stored r d
