-- ===== src/Tests/Server.antt =====
-- A server of Redis that keeps everything it is given, and the parts of its state in view.
use mquery_fcs.Prelude.{
  ℕ, suc, str_eq, eq_iff, if◌then◌else◌, String, Option, none, some, List, [], ◌∷◌, ◌++◌, ◌≡◌, ◌≢◌,
  refl, ap, Bool-cases, inl, inr, arith,
}
use mquery_fcs.Rdb.Laws.{Reliable}
use mquery_fcs.Rdb.{Query, Reply, Redis}
use mquery_fcs.Result.{ConcResult}
use text.Mathlib.TextPositions.{eq_refl}

pub record Store : Type 0 where
  pub queue : List Query
  pub subscribed : List String
  pub results : List (String × ConcResult String)

abbrev occurrences : String → List String → ℕ
occurrences c [] = 0
occurrences c (d ∷ ds) = let rest = occurrences c ds in if str_eq d c then suc rest else rest

abbrev without : String → List String → List String
without c [] = []
without c (d ∷ ds) = let rest = without c ds in if str_eq d c then ds else d ∷ rest

abbrev lookup : String → List (String × ConcResult String) → Option (ConcResult String)
lookup c [] = none
lookup c ((k, v) ∷ m) = let rest = lookup c m in if str_eq k c then some v else rest

abbrev popped_reply : List Query → Reply Query
popped_reply [] = record { val = none; err = some "redis: nil" }
popped_reply (q ∷ qs) = record { val = some q; err = none }

abbrev rest_of : List Query → List Query
rest_of [] = []
rest_of (q ∷ qs) = qs

abbrev found_reply : Option (ConcResult String) → Reply (ConcResult String)
found_reply none = record { val = none; err = some "redis: nil" }
found_reply (some v) = record { val = some v; err = none }

abbrev pub server : Redis Store String
server = record {
  subscribe = λ c r. record r { subscribed = c ∷ r.subscribed };
  close = λ c r. record r { subscribed = without c r.subscribed };
  num_sub = λ r c. record { val = some (occurrences c r.subscribed); err = none };
  l_push = λ key q r. (none, record r { queue = r.queue ++ q ∷ [] });
  r_pop = λ key r. (popped_reply r.queue, record r { queue = rest_of r.queue });
  set = λ k v r. record r { results = (k, v) ∷ r.results };
  get = λ r k. found_reply (lookup k r.results);
  publish = λ c m r. (none, r);
}

pub other-key :
    (k c : String) (v : ConcResult String) (m : List (String × ConcResult String))
    → c ≢ k
    → lookup c ((k, v) ∷ m) ≡ lookup c m
other-key k c v m n = elim (Bool-cases (str_eq k c)) [
  | inl t ↦ absurd (n (ground (arith, eq_iff k c, t)))
  | inr f ↦ rw (lookup, f) refl
]

pub other-channel :
    (c d : String) (l : List String) → d ≢ c → occurrences d (c ∷ l) ≡ occurrences d l
other-channel c d l n = elim (Bool-cases (str_eq c d)) [
  | inl t ↦ absurd (n (ground (arith, eq_iff c d, t)))
  | inr f ↦ rw (occurrences, f) refl
]

abbrev pub server-Reliable : Reliable server
server-Reliable = record {
  waiting = λ r. r.queue;
  subs = λ r c. occurrences c r.subscribed;
  stored = λ r c. lookup c r.results;
  push_reply = λ q r. refl;
  waiting_push = λ q r. refl;
  subs_push = λ q r c. refl;
  stored_push = λ q r c. refl;
  pop_empty = λ r w. ap (λ l. (popped_reply l).val) w;
  pop_oldest = λ r q qs w. ap popped_reply w;
  waiting_pop_empty = λ r w. ap rest_of w;
  waiting_pop = λ r q qs w. ap rest_of w;
  subs_pop = λ r c. refl;
  stored_pop = λ r c. refl;
  num_sub_reply = λ r c. refl;
  get_reply = λ r c v e. ap found_reply e;
  waiting_set = λ k v r. refl;
  subs_set = λ k v r c. refl;
  stored_set = λ k v r. rw (lookup, eq_refl k) refl;
  stored_set_other = λ k v r c n. other-key k c v r.results n;
  publish_reply = λ c m r. refl;
  waiting_publish = λ c m r. refl;
  subs_publish = λ c m r d. refl;
  stored_publish = λ c m r d. refl;
  waiting_subscribe = λ c r. refl;
  subs_subscribe = λ c r. rw (occurrences, eq_refl c) refl;
  subs_subscribe_other = λ c r d n. other-channel c d r.subscribed n;
  stored_subscribe = λ c r d. refl;
  waiting_close = λ c r. refl;
  stored_close = λ c r d. refl;
}
