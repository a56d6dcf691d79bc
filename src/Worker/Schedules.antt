-- ===== src/Worker/Schedules.antt =====
-- Clients and workers on one server, in any order of their steps.
use mathlib.Core.List.{Memᴰ}
use mquery_fcs.Prelude.{
  ltb, ltb→lt, str_eq, eq_iff, String, false, none, some, List, [], ◌∷◌, ◌++◌, ◌≡◌, ◌≢◌, refl, ap,
  sym, ◌∙◌, inl, inr, Bool-cases, arith,
}
use mquery_fcs.Rdb.{
  ConcQueryArgs, Query, Adapter, Sent, not_queued, queued, publish_query, channel_of,
  default_queue_key, transmitted, channel_of,
}
use mquery_fcs.Rdb.Laws.{Reliable}
use mquery_fcs.Result.{ConcResult}
use mquery_fcs.Worker.{try_next_query}
use mquery_fcs.Worker.Serving.{
  answered_server, turn_listened, turn_unheard, turn_idle, answered-Served,
}

-- A step: a client publishes a query under a new identifier, a worker takes its turn, or a client
-- stops listening.
pub data Act : Type 0 where
  ask : String → String → ConcQueryArgs → Act
  turn : Act
  leave : String → Act

abbrev pub server_of : {R : Type 0} → Sent R → R
server_of (not_queued e r) = r
server_of (queued e r) = r

module _ {R L : Type 0} (a : Adapter R L) (answer : ConcQueryArgs → ConcResult L)
    (id : String) where
  unfoldable pub act : Act → R → R
  act (ask name func args) r = server_of (publish_query a name func args r)
  act turn r = (try_next_query a answer id r []).server
  act (leave c) r = a.redis.close c r

  unfoldable pub run : List Act → R → R
  run [] r = r
  run (x ∷ xs) r = run xs (act x r)

  -- The queries that are published, the last one first, before those of `h`.
  unfoldable pub asked : List Act → List Query → List Query
  asked [] h = h
  asked (ask name func args ∷ xs) h =
      asked xs (record { channel = channel_of a name; func = func; args = args } ∷ h)
  asked (turn ∷ xs) h = asked xs h
  asked (leave c ∷ xs) h = asked xs h

  abbrev pub AllIn : List Query → List Query → Type 0
  AllIn h [] = Unit
  AllIn h (q ∷ qs) = Memᴰ q h × AllIn h qs

  -- The result is the answer to a query of `h` that was asked on the channel.
  abbrev pub Answers : List Query → String → ConcResult L → Type 0
  Answers h c v = (q : Query) × Memᴰ q h × (q.channel ≡ c) × (v ≡ transmitted (answer q.args))

  AllIn-push :
      (h : List Query) (q : Query) (qs : List Query) → AllIn h qs → AllIn (q ∷ h) (qs ++ q ∷ [])
  AllIn-push h q [] i = (Memᴰ.head refl, tt)
  AllIn-push h q (p ∷ qs) i = (Memᴰ.tail i.0, AllIn-push h q qs i.1)

  some-injective : {x y : ConcResult L} → some x ≡ some y → x ≡ y
  some-injective h = cc

  module _ (law : Reliable a.redis) where
    record Inv (h : List Query) (r : R) : Type 0 where
      waiting : AllIn h (law.waiting r)
      stored : (c : String) (v : ConcResult L) → law.stored r c ≡ some v → Answers h c v

    -- A server with the same results, and with queries that were asked.
    same-Inv :
        (h : List Query) (r s : R) (ws : List Query)
        → law.waiting s ≡ ws
        → AllIn h ws
        → ((c : String) → law.stored s c ≡ law.stored r c)
        → ((c : String) (v : ConcResult L) → law.stored r c ≡ some v → Answers h c v)
        → Inv h s
    same-Inv h r s ws w k e old = record {
      waiting = rw w k;
      stored = λ c v q. old c v (sym (e c) ∙ q);
    }

    server_of-ask :
        (name func : String) (args : ConcQueryArgs) (r : R)
        → let q : Query = record { channel = channel_of a name; func = func; args = args } in
          let s = a.redis.subscribe (channel_of a name) r in
          act (ask name func args) r
          ≡ (a.redis.publish a.channel_query "newQuery" (a.redis.l_push default_queue_key q s).1).1
    unfolding act publish_query
    server_of-ask name func args r =
        rw (law.push_reply _ (a.redis.subscribe (channel_of a name) r)) refl

    ask-Inv :
        (name func : String) (args : ConcQueryArgs) (h : List Query) (r : R)
        → Inv h r
        → Inv
            (record { channel = channel_of a name; func = func; args = args } ∷ h)
            (act (ask name func args) r)
    ask-Inv name func args h r i =
        let q : Query = record { channel = channel_of a name; func = func; args = args } in
        let s = a.redis.subscribe q.channel r in
        let p = (a.redis.l_push default_queue_key q s).1 in
        let e = server_of-ask name func args r in
        same-Inv (q ∷ h) r (act (ask name func args) r) (law.waiting r ++ q ∷ [])
          (ap law.waiting e
            ∙ law.waiting_publish a.channel_query "newQuery" p
            ∙ law.waiting_push q s
            ∙ ap (λ l. l ++ q ∷ []) (law.waiting_subscribe q.channel r))
          (AllIn-push h q (law.waiting r) i.waiting)
          (λ c.
            ap (λ t. law.stored t c) e
            ∙ law.stored_publish a.channel_query "newQuery" p c
            ∙ law.stored_push q s c
            ∙ law.stored_subscribe q.channel r c)
          (λ c v k. let b = i.stored c v k in (b.0, Memᴰ.tail b.1, b.2, b.3))

    work-Answers :
        (q : Query) (qs h : List Query) (r : R)
        → law.waiting r ≡ q ∷ qs
        → Memᴰ q h
        → Inv h r
        → (c : String) (v : ConcResult L)
        → law.stored (answered_server a answer id law q r) c ≡ some v
        → Answers h c v
    work-Answers q qs h r w m i c v e =
        let k = answered-Served a answer id law r q qs w in
        elim (Bool-cases (str_eq c q.channel)) [
          | inl t ↦
              let same : c ≡ q.channel = (eq_iff c q.channel).0 t in
              (
                q,
                m,
                sym same,
                sym (
                    some-injective (
                      sym k.answer_stored
                      ∙ ap (law.stored (answered_server a answer id law q r)) (sym same)
                      ∙ e)),
              )
          | inr f ↦ i.stored c v (sym (k.others c (different c q.channel f)) ∙ e)
        ]
      where
        different : (c d : String) → str_eq c d ≡ false → c ≢ d
        different c d f e = ground (arith, eq_iff c d, f, e)

    turn-Inv : (ws h : List Query) (r : R) → law.waiting r ≡ ws → Inv h r → Inv h (act turn r)
    unfolding act
    turn-Inv [] h r w i =
        let e = turn_idle a answer id law r [] w in
        same-Inv h r (act turn r) [] (ap law.waiting e ∙ law.waiting_pop_empty r w) tt
          (λ c. ap (λ t. law.stored t c) e ∙ law.stored_pop r c) i.stored
    turn-Inv (q ∷ qs) h r w i =
        let k : AllIn h (q ∷ qs) = rw w at i.waiting in
        elim (Bool-cases (ltb 0 (law.subs r q.channel))) [
          | inl t ↦
              let e = turn_listened a answer id law r [] q qs w (ltb→lt 0 _ t) in
              same-Inv h (answered_server a answer id law q r) (act turn r) qs
                (ap law.waiting e ∙ (answered-Served a answer id law r q qs w).waiting) k.1
                (λ c. ap (λ t. law.stored t c) e) (work-Answers q qs h r w k.0 i)
          | inr f ↦
              let e = turn_unheard a answer id law r [] q qs w (ground arith) in
              same-Inv h r (act turn r) qs (ap law.waiting e ∙ law.waiting_pop r q qs w) k.1
                (λ c. ap (λ t. law.stored t c) e ∙ law.stored_pop r c) i.stored
        ]

    leave-Inv : (c : String) (h : List Query) (r : R) → Inv h r → Inv h (act (leave c) r)
    unfolding act
    leave-Inv c h r i =
        same-Inv h r (a.redis.close c r) (law.waiting r) (law.waiting_close c r) i.waiting
          (law.stored_close c r) i.stored

    run-Inv : (xs : List Act) (h : List Query) (r : R) → Inv h r → Inv (asked xs h) (run xs r)
    unfolding run asked
    run-Inv [] h r i = i
    run-Inv (ask name func args ∷ xs) h r i = run-Inv xs _ _ (ask-Inv name func args h r i)
    run-Inv (turn ∷ xs) h r i = run-Inv xs h _ (turn-Inv (law.waiting r) h r refl i)
    run-Inv (leave c ∷ xs) h r i = run-Inv xs h _ (leave-Inv c h r i)

    -- On a reliable server that starts without queries and results, whatever clients and workers do in
    -- whatever order: a result stored under a channel is the answer, as it is transmitted, to a query
    -- that was asked on this channel.
    pub run-Answers :
        (xs : List Act) (r : R)
        → law.waiting r ≡ []
        → ((c : String) → law.stored r c ≡ none)
        → (c : String) (v : ConcResult L) → law.stored (run xs r) c ≡ some v
        → Answers (asked xs []) c v
    run-Answers xs r w e =
        (run-Inv xs [] r (record {
          waiting = rw w tt;
          stored = λ c v k. absurd (none≢some (sym (e c) ∙ k));
        })).stored
      where
        none≢some : {v : ConcResult L} → none ≢ some v
        none≢some h = cc
