-- ===== src/Worker/Serving.antt =====
-- Turns of a worker on a reliable server.
use mquery_fcs.Prelude.{
  ℕ, zero, suc, ◌<◌, ◌≤◌, ltb, lt→ltb, String, true, some, List, [], ◌∷◌, length, ◌≡◌, ◌≢◌, refl,
  ap, ◌∙◌, arith,
}
use mquery_fcs.Rdb.{
  ConcQueryArgs, Query, Adapter, default_queue_key, dequeue_query, someone_listens, publish_result,
  transmitted,
}
use mquery_fcs.Rdb.Laws.{Reliable}
use mquery_fcs.Result.{ConcResult}
use mquery_fcs.Worker.{JobLog, try_next_query}

module _ {R L : Type 0} (a : Adapter R L) (answer : ConcQueryArgs → ConcResult L) (id : String)
    (law : Reliable a.redis) where
  -- The server after the oldest query is popped and answered.
  abbrev pub answered_server : Query → R → R
  answered_server q r =
      (publish_result a q.channel (answer q.args) (a.redis.r_pop default_queue_key r).1).1

  pub turn_listened :
      (r : R) (logs : List JobLog) (q : Query) (qs : List Query)
      → law.waiting r ≡ q ∷ qs
      → 0 < law.subs r q.channel
      → (try_next_query a answer id r logs).server ≡ answered_server q r
  unfolding try_next_query dequeue_query someone_listens
  turn_listened r logs q qs w l =
      let p = a.redis.r_pop default_queue_key r in
      let n : ltb 0 (law.subs p.1 q.channel) ≡ true =
        rw (law.subs_pop r q.channel) (lt→ltb 0 _ l) in
      rw (law.pop_oldest r q qs w, law.num_sub_reply p.1 q.channel, n) refl

  pub turn_unheard :
      (r : R) (logs : List JobLog) (q : Query) (qs : List Query)
      → law.waiting r ≡ q ∷ qs
      → law.subs r q.channel ≡ 0
      → (try_next_query a answer id r logs).server ≡ (a.redis.r_pop default_queue_key r).1
  unfolding try_next_query dequeue_query someone_listens
  turn_unheard r logs q qs w l =
      let p = a.redis.r_pop default_queue_key r in
      rw (law.pop_oldest r q qs w, law.num_sub_reply p.1 q.channel, law.subs_pop r q.channel, l)
        refl

  pub turn_idle :
      (r : R) (logs : List JobLog)
      → law.waiting r ≡ []
      → (try_next_query a answer id r logs).server ≡ (a.redis.r_pop default_queue_key r).1
  unfolding try_next_query dequeue_query
  turn_idle r logs w = rw (law.pop_empty r w) refl

  -- What a turn does that answers a query.
  pub record Served (r : R) (q : Query) (qs : List Query) (s : R) : Type 0 where
    pub waiting : law.waiting s ≡ qs
    pub answer_stored : law.stored s q.channel ≡ some (transmitted (answer q.args))
    pub others : (c : String) → c ≢ q.channel → law.stored s c ≡ law.stored r c
    pub subs : (c : String) → law.subs s c ≡ law.subs r c

  pub answered-Served :
      (r : R) (q : Query) (qs : List Query)
      → law.waiting r ≡ q ∷ qs
      → Served r q qs (answered_server q r)
  unfolding publish_result
  answered-Served r q qs w =
      let v = transmitted (answer q.args) in
      let p = (a.redis.r_pop default_queue_key r).1 in
      let t = a.redis.set q.channel v p in
      record {
        waiting =
            law.waiting_publish q.channel q.channel t
            ∙ law.waiting_set q.channel v p
            ∙ law.waiting_pop r q qs w;
        answer_stored =
            law.stored_publish q.channel q.channel t q.channel ∙ law.stored_set q.channel v p;
        others = λ c d.
            law.stored_publish q.channel q.channel t c
            ∙ law.stored_set_other q.channel v p c d
            ∙ law.stored_pop r c;
        subs = λ c.
            law.subs_publish q.channel q.channel t c
            ∙ law.subs_set q.channel v p c
            ∙ law.subs_pop r c;
      }

  -- So many turns, one after the other.
  unfoldable pub turns : ℕ → R → List JobLog → R
  turns zero r logs = r
  turns (suc k) r logs = let t = try_next_query a answer id r logs in turns k t.server t.logs

  abbrev pub Heard : R → List Query → Type 0
  Heard r [] = Unit
  Heard r (q ∷ qs) = (0 < law.subs r q.channel) × Heard r qs

  -- No query of the list has the channel.
  abbrev pub Apart : String → List Query → Type 0
  Apart c [] = Unit
  Apart c (q ∷ qs) = (c ≢ q.channel) × Apart c qs

  abbrev pub OwnChannels : List Query → Type 0
  OwnChannels [] = Unit
  OwnChannels (q ∷ qs) = Apart q.channel qs × OwnChannels qs

  abbrev pub AllAnswered : R → List Query → Type 0
  AllAnswered s [] = Unit
  AllAnswered s (q ∷ qs) =
      (law.stored s q.channel ≡ some (transmitted (answer q.args))) × AllAnswered s qs

  Heard-subs :
      (r s : R) (qs : List Query)
      → ((c : String) → law.subs s c ≡ law.subs r c)
      → Heard r qs
      → Heard s qs
  Heard-subs r s [] e h = tt
  Heard-subs r s (q ∷ qs) e h = (rw (e q.channel) h.0, Heard-subs r s qs e h.1)

  turn_idle-waiting :
      (r : R) (logs : List JobLog)
      → law.waiting r ≡ []
      → law.waiting (try_next_query a answer id r logs).server ≡ []
  turn_idle-waiting r logs w = ap law.waiting (turn_idle r logs w) ∙ law.waiting_pop_empty r w

  -- A key that no waiting query has keeps its result.
  turns-stored :
      (k : ℕ) (r : R) (logs : List JobLog) (qs : List Query) (c : String)
      → law.waiting r ≡ qs
      → length qs ≤ k
      → Heard r qs
      → Apart c qs
      → law.stored (turns k r logs) c ≡ law.stored r c
  unfolding turns
  turns-stored zero r logs qs c w n h d = refl
  turns-stored (suc k) r logs [] c w n h d =
      let t = try_next_query a answer id r logs in
      turns-stored k t.server t.logs [] c (turn_idle-waiting r logs w) (omega arith) tt tt
      ∙ ap (λ s. law.stored s c) (turn_idle r logs w)
      ∙ law.stored_pop r c
  turns-stored (suc k) r logs (q ∷ qs) c w n h d =
      let e = turn_listened r logs q qs w h.0 in
      let v = answered-Served r q qs w in
      let t = try_next_query a answer id r logs in
      turns-stored k t.server t.logs qs c (ap law.waiting e ∙ v.waiting) (omega (arith, n))
        (Heard-subs r t.server qs (λ b. ap (λ s. law.subs s b) e ∙ v.subs b) h.1) d.1
      ∙ ap (λ s. law.stored s c) e
      ∙ v.others c d.0

  -- On a reliable server, if each waiting query has a channel of its own to which someone listens,
  -- then at least as many turns of a worker as there are queries empty the queue, and each query has
  -- its answer, as it is transmitted, stored under its channel.
  pub turns-AllAnswered :
      (k : ℕ) (qs : List Query) (r : R) (logs : List JobLog)
      → length qs ≤ k
      → law.waiting r ≡ qs
      → Heard r qs
      → OwnChannels qs
      → (law.waiting (turns k r logs) ≡ []) × AllAnswered (turns k r logs) qs
  unfolding turns
  turns-AllAnswered zero [] r logs n w h o = (w, tt)
  turns-AllAnswered zero (q ∷ qs) r logs n w h o = absurd (omega (arith, n))
  turns-AllAnswered (suc k) [] r logs n w h o =
      let t = try_next_query a answer id r logs in
      turns-AllAnswered k [] t.server t.logs (omega arith) (turn_idle-waiting r logs w) tt tt
  turns-AllAnswered (suc k) (q ∷ qs) r logs n w h o =
      let e = turn_listened r logs q qs w h.0 in
      let v = answered-Served r q qs w in
      let t = try_next_query a answer id r logs in
      let w' = ap law.waiting e ∙ v.waiting in
      let h' = Heard-subs r t.server qs (λ b. ap (λ s. law.subs s b) e ∙ v.subs b) h.1 in
      let n' : length qs ≤ k = omega (arith, n) in
      let rest = turns-AllAnswered k qs t.server t.logs n' w' h' o.1 in
      (
        rest.0,
        (
          turns-stored k t.server t.logs qs q.channel w' n' h' o.0
              ∙ ap (λ s. law.stored s q.channel) e
              ∙ v.answer_stored,
          rest.1,
        ),
      )
