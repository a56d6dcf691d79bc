-- ===== src/Worker/RoundTrip.antt =====
-- A query on its way from a handler through the queue and a worker back to the handler.
use mquery_fcs.Prelude.{
  ℕ, suc, ◌<◌, String, none, some, List, [], ◌∷◌, ◌++◌, length, ◌≡◌, ◌≢◌, refl, ap, ◌∙◌, arith,
}
use mquery_fcs.Rdb.{
  ConcQueryArgs, Query, Adapter, publish_query, channel_of, default_queue_key, transmitted,
  received,
}
use mquery_fcs.Rdb.Laws.{Reliable}
use mquery_fcs.Result.{ConcResult}
use mquery_fcs.Worker.Schedules.{server_of}
use mquery_fcs.Worker.Serving.{turns, Heard, Apart, OwnChannels, AllAnswered, turns-AllAnswered}
use mquery_fcs.Worker.{JobLog}

module _ {R L : Type 0} (a : Adapter R L) (answer : ConcQueryArgs → ConcResult L) (id : String)
    (law : Reliable a.redis) where
  -- The query as it is put into the queue.
  abbrev pub query_of : String → String → ConcQueryArgs → Query
  query_of name func args = record { channel = channel_of a name; func = func; args = args }

  -- The server with the query.
  abbrev pub with_query : String → String → ConcQueryArgs → R → R
  with_query name func args r = server_of (publish_query a name func args r)

  record Asked (name func : String) (args : ConcQueryArgs) (r : R) : Type 0 where
    waiting :
        law.waiting (with_query name func args r) ≡ law.waiting r ++ query_of name func args ∷ []
    own : 0 < law.subs (with_query name func args r) (channel_of a name)
    others :
        (c : String)
        → c ≢ channel_of a name
        → law.subs (with_query name func args r) c ≡ law.subs r c

  publish_query-Asked : (name func : String) (args : ConcQueryArgs) (r : R) → Asked name func args r
  unfolding publish_query
  publish_query-Asked name func args r =
      let c = channel_of a name in
      let q = query_of name func args in
      let s = a.redis.subscribe c r in
      let p = (a.redis.l_push default_queue_key q s).1 in
      let e : with_query name func args r ≡ (a.redis.publish a.channel_query "newQuery" p).1 =
        rw (law.push_reply q s) refl in
      let subs : (d : String) → law.subs (with_query name func args r) d ≡ law.subs s d = λ d.
        ap (λ t. law.subs t d) e
        ∙ law.subs_publish a.channel_query "newQuery" p d
        ∙ law.subs_push q s d in
      record {
        waiting =
            ap law.waiting e
            ∙ law.waiting_publish a.channel_query "newQuery" p
            ∙ law.waiting_push q s
            ∙ ap (λ l. l ++ q ∷ []) (law.waiting_subscribe c r);
        own = rw (subs c, law.subs_subscribe c r) (omega arith);
        others = λ d n. subs d ∙ law.subs_subscribe_other c r d n;
      }

  Apart-last :
      (c : String) (q : Query) (qs : List Query)
      → Apart a answer id law c (qs ++ q ∷ [])
      → c ≢ q.channel
  Apart-last c q [] d = d.0
  Apart-last c q (p ∷ qs) d = Apart-last c q qs d.1

  Heard-last :
      (r s : R) (q : Query) (qs : List Query)
      → 0 < law.subs s q.channel
      → ((c : String) → c ≢ q.channel → law.subs s c ≡ law.subs r c)
      → Heard a answer id law r qs
      → OwnChannels a answer id law (qs ++ q ∷ [])
      → Heard a answer id law s (qs ++ q ∷ [])
  Heard-last r s q [] n k h o = (n, tt)
  Heard-last r s q (p ∷ qs) n k h o =
      (rw (k p.channel (Apart-last p.channel q qs o.0)) h.0, Heard-last r s q qs n k h.1 o.1)

  AllAnswered-last :
      (s : R) (q : Query) (qs : List Query)
      → AllAnswered a answer id law s (qs ++ q ∷ [])
      → law.stored s q.channel ≡ some (transmitted (answer q.args))
  AllAnswered-last s q [] h = h.0
  AllAnswered-last s q (p ∷ qs) h = AllAnswered-last s q qs h.1

  received-stored :
      (c : String) (s : R) (v : ConcResult L) → law.stored s c ≡ some v → received a c s ≡ v
  unfolding received
  received-stored c s v e =
      let g : a.redis.get s c ≡ record { val = some v; err = none } = law.get_reply s c v e in
      rw (received, g, ap (λ x. x.val) g) refl

  longer : (l : List Query) (q : Query) → length (l ++ q ∷ []) ≡ suc (length l)
  longer [] q = refl
  longer (p ∷ l) q = ap suc (longer l q)

  -- On a reliable server where someone listens to each waiting query, a client publishes a query, and
  -- no two of all these queries have the same channel: after at least as many turns of a worker as
  -- there are queries then, the client receives the answer to its own query, as it is transmitted.
  pub received-publish_query :
      (name func : String) (args : ConcQueryArgs) (qs : List Query) (r : R) (logs : List JobLog)
      (k : ℕ)
      → law.waiting r ≡ qs
      → Heard a answer id law r qs
      → OwnChannels a answer id law (qs ++ query_of name func args ∷ [])
      → length qs < k
      → received a (channel_of a name) (turns a answer id law k (with_query name func args r) logs)
        ≡ transmitted (answer args)
  received-publish_query name func args qs r logs k w h o n =
      let q = query_of name func args in
      let s = with_query name func args r in
      let i = publish_query-Asked name func args r in
      let heard = Heard-last r s q qs i.own i.others h o in
      let all =
        turns-AllAnswered a answer id law k (qs ++ q ∷ []) s logs
          (rw (longer qs q) (omega (arith, n))) (i.waiting ∙ ap (λ l. l ++ q ∷ []) w) heard o in
      let found = AllAnswered-last (turns a answer id law k s logs) q qs all.1 in
      received-stored (channel_of a name) (turns a answer id law k s logs) _ found
