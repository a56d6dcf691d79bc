-- ===== src/Worker/Listening.antt =====
-- worker/worker.go: the loop of a worker.
use mquery_fcs.Prelude.{
  ℕ, suc, ◌≤◌, str_eq, if◌then◌else◌, String, List, [], ◌∷◌, length, ◌≡◌, refl, inl, inr,
  Bool-cases,
}
use mquery_fcs.Rdb.{ConcQueryArgs, Query, Adapter, msg_new_query}
use mquery_fcs.Rdb.Laws.{Reliable}
use mquery_fcs.Result.{ConcResult}
use mquery_fcs.Worker.Serving.{turns, Heard, OwnChannels, AllAnswered, turns-AllAnswered}
use mquery_fcs.Worker.{JobLog, try_next_query}

-- What a worker waits for: a tick of its clock, the end of the server, or a message on the channel
-- for queries.
pub data Signal : Type 0 where
  tick done : Signal
  told : String → Signal

module _ {R L : Type 0} (a : Adapter R L) (answer : ConcQueryArgs → ConcResult L)
    (id : String) where
  -- `Listen`, on the signals in the order in which it takes them.
  unfoldable pub listen : List Signal → R → List JobLog → R
  listen [] r logs = r
  listen (tick ∷ ss) r logs = let t = try_next_query a answer id r logs in listen ss t.server t.logs
  listen (done ∷ ss) r logs = r
  listen (told payload ∷ ss) r logs =
      let t = try_next_query a answer id r logs in
      let woken = listen ss t.server t.logs in
      let asleep = listen ss r logs in if str_eq payload msg_new_query then woken else asleep

-- The signals before the end on which the worker looks for a query.
unfoldable pub wakes : List Signal → ℕ
wakes [] = 0
wakes (tick ∷ ss) = suc (wakes ss)
wakes (done ∷ ss) = 0
wakes (told payload ∷ ss) =
    let rest = wakes ss in if str_eq payload msg_new_query then suc rest else rest

module _ {R L : Type 0} (a : Adapter R L) (answer : ConcQueryArgs → ConcResult L) (id : String)
    (law : Reliable a.redis) where
  listen-turns :
      (ss : List Signal) (r : R) (logs : List JobLog)
      → listen a answer id ss r logs ≡ turns a answer id law (wakes ss) r logs
  unfolding listen wakes turns
  listen-turns [] r logs = refl
  listen-turns (tick ∷ ss) r logs = listen-turns ss _ _
  listen-turns (done ∷ ss) r logs = refl
  listen-turns (told payload ∷ ss) r logs = elim (Bool-cases (str_eq payload msg_new_query)) [
    | inl t ↦ rw t (listen-turns ss _ _)
    | inr f ↦ rw f (listen-turns ss r logs)
  ]

  -- On a reliable server, if each waiting query has a channel of its own to which someone listens, a
  -- worker that gets at least as many ticks and messages of new queries before the end as there
  -- are queries empties the queue, and each query has its answer, as it is transmitted, stored
  -- under its channel. Other messages do not matter.
  pub listen-AllAnswered :
      (ss : List Signal) (qs : List Query) (r : R) (logs : List JobLog)
      → length qs ≤ wakes ss
      → law.waiting r ≡ qs
      → Heard a answer id law r qs
      → OwnChannels a answer id law qs
      → (law.waiting (listen a answer id ss r logs) ≡ [])
        × AllAnswered a answer id law (listen a answer id ss r logs) qs
  listen-AllAnswered ss qs r logs n w h o =
      rw (listen-turns ss r logs) (turns-AllAnswered a answer id law (wakes ss) qs r logs n w h o)
