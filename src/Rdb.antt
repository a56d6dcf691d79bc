-- ===== src/Rdb.antt =====
-- rdb/client.go: queries on their way to the workers and results on their way back.
pub mod Laws
pub mod Waiting
pub mod Conf
pub mod Connecting
use mquery_fcs.Prelude.{ℕ, ltb, String, Bool, true, false, Option, none, some, List, [], ◌∷◌}
use mquery_fcs.Prelude.Text.{concat}
use mquery_fcs.Result.{GoError, message, error_text, ConcResult}

-- `ConcQueryArgs`; the resource stands for the path of its registry file.
pub record ConcQueryArgs : Type 0 where
  pub corpus : String
  pub query : String
  pub attrs : List String
  pub start_line : ℕ
  pub max_items : ℕ
  pub max_context : ℕ
  pub view_context_struct : String

-- `Query`.
pub record Query : Type 0 where
  pub channel : String
  pub func : String
  pub args : ConcQueryArgs

abbrev pub default_queue_key : String
default_queue_key = "mqueryQueue"

abbrev pub msg_new_query : String
msg_new_query = "newQuery"

-- What a command of Redis replies: its value, empty if there is none, and its error.
pub record Reply (A : Type 0) : Type 0 where
  pub val : Option A
  pub err : Option String

-- The commands of Redis that the adapter uses, on the states `R` of a server. Values are the queries
-- and results themselves, in place of their encodings.
pub record Redis (R L : Type 0) : Type 0 where
  pub subscribe : String → R → R
  pub close : String → R → R
  pub num_sub : R → String → Reply ℕ
  pub l_push : String → Query → R → Option String × R
  pub r_pop : String → R → Reply Query × R
  pub set : String → ConcResult L → R → R
  pub get : R → String → Reply (ConcResult L)
  pub publish : String → String → R → Option String × R

-- `Adapter`: the server that it talks to, and the channel for queries.
pub record Adapter (R L : Type 0) : Type 0 where
  pub redis : Redis R L
  pub channel_query : String
  pub channel_result_prefix : String

-- `TransmittedError` in place of an error; all errors that the workers meet have this one type.
unfoldable pub transmitted_error : Option GoError → Option GoError
transmitted_error none = none
transmitted_error (some e) =
    some (message (concat ("TransmittedError(*errors.errorString: " ∷ error_text e ∷ ")" ∷ [])))

unfoldable pub transmitted : {L : Type 0} → ConcResult L → ConcResult L
transmitted c = record c { error = transmitted_error c.error }

-- What `PublishQuery` comes to: the query is not queued, or it is and an answer is waited for, also
-- if the workers could not be told of it.
pub data Sent (R : Type 0) : Type 0 where
  not_queued : String → R → Sent R
  queued : Option String → R → Sent R

-- What `DequeueQuery` comes to.
pub data Dequeued : Type 0 where
  empty_queue : Dequeued
  not_dequeued : String → Dequeued
  dequeued : Query → Dequeued

abbrev pub is_positive : Option ℕ → Bool
is_positive none = false
is_positive (some n) = ltb 0 n

abbrev pub listening : Reply ℕ → Reply Bool
listening n = elim n.err [
  | some e ↦ record {
    val = some false;
    err = some (concat ("failed to check channel listeners: " ∷ e ∷ []));
  }
  | none ↦ record { val = some (is_positive n.val); err = none }
]

-- A query that is popped; the error of the command is looked at behind its value.
abbrev pub popped : Reply Query → Dequeued
popped q = elim q.val [
  | none ↦ empty_queue
  | some v ↦ elim q.err [
    | some e ↦ not_dequeued (concat ("failed to dequeue query: " ∷ e ∷ []))
    | none ↦ dequeued v
  ]
]

module _ {R L : Type 0} (a : Adapter R L) where
  -- `SomeoneListens`.
  unfoldable pub someone_listens : R → Query → Reply Bool
  someone_listens r q = listening (a.redis.num_sub r q.channel)

  -- The channel of a query with a new identifier.
  abbrev pub channel_of : String → String
  channel_of id = concat (a.channel_result_prefix ∷ ":" ∷ id ∷ [])

  abbrev pub announce : Option String × R → Sent R
  announce (some e, r) = not_queued e r
  announce (none, r) =
      let told = a.redis.publish a.channel_query msg_new_query r in queued told.0 told.1

  -- `PublishQuery` up to the waiting, with the identifier that is drawn for the query.
  unfoldable pub publish_query : String → String → ConcQueryArgs → R → Sent R
  publish_query id func args r =
      let q : Query = record { channel = channel_of id; func = func; args = args } in
      announce (a.redis.l_push default_queue_key q (a.redis.subscribe q.channel r))

  -- `DequeueQuery`.
  unfoldable pub dequeue_query : R → Dequeued × R
  dequeue_query r = let q = a.redis.r_pop default_queue_key r in (popped q.0, q.1)

  -- `PublishResult`; the reply to the storing is not looked at.
  unfoldable pub publish_result : String → ConcResult L → R → Option String × R
  publish_result channel value r =
      a.redis.publish channel channel (a.redis.set channel (transmitted value) r)

  -- What the waiting part of `PublishQuery` makes of a notice: the stored result.
  unfoldable pub received : String → R → ConcResult L
  received key r =
      let got = a.redis.get r key in
      elim got.err [
        | some e ↦ record { lines = []; conc_size = 0; query = ""; error = some (message e) }
        | none ↦ elim got.val [
          | some c ↦ c
          | none ↦ record { lines = []; conc_size = 0; query = ""; error = some (message "EOF") }
        ]
      ]
