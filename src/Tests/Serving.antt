-- ===== src/Tests/Serving.antt =====
-- Two queries on a server, and a worker for them.
use mquery_fcs.Prelude.{eq_iff, true, false, String, none, List, [], ◌∷◌, ◌≡◌, ◌≢◌, refl, arith}
use mquery_fcs.Prelude.Text.{concat}
use mquery_fcs.Rdb.{
  ConcQueryArgs, Query, Adapter, channel_of, publish_query, received, transmitted,
  transmitted_error, dequeue_query, someone_listens, publish_result,
}
use mquery_fcs.Result.{ConcResult}
use mquery_fcs.Tests.Server.{Store, server, server-Reliable}
use mquery_fcs.Worker.Listening.{tick, told, done, listen, wakes, listen-AllAnswered}
use mquery_fcs.Worker.RoundTrip.{with_query, received-publish_query}
use mquery_fcs.Worker.Schedules.{Act, ask, turn, leave, act, run, asked, Answers, run-Answers}
use mquery_fcs.Worker.Serving.{turns, AllAnswered}
use mquery_fcs.Worker.{try_next_query}

abbrev adapter : Adapter Store String
adapter = record { redis = server; channel_query = "mquerysru"; channel_result_prefix = "res" }

abbrev args_of : String → ConcQueryArgs
args_of corpus = record {
  corpus = corpus;
  query = "[word=\"dog\"]";
  attrs = "word" ∷ "word" ∷ [];
  start_line = 0;
  max_items = 10;
  max_context = 5;
  view_context_struct = "s";
}

abbrev answer : ConcQueryArgs → ConcResult String
answer args = record { lines = args.corpus ∷ []; conc_size = 1; query = args.query; error = none }

abbrev query_a : Query
query_a = record { channel = "res:0"; func = "concExample"; args = args_of "a" }

abbrev query_b : Query
query_b = record { channel = "res:1"; func = "concExample"; args = args_of "b" }

abbrev one_waiting : Store
one_waiting = record { queue = query_a ∷ []; subscribed = "res:0" ∷ []; results = [] }

abbrev two_waiting : Store
two_waiting = record {
  queue = query_a ∷ query_b ∷ [];
  subscribed = "res:1" ∷ "res:0" ∷ [];
  results = [];
}

abbrev empty : Store
empty = record { queue = []; subscribed = []; results = [] }

apart : ◌≢◌ {A = String} "res:0" "res:1"
apart e = let h : false ≡ true = (eq_iff "res:0" "res:1").1 e in cc

received-publish_query_example :
    received adapter (channel_of adapter "1") (
      turns adapter answer "w" server-Reliable 2
        (with_query adapter answer "w" server-Reliable "1" "concExample" (args_of "b") one_waiting)
        [])
    ≡ transmitted (answer (args_of "b"))
unfolding concat
received-publish_query_example =
    received-publish_query adapter answer "w" server-Reliable "1" "concExample" (args_of "b")
      (query_a ∷ []) one_waiting [] 2 refl (omega arith, tt) ((apart, tt), (tt, tt)) (omega arith)

listen-AllAnswered_example :
    ((listen adapter answer "w"
        (tick ∷ told "other" ∷ told "newQuery" ∷ done ∷ [])
        two_waiting
        []).queue
      ≡ [])
    × AllAnswered adapter answer "w" server-Reliable
        (listen adapter answer "w"
          (tick ∷ told "other" ∷ told "newQuery" ∷ done ∷ [])
          two_waiting
          [])
        (query_a ∷ query_b ∷ [])
unfolding wakes
listen-AllAnswered_example =
    listen-AllAnswered adapter answer "w" server-Reliable
      (tick ∷ told "other" ∷ told "newQuery" ∷ done ∷ []) (query_a ∷ query_b ∷ []) two_waiting []
      (omega arith) refl (omega arith, (omega arith, tt)) ((apart, tt), (tt, tt))

abbrev schedule : List Act
schedule =
    ask "1" "concExample" (args_of "b")
    ∷ turn
    ∷ ask "2" "concExample" (args_of "a")
    ∷ leave "res:2"
    ∷ turn
    ∷ []

run-Answers_example :
    Answers adapter answer "w"
      (asked adapter answer "w" schedule [])
      "res:1"
      (transmitted (answer (args_of "b")))
unfolding run act publish_query try_next_query dequeue_query someone_listens publish_result concat
    transmitted transmitted_error
run-Answers_example =
    run-Answers adapter answer "w" server-Reliable schedule empty refl (λ c. refl) "res:1"
      (transmitted (answer (args_of "b"))) refl
