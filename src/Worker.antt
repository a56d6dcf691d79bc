-- ===== src/Worker.antt =====
-- worker/worker.go and mango/mango.go: a worker takes queries from the queue and publishes results.
pub mod Serving
pub mod Binding
pub mod Schedules
pub mod Listening
pub mod RoundTrip
use mquery_fcs.Prelude.{
  ℕ, suc, ◌==◌, ltb, str_eq, if◌then◌else◌, String, Bool, true, false, not, Option, none, some,
  List, [], ◌∷◌, ◌++◌,
}
use mquery_fcs.Prelude.Text.{concat}
use mquery_fcs.Rdb.{
  ConcQueryArgs, Query, Reply, Adapter, Dequeued, empty_queue, not_dequeued, dequeued,
  someone_listens, dequeue_query, publish_result,
}
use mquery_fcs.Result.{GoError, rows_range_out_of_conc, message, ConcResult}

-- What the binding of the corpus engine returns: an error with its code, or the concordance with the
-- texts of its lines.
pub data Examples : Type 0 where
  failed : String → ℕ → Examples
  found : ℕ → List String → Examples

abbrev pub keep_lines : List String → List String
keep_lines [] = []
keep_lines (s ∷ ss) = if str_eq s "" then keep_lines ss else s ∷ keep_lines ss

abbrev pub count : List String → ℕ
count [] = 0
count (s ∷ ss) = suc (count ss)

-- What `GetConcordance` comes to; the array that it reads has 1000 places.
pub data Concordance : Type 0 where
  panicked : String → Concordance
  not_found : GoError → Concordance
  concordance : ℕ → List String → Concordance

-- `GetConcordance`, from what the binding returns. The message is kept as it is, which holds of one
-- without a percent sign: the source gives it to `fmt.Errorf` as the format.
unfoldable pub get_concordance : Examples → Concordance
get_concordance (failed msg code) =
    if code == 1 then not_found rows_range_out_of_conc else not_found (message msg)
get_concordance (found size values) =
    if ltb 1000 (count values)
    then panicked "runtime error: index out of range [1000] with length 1000"
    else concordance size (keep_lines values)

-- `JobLog`, without the times.
pub record JobLog : Type 0 where
  pub worker_id : String
  pub func : String
  pub err : Option GoError

module _ {L : Type 0} (parse : List String → List String → List L) where
  -- `ConcResult` of a worker.
  abbrev pub to_result : ConcQueryArgs → Concordance → ConcResult L
  to_result args (panicked r) = record {
    lines = [];
    conc_size = 0;
    query = "";
    error = some (message r);
  }
  to_result args (not_found e) = record {
    lines = [];
    conc_size = 0;
    query = args.query;
    error = some e;
  }
  to_result args (concordance size lines) = record {
    lines = parse args.attrs lines;
    conc_size = size;
    query = args.query;
    error = none;
  }

  -- The work on one query: `ConcResult` on what the binding returns for its arguments.
  unfoldable pub conc_result : (ConcQueryArgs → Examples) → ConcQueryArgs → ConcResult L
  conc_result examples args = to_result args (get_concordance (examples args))

-- A worker after a turn: the error of the turn, the server, and the log of its jobs.
pub record Turn (R : Type 0) : Type 0 where
  pub err : Option String
  pub server : R
  pub logs : List JobLog

abbrev pub wrap_publishing : Option String → Option String
wrap_publishing none = none
wrap_publishing (some e) = some (concat ("failed to publish result: " ∷ e ∷ []))

abbrev pub is_true : Option Bool → Bool
is_true none = false
is_true (some b) = b

module _ {R L : Type 0} (a : Adapter R L) (answer : ConcQueryArgs → ConcResult L)
    (id : String) where
  -- `publishResult` of a worker, with the log of the job.
  abbrev pub publish_job : Query → ConcResult L → R → List JobLog → Turn R
  publish_job q ans r logs =
      let p = publish_result a q.channel ans r in
      record {
        err = wrap_publishing p.0;
        server = p.1;
        logs = logs ++ record { worker_id = id; func = q.func; err = ans.error } ∷ [];
      }

  abbrev pub if_listening : Reply Bool → Query → R → List JobLog → Turn R
  if_listening l q r logs = elim l.err [
    | some e ↦ record { err = some e; server = r; logs = logs }
    | none ↦
        if is_true l.val
        then publish_job q (answer q.args) r logs
        else record { err = none; server = r; logs = logs }
  ]

  abbrev pub work_on : Dequeued → R → List JobLog → Turn R
  work_on empty_queue r logs = record { err = none; server = r; logs = logs }
  work_on (not_dequeued e) r logs = record { err = some e; server = r; logs = logs }
  work_on (dequeued q) r logs = if_listening (someone_listens a r q) q r logs

  -- `tryNextQuery`.
  unfoldable pub try_next_query : R → List JobLog → Turn R
  try_next_query r logs = let d = dequeue_query a r in work_on d.0 d.1 logs
