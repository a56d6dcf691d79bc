-- ===== src/Cmd.antt =====
-- cmd/service/fcs.go: the program, from its arguments to the server or the worker that it becomes.
pub mod Translate
pub mod Starting
pub mod Failing
pub mod Server
use mquery_fcs.Cmd.Translate.{Shown, out, repl, translate_basic_query, translate_fcs_query}
use mquery_fcs.Cnf.Loading.{Files, load_config}
use mquery_fcs.Cnf.{Conf, GivenConf, Fatal, nil_redis, Started, ready, fatal, validate_and_defaults}
use mquery_fcs.Corpus.Corpora.{DirTest}
use mquery_fcs.Handler.Params.{split_at}
use mquery_fcs.Handler.V20.Search.{Parsed}
use mquery_fcs.Prelude.Text.{concat}
use mquery_fcs.Prelude.{ℕ, str_eq, if◌then◌else◌, String, Option, none, some, List, [], ◌∷◌}
use mquery_fcs.Query.Basic.{BinaryOperatorQuery}
use mquery_fcs.Query.FcsQl
use mquery_fcs.Rdb.Conf.{Validated, valid, invalid}
use mquery_fcs.Rdb.Connecting.{Attempt, Connection, trying, connected, failed, test_connection}

-- What the program finds outside: its arguments, environment and input, the files, what is known of
-- directories and time zones, the answers of Redis at the start, and the parsers.
pub record Outside : Type 0 where
  pub action : String
  pub second : String
  pub environ : List String
  pub input : String
  pub files : Files
  pub is_dir : String → DirTest
  pub load_location : String → Option String
  pub attempts : List Attempt
  pub parse_basic : String → Parsed BinaryOperatorQuery
  pub parse_fcs : String → Parsed FcsQl.Query

-- `VersionInfo`, as the build fills it in.
pub record VersionInfo : Type 0 where
  pub version : String
  pub build_date : String
  pub git_commit : String

-- Why the program exits by itself: with an error, or with a panic at a section that is missing.
pub data Reason : Type 0 where
  unknown_query_type nil_corpora : Reason
  not_loaded no_redis unknown_action : String → Reason
  not_valid : Fatal → Reason

-- The status of the exit; that of a panic is 2.
unfoldable pub status : Reason → ℕ
status unknown_query_type = 2
status nil_corpora = 2
status (not_valid nil_redis) = 2
status r = 1

-- What the program comes to: `main` returns, the program exits, it still tries to reach Redis, or it
-- has become a server or a worker.
pub data Run : Type 0 where
  returned connecting : Run
  exited : Reason → Run
  serving : Conf → Run
  working : Conf → String → Run

-- The value of a variable, if the text of the variable has exactly one sign of equality.
abbrev pub value_of : String → List String → String → String
value_of name (n ∷ v ∷ []) rest = if str_eq n name then v else rest
value_of name parts rest = rest

-- `getEnv`.
unfoldable pub get_env : List String → String → String
get_env [] name = ""
get_env (p ∷ ps) name = value_of name (split_at 61 p "") (get_env ps name)

-- `getWorkerID`.
unfoldable pub get_worker_id : List String → String
unfolding get_env split_at
get_worker_id environ = let id = get_env environ "WORKER_ID" in if str_eq id "" then "0" else id

-- A server or a worker, once Redis answers.
abbrev pub once_connected : Connection → Run → Run
once_connected trying r = connecting
once_connected connected r = r
once_connected (failed e) r = exited (no_redis e)

-- The `switch` at the end, with a configuration that is valid.
abbrev pub act : Outside → Conf → Run
act o d =
    if str_eq o.action "server"
    then once_connected (test_connection d.redis o.attempts) (serving d)
    else if str_eq o.action "worker"
    then once_connected (test_connection d.redis o.attempts) (working d (get_worker_id o.environ))
    else exited (unknown_action o.action)

abbrev pub validated : Outside → Started Conf → Run
validated o (fatal e) = exited (not_valid e)
validated o (ready d) = if str_eq o.action "test" then returned else act o d

abbrev pub loaded : Outside → Validated (Option GivenConf) → Run
loaded o (invalid e) = exited (not_loaded e)
loaded o (valid none) = exited nil_corpora
loaded o (valid (some c)) = validated o (validate_and_defaults o.is_dir o.load_location c)

-- `main` from the loading of the configuration on.
unfoldable pub start : Outside → Run
unfolding load_config validate_and_defaults test_connection get_worker_id
start o = loaded o (load_config o.files o.second)

abbrev pub version_text : VersionInfo → String
version_text v = concat (
    "MQuery-SRU " ∷ v.version ∷ "\nbuild date: " ∷ v.build_date ∷ "\nlast commit: " ∷ v.git_commit
    ∷ "\n" ∷ [])

-- What `main` does behind the dialogues: it loads the configuration that the second argument names.
abbrev pub translating : Outside → List Shown × Run
translating o =
    if str_eq o.second "basic"
    then (repl (translate_basic_query o.parse_basic) o.input, start o)
    else if str_eq o.second "advanced"
    then (repl (translate_fcs_query o.parse_fcs) o.input, start o)
    else (out "Unknown query type\n" ∷ [], exited unknown_query_type)

-- `main`, with the dialogue that it shows.
unfoldable pub main : VersionInfo → Outside → List Shown × Run
unfolding start repl translate_basic_query translate_fcs_query
main v o =
    if str_eq o.action "version"
    then (out (version_text v) ∷ [], returned)
    else if str_eq o.action "translate"
    then translating o
    else ([], start o)
