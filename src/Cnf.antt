-- ===== src/Cnf.antt =====
-- cnf/conf.go: the configuration of the server and its check at the start.
pub mod Starting
pub mod Loading
use mquery_fcs.Corpus
use mquery_fcs.Corpus.Corpora.{CorporaConf, ConfError, DirTest, Configured, validate_section}
use mquery_fcs.Corpus.Setup.{TextMap, has_key}
use mquery_fcs.Prelude.Integers.{Integer}
use mquery_fcs.Prelude.{str_eq, if◌then◌else◌, String, true, false, Option, none, some}
use mquery_fcs.Rdb
use mquery_fcs.Rdb.Conf.{Validated, valid, invalid, given, integer_or, text_or, ◌>>=◌, ◌>>◌}

-- `ServerInfo`.
pub record ServerInfo : Type 0 where
  pub server_host : String
  pub server_port : String
  pub database : String
  pub database_title : TextMap
  pub database_description : TextMap
  pub database_author : TextMap
  pub primary_language : String
  pub external_url_path : String

abbrev pub check_title : TextMap → Validated (Unit {0})
check_title none = invalid "missing configuration section `serverInfo.databaseTitle`"
check_title (some m) =
    if has_key "en" m
    then valid tt
    else invalid "missing required configuration for `serverInfo.databaseTitle.en`"

-- A section that may be missing.
abbrev pub check_optional : String → TextMap → Validated (Unit {0})
check_optional e none = valid tt
check_optional e (some m) = if has_key "en" m then valid tt else invalid e

abbrev pub check_info : ServerInfo → Validated (Unit {0})
check_info s = do
  given "missing configuration `serverInfo.ServerHost`" s.server_host
  given "missing configuration `serverInfo.ServerPort`" s.server_port
  given "missing configuration `serverInfo.Database`" s.database
  check_title s.database_title
  check_optional "missing required configuration for `serverInfo.databaseDescription.en`"
      s.database_description
  check_optional "missing required configuration for `serverInfo.databaseAuthor.en`"
      s.database_author

-- `ServerInfo.Validate`; `none` is a section that is missing.
unfoldable pub validate_server_info : Option ServerInfo → Validated (Unit {0})
validate_server_info none = invalid "missing serverInfo section"
validate_server_info (some s) = check_info s

-- `Conf` as it is read: the parts that its check looks at, `none` where a section is missing.
pub record GivenConf : Type 0 where
  pub server_write_timeout_secs : Integer
  pub sources_root_dir : String
  pub assets_url_path : String
  pub server_info : Option ServerInfo
  pub corpora_setup : Option CorporaConf
  pub redis : Option Rdb.Conf.Conf
  pub time_zone : String

-- `Conf` behind its check, when the sections of the corpora and of Redis are there.
pub record Conf : Type 0 where
  pub server_write_timeout_secs : Integer
  pub sources_root_dir : String
  pub assets_url_path : String
  pub server_info : Option ServerInfo
  pub corpora_setup : CorporaConf
  pub redis : Rdb.Conf.Conf
  pub time_zone : String

-- Why the server does not start: an error, or the panic at a section of Redis that is missing.
pub data Fatal : Type 0 where
  bad_server_info bad_redis bad_time_zone : String → Fatal
  bad_corpora : ConfError → Fatal
  nil_redis : Fatal

pub data Started {ℓ} (A : Type ℓ) : Type ℓ where
  ready : A → Started A
  fatal : Fatal → Started A

abbrev pub then_start {ℓ κ} : {A : Type ℓ} {B : Type κ} → Started A → (A → Started B) → Started B
then_start (ready a) f = f a
then_start (fatal e) f = fatal e

abbrev pub of_validated {ℓ} : {A : Type ℓ} → (String → Fatal) → Validated A → Started A
of_validated f (valid a) = ready a
of_validated f (invalid e) = fatal (f e)

abbrev pub of_configured {ℓ} : {A : Type ℓ} → Configured A → Started A
of_configured (Corpus.Corpora.valid a) = ready a
of_configured (Corpus.Corpora.invalid e) = fatal (bad_corpora e)

-- `Redis.Validate`, which reads the host first.
abbrev pub check_redis : Option Rdb.Conf.Conf → Started Rdb.Conf.Conf
check_redis none = fatal nil_redis
check_redis (some r) = of_validated bad_redis (Rdb.Conf.validate r)

abbrev pub check_time_zone : (String → Option String) → String → Started (Unit {0})
check_time_zone load_location z = elim (load_location z) [
  | none ↦ ready tt
  | some e ↦ fatal (bad_time_zone e)
]

-- `ValidateAndDefaults`, with the configuration as it leaves it. What is found of a directory and
-- the error of a time zone that is not known are parameters. The corpora are checked twice.
unfoldable pub validate_and_defaults :
    (String → DirTest) → (String → Option String) → GivenConf → Started Conf
validate_and_defaults is_dir load_location c =
    then_start (of_validated bad_server_info (validate_server_info c.server_info)) λ _.
      then_start (of_configured (validate_section is_dir c.corpora_setup)) λ once.
        then_start (of_configured (validate_section is_dir (some once))) λ twice.
          then_start (check_redis c.redis) λ redis.
            then_start (check_time_zone load_location c.time_zone) λ _. ready (record {
              server_write_timeout_secs = integer_or 30 c.server_write_timeout_secs;
              sources_root_dir = text_or "." c.sources_root_dir;
              assets_url_path = text_or "/" c.assets_url_path;
              corpora_setup = twice;
              redis = redis;
              server_info = c.server_info;
              time_zone = c.time_zone;
            })
