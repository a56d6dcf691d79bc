-- ===== src/Tests/Settings.antt =====
-- A configuration with which a server starts, and what the server then says of itself.
use mquery_fcs.Cnf
use mquery_fcs.Cnf.Starting.{Starts, validate_and_defaults-Starts}
use mquery_fcs.Cnf.Loading.{
  read, Files, load_items, load_resources, load_config, with_further, Loads, load_config-Loads,
}
use mquery_fcs.Cnf.{ServerInfo, validate_server_info}
use mquery_fcs.Corpus
use mquery_fcs.Corpus.CommonAttrs.AllCorpora.{get_common_pos_attrs-all}
use mquery_fcs.Corpus.CommonAttrs.{get_common_pos_attrs, get_common_pos_attrs2}
use mquery_fcs.Corpus.Corpora.Twice.{validate_and_defaults-twice}
use mquery_fcs.Corpus.Corpora.{DirTest, tested, valid, validate_resources}
use mquery_fcs.Corpus.Setup.{CorpusSetup, validate, count_attrs, add_default, check_defaults}
use mquery_fcs.Corpus.Layers.{validate_layer}
use mquery_fcs.Prelude.{
  String, true, false, Option, none, some, List, [], ◌∷◌, ◌≡◌, ◌≢◌, ◌↔◌, refl, arith,
}
use mquery_fcs.Rdb
use mquery_fcs.Rdb.Conf.{new_adapter, query_answer_timeout, new_adapter-kept}
use mquery_fcs.Tests.Configurations.{corpus, corpora_conf, ready_conf}
use mquery_fcs.Tests.Server.{server}

abbrev pub is_dir : String → DirTest
is_dir dir = tested true

abbrev pub load_location : String → Option String
load_location z = none

validate_and_defaults-twice_example :
    Corpus.Corpora.validate_and_defaults is_dir ready_conf ≡ valid ready_conf
unfolding mquery_fcs.Corpus.Corpora.validate_and_defaults validate_resources validate validate_layer
    count_attrs add_default check_defaults
validate_and_defaults-twice_example =
    validate_and_defaults-twice is_dir corpora_conf ready_conf refl

abbrev pub redis_conf : Rdb.Conf.Conf
redis_conf = record {
  host = "localhost";
  port = record { negative = false; magnitude = 0 };
  db = record { negative = false; magnitude = 3 };
  channel_query = "";
  channel_result_prefix = "";
  query_answer_timeout_secs = record { negative = false; magnitude = 0 };
}

abbrev pub filled_redis_conf : Rdb.Conf.Conf
filled_redis_conf = record redis_conf {
  port = record { negative = false; magnitude = 6379 };
  channel_query = "mquerysru";
  channel_result_prefix = "res";
  query_answer_timeout_secs = record { negative = false; magnitude = 30 };
}

new_adapter-kept_example :
    ((new_adapter server filled_redis_conf).channel_query ≡ "mquerysru")
    × (◌≢◌ {A = String} "mquerysru" "")
    × ((new_adapter server filled_redis_conf).channel_result_prefix ≡ "res")
    × (◌≢◌ {A = String} "res" "")
    × (query_answer_timeout filled_redis_conf
        ≡ record { negative = false; magnitude = 30000000000 })
    × ((query_answer_timeout filled_redis_conf).magnitude ≢ 0)
unfolding mquery_fcs.Rdb.Conf.validate
new_adapter-kept_example = new_adapter-kept server redis_conf filled_redis_conf refl (omega arith)

-- 2 ^ 55 seconds have 0 nanoseconds in 64 bits, for which the default is taken.
overflow :
    query_answer_timeout (record filled_redis_conf {
      query_answer_timeout_secs = record { negative = false; magnitude = 36028797018963968 };
    })
    ≡ record { negative = false; magnitude = 60000000000 }
unfolding query_answer_timeout
overflow = refl

abbrev pub info : ServerInfo
info = record {
  server_host = "fcs.example.org";
  server_port = "443";
  database = "fcs";
  database_title = some (("en", "Corpora") ∷ []);
  database_description = none;
  database_author = none;
  primary_language = "en";
  external_url_path = "";
}

abbrev pub given_conf : Cnf.GivenConf
given_conf = record {
  server_write_timeout_secs = record { negative = false; magnitude = 0 };
  sources_root_dir = "";
  assets_url_path = "/assets";
  server_info = some info;
  corpora_setup = some corpora_conf;
  redis = some redis_conf;
  time_zone = "";
}

abbrev pub started_conf : Cnf.Conf
started_conf = record {
  server_write_timeout_secs = record { negative = false; magnitude = 30 };
  sources_root_dir = ".";
  corpora_setup = ready_conf;
  redis = filled_redis_conf;
  assets_url_path = "/assets";
  server_info = some info;
  time_zone = "";
}

validate_and_defaults-Starts_example : Starts is_dir load_location given_conf started_conf
unfolding mquery_fcs.Cnf.validate_and_defaults mquery_fcs.Corpus.Corpora.validate_section
    validate_server_info mquery_fcs.Rdb.Conf.validate
    mquery_fcs.Corpus.Corpora.validate_and_defaults validate_resources validate validate_layer
    count_attrs add_default check_defaults
validate_and_defaults-Starts_example =
    validate_and_defaults-Starts is_dir load_location given_conf started_conf refl

abbrev two_corpora : List CorpusSetup
two_corpora = corpus ∷ record corpus { id = "b" } ∷ []

get_common_pos_attrs-all_example :
    get_common_pos_attrs two_corpora ("a" ∷ "b" ∷ []) ≡ some (get_common_pos_attrs2 two_corpora)
get_common_pos_attrs-all_example = get_common_pos_attrs-all two_corpora ((refl, refl, tt), (tt, tt))

-- The directory conf.d with the setup of one corpus, and a configuration that names it.
abbrev pub files : Files
files = record {
  read_dir = λ path. read ("b.json" ∷ []);
  read_in = λ path name. read "{\"id\": \"b\"}";
  read_file = λ path. read "{\"corpora\": {\"resourcesConfDir\": \"conf.d\"}}";
  decode_corpus = λ raw. read (record corpus { id = "b" });
  decode_conf = λ raw. read (given_conf, "conf.d");
}

load_config-Loads_example :
    let c = with_further files given_conf corpora_conf (record corpus { id = "b" } ∷ []) in
    (load_config files "conf.json" ≡ Rdb.Conf.valid (some c)) ↔ Loads files "conf.json" c
load_config-Loads_example =
    load_config-Loads files "conf.json"
      (with_further files given_conf corpora_conf (record corpus { id = "b" } ∷ []))

loaded :
    load_config files "conf.json"
    ≡ Rdb.Conf.valid
        (some (with_further files given_conf corpora_conf (record corpus { id = "b" } ∷ [])))
unfolding load_config load_resources load_items
loaded = refl
