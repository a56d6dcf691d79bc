-- ===== src/Tests/Program.antt =====
-- The program started as a server and as a translator, and the writing of a response.
use Prim.Native.String
use mquery_fcs.Cmd.Failing.{main-translate}
use mquery_fcs.Cmd.Server.English.{DescribesInEnglish, page-English}
use mquery_fcs.Cmd.Server.{view_handler, page}
use mquery_fcs.Handler.Params.{Params}
use mquery_fcs.Handler.V20.Search.{Published, result}
use mquery_fcs.Rdb.{ConcQueryArgs}
use mquery_fcs.Cmd.{Outside, VersionInfo, Reason, serving, exited, status, main, get_worker_id}
use mquery_fcs.Cnf.{Conf}
use mquery_fcs.Corpus.CommonAttrs.Shared.{all_named}
use mquery_fcs.Corpus.CommonLayers.{
  Sets, AreSets, stands_in, in_all, get_common_layers, get_common_layers-in_all,
}
use mquery_fcs.Corpus.Layers.{PosAttr}
use mquery_fcs.Corpus.Setup.{CorpusSetup, with_view_context}
use mquery_fcs.Handler.V20.Explain.References.{qualified, endpoint_description-qualified}
use mquery_fcs.Handler.V20.Explain.{endpoint_description}
use mquery_fcs.Handler.View.{join}
use mquery_fcs.Handler.Writing.{
  Writer, Documented, encoded, xml_header, get_xslt_header, produce_xml_response,
  produce_xml_response-sent,
}
use mquery_fcs.Prelude.Text.{concat}
use mquery_fcs.Prelude.{
  ℕ, ◌≤◌, str_eq, eq_iff, if◌then◌else◌, String, Bool, true, false, ◌&&◌, none, some, List, [], ◌∷◌,
  ◌++◌, ◌≡◌, ◌≢◌, ◌⊎◌, refl, inl, inr, Bool-cases, arith,
}
use mquery_fcs.Rdb.Connecting.{pinged}
use mquery_fcs.Tests.Configurations.{corpus, word_attr, ready_conf, parse_word, parse_nothing}
use mquery_fcs.Tests.Settings.{files, is_dir, load_location, started_conf, info}

abbrev outside : String → String → Outside
outside action second = record {
  action = action;
  second = second;
  environ = "HOME=/" ∷ "WORKER_ID=7" ∷ [];
  input = "dog\ncat";
  files = files;
  is_dir = is_dir;
  load_location = load_location;
  attempts = pinged (some "refused") ∷ pinged none ∷ [];
  parse_basic = parse_word;
  parse_fcs = parse_nothing;
}

abbrev build : VersionInfo
build = record { version = "1.0"; build_date = "2024-10-10"; git_commit = "abc" }

worker_id : get_worker_id (outside "worker" "conf.json").environ ≡ "7"
unfolding get_worker_id
worker_id = refl

-- The configuration of the file and its directory, with the defaults.
abbrev served_conf : Conf
served_conf = record started_conf {
  corpora_setup = record ready_conf {
    resources = ready_conf.resources ++ with_view_context (record corpus { id = "b" }) ∷ [];
  };
}

served : (main build (outside "server" "conf.json")).1 ≡ serving served_conf
unfolding main mquery_fcs.Cnf.validate_and_defaults mquery_fcs.Corpus.Corpora.validate_section
    mquery_fcs.Cnf.validate_server_info mquery_fcs.Rdb.Conf.validate
    mquery_fcs.Corpus.Corpora.validate_and_defaults mquery_fcs.Corpus.Corpora.validate_resources
    mquery_fcs.Corpus.Setup.validate mquery_fcs.Corpus.Layers.validate_layer
    mquery_fcs.Corpus.Setup.count_attrs mquery_fcs.Corpus.Setup.add_default
    mquery_fcs.Corpus.Setup.check_defaults mquery_fcs.Rdb.Connecting.test_connection
    mquery_fcs.Cnf.Loading.load_config mquery_fcs.Cnf.Loading.load_resources
    mquery_fcs.Cnf.Loading.load_items
served = refl

abbrev worker : ConcQueryArgs → Published String
worker args =
    result (record { lines = "second" ∷ []; conc_size = 2; query = args.query; error = none })

abbrev described : Params
described = ("operation", "explain") ∷ ("x-fcs-endpoint-description", "true") ∷ []

page-English_example :
    DescribesInEnglish
      (page parse_word parse_nothing worker info served_conf view_handler described)
page-English_example =
    page-English parse_word parse_nothing worker build (outside "server" "conf.json") served_conf
      info view_handler described served refl

main-translate_example :
    (r : Reason) × ((main build (outside "translate" "xml")).1 ≡ exited r)
    × (1 ≤ status r)
    × ((◌≡◌ {A = String} "xml" "basic") ⊎ ((◌≡◌ {A = String} "xml" "advanced") ⊎ (status r ≡ 2)))
main-translate_example = main-translate build (outside "translate" "xml") refl

abbrev assets : String
assets = "https://fcs.example.org/x"

joined : join assets "ui/a.xslt" ≡ "https:/fcs.example.org/x/ui/a.xslt"
unfolding join concat
joined = refl

climbing : join "a/./b/../../../c//" "ui/a.xslt" ≡ "../c/ui/a.xslt"
unfolding join concat
climbing = refl

abbrev searching : Params
searching = ("query", "dog") ∷ []

-- A writer that keeps what it sends.
record Sending : Type 0 where
  is_committed : Bool
  code : ℕ
  headers : String → String
  text : String

abbrev set_code : ℕ → Sending → Sending
set_code n s = if s.is_committed then s else record s { code = n }

abbrev with_header : String → String → Sending → Sending
with_header k v s =
    if s.is_committed then s else record s { headers = λ j. if str_eq j k then v else s.headers j }

-- The first writing fills in a missing type, here always that of XML.
abbrev with_type : (String → String) → String → String
with_type h j =
    if str_eq j "Content-Type" && str_eq (h "Content-Type") ""
    then "text/xml; charset=utf-8"
    else h j

abbrev sender : Writer Sending
sender = record {
  write_header = set_code;
  write = λ t s. (
    none,
    record s {
      is_committed = true;
      text = String.◌++◌ s.text t;
      headers = if s.is_committed then s.headers else with_type s.headers;
    },
  );
  set_header = with_header;
  http_error = λ e n s. s;
  committed = λ s. s.is_committed;
  status = λ s. s.code;
  header = λ s. s.headers;
  body = λ s. s.text;
}

set_code-headers : (n : ℕ) (s : Sending) (k : String) → (set_code n s).headers k ≡ s.headers k
set_code-headers n s k = elim (Bool-cases s.is_committed) [
  | inl t ↦ rw (set_code, t) refl
  | inr f ↦ rw (set_code, f) refl
]

set_code-text : (n : ℕ) (s : Sending) → (set_code n s).text ≡ s.text
set_code-text n s = elim (Bool-cases s.is_committed) [
  | inl t ↦ rw (set_code, t) refl
  | inr f ↦ rw (set_code, f) refl
]

set_code-is_committed : (n : ℕ) (s : Sending) → (set_code n s).is_committed ≡ s.is_committed
set_code-is_committed n s = elim (Bool-cases s.is_committed) [
  | inl t ↦ rw (set_code, t) refl
  | inr f ↦ rw (set_code, f) refl
]

sender-type_kept :
    (t : String) (s : Sending)
    → s.headers "Content-Type" ≢ ""
    → sender.header (sender.write t s).1 "Content-Type" ≡ s.headers "Content-Type"
sender-type_kept t s n = elim (Bool-cases s.is_committed) [
  | inl c ↦ rw (c) refl
  | inr f ↦ rw (f) (elim (Bool-cases (str_eq (s.headers "Content-Type") "")) [
    | inl e ↦ absurd (n ((eq_iff _ _).0 e))
    | inr e ↦ rw (e) refl
  ])
]

sender-Documented : Documented sender
sender-Documented = record {
  write_header_status = λ n s f. rw (set_code, f) refl;
  write_header_header = set_code-headers;
  write_header_body = set_code-text;
  write_committed = λ t s. refl;
  write_status = λ t s. refl;
  write_header_committed = set_code-is_committed;
  write_type_kept = sender-type_kept;
  write_type_detected = λ t s c e. rw (c, e) refl;
  write_body = λ t s e. refl;
  set_header_late = λ k v s c. rw (with_header, c) (refl, refl, λ j. refl);
}

abbrev unsent : Sending
unsent = record { is_committed = false; code = 200; headers = λ j. ""; text = "" }

produce_xml_response-sent_example :
    let t = produce_xml_response sender 500 "/a.xslt" (encoded "<x/>") unsent in
    (t.code ≡ 500)
    × (t.text ≡ String.◌++◌ "" (concat (xml_header ∷ get_xslt_header "/a.xslt" ∷ "<x/>" ∷ [])))
    × (t.headers "Content-Type" ≡ "text/xml; charset=utf-8")
unfolding mquery_fcs.Handler.Writing.sent_type
produce_xml_response-sent_example =
    produce_xml_response-sent sender sender-Documented 500 "/a.xslt" "<x/>" unsent refl refl

abbrev both_sets : List String → List String → List String
both_sets [] t = []
both_sets (y ∷ s) t = let rest = both_sets s t in if stands_in y t then y ∷ rest else rest

abbrev lists : Sets (List String)
lists = record {
  new_set = [];
  add = λ y s. y ∷ s;
  intersect = both_sets;
  to_ordered_slice = λ s. s;
}

both_sets-stands_in :
    (s t : List String) (x : String)
    → stands_in x (both_sets s t) ≡ (stands_in x s && stands_in x t)
both_sets-stands_in [] t x = refl
both_sets-stands_in (y ∷ s) t x = elim (Bool-cases (str_eq y x)) [
  | inl e ↦ rw (both_sets, (eq_iff y x).0 e) (ground (arith, eq_iff x x, both_sets-stands_in s t x))
  | inr f ↦ ground (arith, f, both_sets-stands_in s t x)
]

lists-AreSets : AreSets lists
lists-AreSets = record {
  has = λ s x. stands_in x s;
  new_set-has = λ x. refl;
  add-has = λ y s x. refl;
  intersect-has = both_sets-stands_in;
  slice-has = λ s x. refl;
}

abbrev lemma_attr : PosAttr
lemma_attr = record word_attr { id = "lemma"; name = "lemma"; layer = "lemma" }

abbrev second_corpus : CorpusSetup
second_corpus = record corpus { id = "b"; pos_attrs = word_attr ∷ lemma_attr ∷ [] }

get_common_layers-in_all_example :
    (layers : List String) × (get_common_layers lists (second_corpus ∷ corpus ∷ []) ≡ some layers)
    × ((x : String) → stands_in x layers ≡ in_all x (second_corpus ∷ corpus ∷ []))
get_common_layers-in_all_example =
    get_common_layers-in_all lists lists-AreSets second_corpus (corpus ∷ [])

endpoint_description-qualified_example :
    qualified "lemma" (endpoint_description (second_corpus ∷ corpus ∷ [])).supported_layers
    ≡ all_named "lemma" (second_corpus ∷ corpus ∷ [])
endpoint_description-qualified_example =
    endpoint_description-qualified "lemma" second_corpus (corpus ∷ [])
      ((refl, (refl, tt)), ((refl, tt), tt))
