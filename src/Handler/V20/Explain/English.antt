-- ===== src/Handler/V20/Explain/English.antt =====
-- What a client finds in the description of a server that has started.
use mquery_fcs.Cnf
use mquery_fcs.Cnf.Starting.{HasEn, InfoComplete, validate_and_defaults-Starts}
use mquery_fcs.Cnf.{ServerInfo, ready}
use mquery_fcs.Corpus.Corpora.Defaults.{AllValid, validate_and_defaults-IsReady}
use mquery_fcs.Corpus.Corpora.Twice.{validate_and_defaults-twice}
use mquery_fcs.Corpus.Corpora.{CorporaConf, DirTest}
use mquery_fcs.Corpus.Setup.Validity.{has_en}
use mquery_fcs.Corpus.Setup.{CorpusSetup, TextMap, has_key}
use mquery_fcs.Handler.Params.{Params, query}
use mquery_fcs.Handler.V20.Args.{validate_explain_arg}
use mquery_fcs.Handler.V20.Explain.{
  Multilingual, entries, multilingual, ExplainResource, EndpointDescription, explain_resource,
  wanted, explain,
}
use mquery_fcs.Handler.V20.Request.{CorporaSetup}
use mquery_fcs.Handler.V20.Scan.{refused}
use mquery_fcs.Prelude.{
  str_eq, if◌then◌else◌, String, Bool, true, false, Option, none, some, List, [], ◌∷◌, map, ◌≡◌,
  refl, inl, inr, Bool-cases, Option-cases,
}

-- There is a text in the language.
unfoldable pub speaks : String → List Multilingual → Bool
speaks l [] = false
speaks l (m ∷ ms) = if str_eq m.language l then true else speaks l ms

abbrev pub AllEnglish : List ExplainResource → Type 0
AllEnglish [] = Unit
AllEnglish (r ∷ rs) =
    (has_key "en" r.titles ≡ true) × (has_key "en" r.descriptions ≡ true) × AllEnglish rs

abbrev pub EnglishIfGiven : Option EndpointDescription → Type 0
EnglishIfGiven none = Unit
EnglishIfGiven (some e) = AllEnglish e.resources

speaks-map :
    (primary l : String) (m : List (String × String))
    → has_key l m ≡ true
    → speaks l (multilingual primary (some m)) ≡ true
unfolding speaks
speaks-map primary l [] h = h
speaks-map primary l ((k, v) ∷ m) h = elim (Bool-cases (str_eq k l)) [
  | inl t ↦ rw t refl
  | inr f ↦ rw f (speaks-map primary l m (rw (has_key, f) at h))
]

HasEn-speaks :
    (primary : String) (m : TextMap) → HasEn m → speaks "en" (multilingual primary m) ≡ true
HasEn-speaks primary none h = absurd h
HasEn-speaks primary (some m) h = speaks-map primary "en" m h

has_en-entries : (m : TextMap) → has_en m ≡ true → has_key "en" (entries m) ≡ true
unfolding has_en
has_en-entries none h = cc
has_en-entries (some m) h = h

AllValid-AllEnglish : (cs : List CorpusSetup) → AllValid cs → AllEnglish (map explain_resource cs)
AllValid-AllEnglish [] v = tt
AllValid-AllEnglish (c ∷ cs) v = (
  has_en-entries c.full_name v.0.full_name,
  has_en-entries c.description v.0.description,
  AllValid-AllEnglish cs v.1,
)

wanted-EnglishIfGiven :
    (cs : List CorpusSetup) (ps : Params) → AllValid cs → EnglishIfGiven (wanted cs ps)
wanted-EnglishIfGiven cs ps v =
    elim (Bool-cases (str_eq (query ps "x-fcs-endpoint-description") "true")) [
      | inl t ↦ rw (wanted, t) (AllValid-AllEnglish cs v)
      | inr f ↦ rw (wanted, f) tt
    ]

-- The configuration of the corpora as the handlers have it.
abbrev pub serving : CorporaConf → CorporaSetup
serving c = record {
  maximum_records = c.maximum_records;
  maximum_context = c.maximum_context.magnitude;
  resources = c.resources;
}

-- What a server that has started can say of itself.
pub started-English :
    (is_dir : String → DirTest) (load_location : String → Option String) (c : Cnf.GivenConf)
    (d : Cnf.Conf) (info : ServerInfo)
    → Cnf.validate_and_defaults is_dir load_location c ≡ ready d
    → d.server_info ≡ some info
    → (speaks "en" (multilingual info.primary_language info.database_title) ≡ true)
      × ((ps : Params) → EnglishIfGiven (wanted d.corpora_setup.resources ps))
started-English is_dir load_location c d info h i =
    let s = validate_and_defaults-Starts is_dir load_location c d h in
    let complete : InfoComplete (some info) = rw i at s.server_info.1 in
    let again = validate_and_defaults-twice is_dir s.corpora.0 d.corpora_setup s.corpora.3 in
    let valid =
      (validate_and_defaults-IsReady is_dir d.corpora_setup d.corpora_setup again).all_valid in
    (
      HasEn-speaks info.primary_language info.database_title complete.title,
      λ ps. wanted-EnglishIfGiven d.corpora_setup.resources ps valid,
    )

-- If the server has started with its description and its corpora, `explain` names the database in
-- English, and where it describes the corpora it gives each an English title and an English
-- description.
pub explain-English :
    (is_dir : String → DirTest) (load_location : String → Option String) (c : Cnf.GivenConf)
    (d : Cnf.Conf) (info : ServerInfo) (escaping : String) (ps : Params)
    → Cnf.validate_and_defaults is_dir load_location c ≡ ready d
    → d.server_info ≡ some info
    → let e = explain info (serving d.corpora_setup) escaping ps in
      (speaks "en" e.explain_record.database_info.titles ≡ true)
      × EnglishIfGiven e.endpoint_description
unfolding explain
explain-English is_dir load_location c d info escaping ps h i =
    let e = started-English is_dir load_location c d info h i in
    elim (Option-cases (refused validate_explain_arg ps)) [
      | inl n ↦ rw (explain, n) (e.0, e.1 ps)
      | inr (r, n) ↦ rw (explain, n) (e.0, tt)
    ]
