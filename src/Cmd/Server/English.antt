-- ===== src/Cmd/Server/English.antt =====
-- What every client finds in the description of a server that the program has become.
use mquery_fcs.Cmd.Server.{
  Handler, fcs_handler, view_handler, assets, form_handler, workers_load, new_fcs_handler, page,
}
use mquery_fcs.Handler.View.{style_sheets}
use mquery_fcs.Cmd.Starting.{As, main-As}
use mquery_fcs.Cmd.{Outside, VersionInfo, serving, main}
use mquery_fcs.Cnf.{Conf, GivenConf, ServerInfo, ready, validate_and_defaults}
use mquery_fcs.Corpus.Corpora.{DirTest}
use mquery_fcs.Handler.Endpoint.{
  Server, Response, crashed, explained, searched, scanned, explain_refused, search_refused, of_step,
  respond_v20, respond_v12, handle_version, respond,
}
use mquery_fcs.Handler.Params.{Params}
use mquery_fcs.Handler.V12
use mquery_fcs.Handler.V20
use mquery_fcs.Handler.V20.Dispatch.{handle_with_xslt}
use mquery_fcs.Handler.V20.Explain.English.{
  speaks, EnglishIfGiven, explain-English, started-English,
}
use mquery_fcs.Handler.V20.Explain.{ExplainResponse}
use mquery_fcs.Handler.V20.Responses.{SrResponse, Step, panicked, answered, going}
use mquery_fcs.Handler.V20.Scan.{refused}
use mquery_fcs.Handler.V20.Search.{Parsed, Published}
use mquery_fcs.Prelude.{
  str_eq, String, true, Option, none, some, List, [], ◌≡◌, ap, ◌∙◌, inl, inr, Bool-cases,
  Option-cases,
}
use mquery_fcs.Query.Basic.{BinaryOperatorQuery}
use mquery_fcs.Query.FcsQl
use mquery_fcs.Rdb.{ConcQueryArgs}

abbrev pub InEnglish : ExplainResponse → Type 0
InEnglish e =
    (speaks "en" e.explain_record.database_info.titles ≡ true)
    × EnglishIfGiven e.endpoint_description

-- If the response describes the server, it does so in English.
abbrev pub DescribesInEnglish : {L : Type 0} → Option (Response L) → Type 0
DescribesInEnglish none = Unit
DescribesInEnglish (some crashed) = Unit
DescribesInEnglish (some (explained e)) = InEnglish e
DescribesInEnglish (some (searched r)) = Unit
DescribesInEnglish (some (scanned status ds)) = Unit
DescribesInEnglish (some (explain_refused status ds)) = Unit
DescribesInEnglish (some (search_refused status ds)) = Unit

module _ {L : Type 0} where
  step-English : (m : Step L (SrResponse L)) → DescribesInEnglish (some (of_step m))
  step-English panicked = tt
  step-English (answered r) = tt
  step-English (going r) = tt

  module _ (s : Server L) (ps : Params)
      (v20 : (escaping : String) → InEnglish (V20.Explain.explain s.info s.conf escaping ps))
      (v12 : (packing : String) → InEnglish (V12.Explain.explain s.info s.conf packing ps)) where
    respond_v20-English : (r : V20.Dispatch.Reply) → DescribesInEnglish (some (respond_v20 s ps r))
    respond_v20-English (V20.Dispatch.explain_errors es) = tt
    respond_v20-English (V20.Dispatch.search_errors es) = tt
    respond_v20-English (V20.Dispatch.explain q) = v20 q.record_xml_escaping
    respond_v20-English (V20.Dispatch.scan q) = tt
    respond_v20-English (V20.Dispatch.search_retrieve q) =
        step-English (V20.Search.search_retrieve s.parse_basic s.parse_fcs s.publish s.conf ps)

    respond_v12-English : (r : V12.Dispatch.Reply) → DescribesInEnglish (some (respond_v12 s ps r))
    respond_v12-English (V12.Dispatch.explain_errors es) = tt
    respond_v12-English (V12.Dispatch.search_errors es) = tt
    respond_v12-English (V12.Dispatch.explain q) = v12 q.record_packing
    respond_v12-English (V12.Dispatch.scan q) = tt
    respond_v12-English (V12.Dispatch.search_retrieve q) =
        step-English (V12.Search.search_retrieve s.parse_basic s.publish s.conf ps)

    respond-English :
        (xslt : List (String × String)) → DescribesInEnglish (some (respond s ps xslt))
    unfolding respond
    respond-English xslt = elim (Bool-cases (str_eq (handle_with_xslt ps).version "1.2")) [
      | inl t ↦
          rw (respond, handle_version, t)
            (respond_v12-English (V12.Dispatch.handle xslt (handle_with_xslt ps) ps))
      | inr f ↦
          rw (respond, handle_version, f)
            (respond_v20-English (V20.Dispatch.handle xslt (handle_with_xslt ps) ps))
    ]

-- What the description of version 1.2 says in the two parts is in that of version 2.0.
explain_v12-InEnglish :
    (is_dir : String → DirTest) (load_location : String → Option String) (c : GivenConf) (d : Conf)
    (info : ServerInfo) (packing : String) (ps : Params)
    → validate_and_defaults is_dir load_location c ≡ ready d
    → d.server_info ≡ some info
    → InEnglish (V12.Explain.explain info (V20.Explain.English.serving d.corpora_setup) packing ps)
unfolding V12.Explain.explain
explain_v12-InEnglish is_dir load_location c d info packing ps h i =
    let e = started-English is_dir load_location c d info h i in
    elim (Option-cases (refused V12.Args.validate_explain_arg ps)) [
      | inl n ↦ rw (V12.Explain.explain, n) (e.0, e.1 ps)
      | inr (r, n) ↦ rw (V12.Explain.explain, n) (e.0, tt)
    ]

serves-same : (o : Outside) (d e : Conf) → As o (serving d) e → e ≡ d
serves-same o d e (inl (a, q)) = cc
serves-same o d e (inr (a, q)) = cc

-- A server has a configuration that is valid with its defaults.
main-ready :
    (v : VersionInfo) (o : Outside) (d : Conf)
    → (main v o).1 ≡ serving d
    → (c : GivenConf) × (validate_and_defaults o.is_dir o.load_location c ≡ ready d)
main-ready v o d m =
    let p = (main-As v o (serving d)).0 (m, tt) in
    (p.1.0, p.1.2 ∙ ap ready (serves-same o d p.0 p.2))

module _ {L : Type 0} (parse_basic : String → Parsed BinaryOperatorQuery)
    (parse_fcs : String → Parsed FcsQl.Query) (publish : ConcQueryArgs → Published L) where
  served-English :
      (v : VersionInfo) (o : Outside) (d : Conf) (info : ServerInfo) (ps : Params)
      (xslt : List (String × String))
      → (main v o).1 ≡ serving d
      → d.server_info ≡ some info
      → DescribesInEnglish
          (some (respond (new_fcs_handler parse_basic parse_fcs publish info d) ps xslt))
  served-English v o d info ps xslt m i =
      let r = main-ready v o d m in
      respond-English (new_fcs_handler parse_basic parse_fcs publish info d) ps
        (λ escaping. explain-English o.is_dir o.load_location r.0 d info escaping ps r.1 i)
        (λ packing. explain_v12-InEnglish o.is_dir o.load_location r.0 d info packing ps r.1 i) xslt

  -- If the program becomes a server, whatever the route and the parameters, and in both versions of the
  -- protocol: a response that describes the server names its database in English and, where it
  -- describes the corpora, gives each an English title and an English description.
  pub page-English :
      (v : VersionInfo) (o : Outside) (d : Conf) (info : ServerInfo) (h : Handler) (ps : Params)
      → (main v o).1 ≡ serving d
      → d.server_info ≡ some info
      → DescribesInEnglish (page parse_basic parse_fcs publish info d h ps)
  unfolding page
  page-English v o d info fcs_handler ps m i = served-English v o d info ps [] m i
  page-English v o d info view_handler ps m i =
      served-English v o d info ps (style_sheets d.assets_url_path) m i
  page-English v o d info assets ps m i = tt
  page-English v o d info form_handler ps m i = tt
  page-English v o d info workers_load ps m i = tt
