-- ===== src/Handler/V20/Request.antt =====
-- handler/v20/searchrt.go: what `searchRetrieve` asks of a request before it searches.
pub mod Bounds
pub mod Forms
use mquery_fcs.Corpus.CommonAttrs.{get_common_pos_attr_names}
use mquery_fcs.Corpus.Resources.{get_corpora, get_resource_by_pid}
use mquery_fcs.Corpus.Setup.{CorpusSetup}
use mquery_fcs.General.Errors.{
  dc_general_system_error, dc_unsupported_parameter, dc_unsupported_parameter_value,
  dc_mandatory_parameter_not_supplied, dc_unsupported_context_set, dc_too_many_matching_records,
  dc_unknown_schema_for_retrieval,
}
use mquery_fcs.General.Request.{
  conformant_status_bad_request, conformant_unprocessable_entity, record_schema,
}
use mquery_fcs.Handler.Params.{Params, atoi, default_query, query}
use mquery_fcs.Prelude.Integers.{Integer}
use mquery_fcs.Handler.V20.Args.{fetch_context, validate_search_retr_arg}
use mquery_fcs.Handler.V20.Responses.{
  SrResponse, new_response, dflt_msg, with_msg, Step, panicked, answered, going, refuse, ◌>>=◌,
  ◌>>◌,
}
use mquery_fcs.Handler.V20.Scan.{refused}
use mquery_fcs.Prelude.{
  ℕ, ltb, str_eq, if◌then◌else◌, String, Bool, true, false, ◌&&◌, ◌||◌, Option, none, some, List,
  [], ◌∷◌, ◌++◌,
}

-- `mango.MaxRecordsInternalLimit`.
abbrev pub max_records_internal_limit : ℕ
max_records_internal_limit = 1000

-- `CorporaSetup`, without the directories.
pub record CorporaSetup : Type 0 where
  pub maximum_records : Integer
  pub maximum_context : ℕ
  pub resources : List CorpusSetup

-- The local variables of `searchRetrieve` where the search begins.
pub record SearchRequest : Type 0 where
  pub fcs_query : String
  pub start_record : ℕ
  pub maximum_records : ℕ
  pub corpora : List String
  pub retrieve_attrs : List String

abbrev pub less_than_one : Integer → Bool
less_than_one n = n.negative || ltb n.magnitude 1

module _ {L : Type 0} where
  abbrev pub check_names : SrResponse L → Params → Step L (Unit {0})
  check_names ans ps = elim (refused validate_search_retr_arg ps) [
    | none ↦ going tt
    | some r ↦ refuse ans conformant_status_bad_request (with_msg dc_unsupported_parameter r.0 r.1)
  ]

  abbrev pub check_query : SrResponse L → String → Step L (Unit {0})
  check_query ans q =
      if str_eq q ""
      then refuse ans conformant_status_bad_request
          (dflt_msg dc_mandatory_parameter_not_supplied "fcs_query")
      else going tt

  -- A number that has to be at least 1.
  abbrev pub check_positive : SrResponse L → String → Integer → Step L ℕ
  check_positive ans name n =
      if less_than_one n
      then refuse ans conformant_unprocessable_entity (dflt_msg dc_unsupported_parameter_value name)
      else going n.magnitude

  abbrev pub parse_int : SrResponse L → String → String → Step L Integer
  parse_int ans name x = elim (atoi x) [
    | none ↦
        refuse ans conformant_unprocessable_entity (dflt_msg dc_unsupported_parameter_value name)
    | some n ↦ going n
  ]

  abbrev pub check_schema : SrResponse L → String → Step L (Unit {0})
  check_schema ans schema =
      if str_eq schema record_schema
      then going tt
      else refuse ans conformant_unprocessable_entity
          (dflt_msg dc_unknown_schema_for_retrieval "maximumRecords")

  abbrev pub read_maximum : SrResponse L → Integer → String → Step L Integer
  read_maximum ans dflt x = if str_eq x "" then going dflt else parse_int ans "maximumRecords" x

  abbrev pub check_limit : SrResponse L → ℕ → Step L (Unit {0})
  check_limit ans m =
      if ltb max_records_internal_limit m
      then refuse ans conformant_unprocessable_entity (dflt_msg dc_too_many_matching_records "1000")
      else going tt

  -- The loop over the PIDs; an unknown one ends the request with no records.
  abbrev pub corpora_of_pids : SrResponse L → List CorpusSetup → List String → Step L (List String)
  corpora_of_pids ans cs [] = going []
  corpora_of_pids ans cs (pid ∷ pids) = elim (get_resource_by_pid cs pid) [
    | none ↦ answered (record ans { status = 200; records = [] })
    | some c ↦ corpora_of_pids ans cs pids >>= λ rest. going (c.id ∷ rest)
  ]

  abbrev pub choose_corpora : SrResponse L → List CorpusSetup → List String → Step L (List String)
  choose_corpora ans cs [] = going (get_corpora cs)
  choose_corpora ans cs (pid ∷ pids) = corpora_of_pids ans cs (pid ∷ pids)

  abbrev pub check_corpora : SrResponse L → List String → Step L (Unit {0})
  check_corpora ans [] =
      refuse ans conformant_status_bad_request (dflt_msg dc_unsupported_context_set "x-fcs-context")
  check_corpora ans (c ∷ cs) = going tt

  -- The first attribute is asked for once more; there has to be one.
  abbrev pub first_again : List String → Step L (List String)
  first_again [] = panicked
  first_again (a ∷ l) = going ((a ∷ l) ++ a ∷ [])

  abbrev pub attrs_to_retrieve :
      SrResponse L → List CorpusSetup → List String → Step L (List String)
  attrs_to_retrieve ans cs corpora = elim (get_common_pos_attr_names cs corpora) [
    | none ↦ refuse ans 500 (dflt_msg dc_general_system_error "resource not found")
    | some l ↦ first_again l
  ]

  -- `searchRetrieve` from the choice of the corpora to the ranges.
  unfoldable pub with_corpora :
      CorporaSetup → Params → SrResponse L → String → ℕ → ℕ → Step L (SrResponse L × SearchRequest)
  with_corpora conf ps echo q s m = do
    corpora ← choose_corpora echo conf.resources (fetch_context ps)
    check_corpora echo corpora
    attrs ← attrs_to_retrieve echo conf.resources corpora
    going (
      echo,
      record {
        fcs_query = q;
        start_record = s;
        maximum_records = m;
        corpora = corpora;
        retrieve_attrs = attrs;
      },
    )

  -- From the record schema on.
  unfoldable pub with_maximum :
      CorporaSetup → Params → SrResponse L → String → ℕ → Step L (SrResponse L × SearchRequest)
  with_maximum conf ps echo q s = do
    check_schema echo (default_query ps "recordSchema" record_schema)
    maximum ← read_maximum echo conf.maximum_records (query ps "maximumRecords")
    m ← check_positive echo "maximumRecords" maximum
    check_limit echo m
    with_corpora conf ps echo q s m

  -- `searchRetrieve` up to the ranges: the request, and the response with what it echoes.
  unfoldable pub check_request : CorporaSetup → Params → Step L (SrResponse L × SearchRequest)
  unfolding with_maximum with_corpora
  check_request conf ps = do
    let q = query ps "query"
    let ans = record new_response { echoed_query = q }
    check_names new_response ps
    check_query new_response q
    start ← parse_int ans "startRecord" (default_query ps "startRecord" "1")
    s ← check_positive ans "startRecord" start
    with_maximum conf ps (record ans { echoed_start_record = s }) q s
