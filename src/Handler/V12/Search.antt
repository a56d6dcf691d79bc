-- ===== src/Handler/V12/Search.antt =====
-- handler/v12/searchrt.go: `searchRetrieve` of version 1.2. What the source repeats of version 2.0 word
-- for word is taken from there: the checks of the parameters behind the start record, the lookup
-- of resources, the errors of queries and of their publishing, and the loop that makes the records.
pub mod Agreement
pub mod Failures
pub mod Forms
use mquery_fcs.Corpus.Resources.{get_resource}
use mquery_fcs.Corpus.Setup.{CorpusSetup}
use mquery_fcs.General.Errors.{dc_unsupported_parameter, dc_query_syntax_error}
use mquery_fcs.General.Request.{conformant_status_bad_request, conformant_unprocessable_entity}
use mquery_fcs.Handler.Params.{Params, default_query, query}
use mquery_fcs.Handler.V12.Args.{validate_search_retr_arg}
use mquery_fcs.Handler.V20.Request.{
  CorporaSetup, SearchRequest, check_query, parse_int, check_positive, with_maximum,
}
use mquery_fcs.Handler.V20.Responses.{
  SrRecord, SrResponse, new_response, with_msg, Step, panicked, going, refuse, unpanicked, ◌>>=◌,
  ◌>>◌,
}
use mquery_fcs.Handler.V20.Scan.{refused}
use mquery_fcs.Handler.V20.Search.{
  Parsed, syntax_error, parsed, Published, Generated, found_or, no_errors, awaited, check_results,
  make_records,
}
use mquery_fcs.Prelude.{ℕ, zero, suc, ◌+◌, ◌-◌, String, Option, none, some, List, [], ◌∷◌}
use mquery_fcs.Query.Basic.{BinaryOperatorQuery, generate_binary}
use mquery_fcs.Query.Ranges.{LineRange, calculate_partial_ranges, pid_list}
use mquery_fcs.Rdb.{ConcQueryArgs}
use mquery_fcs.Result.{GoError, rows_range_out_of_conc, message, ConcResult}
use mquery_fcs.Result.RoundRobin.{RoundRobinLineSel, new_sel, rsc_set_error_at, set_rsc_lines}

module _ {L : Type 0} where
  abbrev pub check_names : SrResponse L → Params → Step L (Unit {0})
  check_names ans ps = elim (refused validate_search_retr_arg ps) [
    | none ↦ going tt
    | some r ↦ refuse ans conformant_status_bad_request (with_msg dc_unsupported_parameter r.0 r.1)
  ]

  -- `searchRetrieve` up to the ranges: the request, and the response with what it echoes.
  unfoldable pub check_request : CorporaSetup → Params → Step L (SrResponse L × SearchRequest)
  check_request conf ps = do
    let q = query ps "query"
    let ans = record new_response { echoed_query = q }
    check_names new_response ps
    check_query new_response q
    start ← parse_int ans "startRecord" (default_query ps "startRecord" "1")
    s ← check_positive ans "startRecord" start
    with_maximum conf ps (record ans { echoed_start_record = s }) q s

  abbrev pub generate_query :
      CorpusSetup → Parsed BinaryOperatorQuery → SrResponse L → String → Step L Generated
  generate_query res (syntax_error e) ans q =
      refuse ans conformant_unprocessable_entity
        (with_msg dc_query_syntax_error q "Invalid query syntax")
  generate_query res (parsed b) ans q =
      going (generate_binary res.structure_mapping.sentence_struct res.pos_attrs b, [])

  -- What the error of a result does to the selector. Both uses of the variable `err` find it `nil`:
  -- it is put in place of an error of the range, and any other error asks it for its text.
  abbrev pub note_error : ℕ → Option GoError → RoundRobinLineSel L → Step L (RoundRobinLineSel L)
  note_error i none sel = going sel
  note_error i (some rows_range_out_of_conc) sel = unpanicked (rsc_set_error_at i none sel)
  note_error i (some (message m)) sel = panicked

  -- The loop over the results, from the `i`-th on, with the lines counted so far.
  unfoldable pub fill_results :
      ℕ → List (String × ConcResult L) → ℕ → RoundRobinLineSel L → Step L (ℕ × RoundRobinLineSel L)
  fill_results i [] total sel = going (total, sel)
  fill_results i ((rsc, res) ∷ rs) total sel = do
    noted ← note_error i res.error sel
    filled ← unpanicked (set_rsc_lines rsc res noted)
    fill_results (i + 1) rs (total + res.conc_size) filled

  -- The end of `searchRetrieve`. The responses of this version have no next position.
  unfoldable pub finish : SrResponse L → List (SrRecord L) → SrResponse L
  finish ans records = record ans { status = 200; records = records; next_record_position = 0 }

  -- `searchRetrieve` from the check of the results on.
  unfoldable pub deliver :
      List CorpusSetup → SrResponse L → SearchRequest → RoundRobinLineSel L → Step L (SrResponse L)
  deliver cs counted r sel = do
    check_results counted sel
    records ← make_records cs counted r.maximum_records r.start_record sel
    going (finish counted records)

module _ {L : Type 0} (parse_basic : String → Parsed BinaryOperatorQuery)
    (publish : ConcQueryArgs → Published L) where
  -- `translateQuery`, with the `Generate` of the tree that it returns.
  abbrev pub translate_query : SrResponse L → CorpusSetup → String → Step L Generated
  translate_query ans res q = generate_query res (parse_basic q) ans q

  -- The loop over the ranges; each query is published before the next is translated.
  unfoldable pub publish_all :
      CorporaSetup
      → SrResponse L
      → SearchRequest
      → List LineRange
      → Step L (List (String × ConcResult L))
  publish_all conf ans r [] = going []
  publish_all conf ans r (rng ∷ rngs) = do
    res ← found_or ans conformant_unprocessable_entity (get_resource conf.resources rng.rsc)
    g ← translate_query ans res r.fcs_query
    no_errors ans g.1
    answer ← awaited ans (
        publish (record {
          corpus = rng.rsc;
          query = g.0;
          attrs = r.retrieve_attrs;
          start_line = rng.from;
          max_items = r.maximum_records;
          max_context = conf.maximum_context;
          view_context_struct = res.view_context_struct;
        }))
    rest ← publish_all conf ans r rngs
    going ((rng.rsc, answer) ∷ rest)

  -- `searchRetrieve`.
  unfoldable pub search_retrieve : CorporaSetup → Params → Step L (SrResponse L)
  unfolding check_request publish_all fill_results deliver calculate_partial_ranges new_sel
  search_retrieve conf ps = do
    request ← check_request conf ps
    let ans = request.0
    let r = request.1
    ranges ← unpanicked (calculate_partial_ranges r.corpora (r.start_record - 1) r.maximum_records)
    results ← publish_all conf ans r ranges
    filled ← fill_results 0 results 0 (new_sel r.maximum_records (pid_list ranges))
    deliver conf.resources (record ans { number_of_records = filled.0 }) r filled.1
