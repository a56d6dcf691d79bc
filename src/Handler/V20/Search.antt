-- ===== src/Handler/V20/Search.antt =====
-- handler/v20/searchrt.go: the search of `searchRetrieve`, behind the checks of its parameters.
pub mod Positions
pub mod Pages
pub mod Forms
pub mod Failures
use mquery_fcs.Corpus.Layers.{PosAttr, StructureMapping}
use mquery_fcs.Corpus.Resources.{get_resource}
use mquery_fcs.Corpus.Setup.{CorpusSetup}
use mquery_fcs.General.Errors.{
  as_message, dc_general_system_error, dc_query_syntax_error, dc_unsupported_parameter_value,
  dc_query_cannot_process, dc_first_record_pos_out_of_range,
}
use mquery_fcs.General.Request.{conformant_unprocessable_entity, conformand_general_server_error}
use mquery_fcs.Handler.Params.{Params, default_query}
use mquery_fcs.Handler.V20.Args.{query_type_cql, query_type_fcs}
use mquery_fcs.Handler.V20.Request.{CorporaSetup, SearchRequest, check_request}
use mquery_fcs.Handler.V20.Responses.{
  SrRecord, SrResponse, dflt_msg, with_msg, Step, panicked, answered, going, refuse, unpanicked,
  ◌>>=◌, ◌>>◌,
}
use mquery_fcs.Prelude.{
  ℕ, zero, suc, ◌+◌, ◌-◌, ltb, str_eq, if◌then◌else◌, String, Bool, true, false, Option, none, some,
  List, [], ◌∷◌, length,
}
use mquery_fcs.Prelude.Text.{concat}
use mquery_fcs.Query.Basic.{BinaryOperatorQuery, generate_binary}
use mquery_fcs.Query.FcsQl
use mquery_fcs.Query.FcsQl.{generate}
use mquery_fcs.Query.Ranges.{LineRange, calculate_partial_ranges, pid_list}
use mquery_fcs.Rdb.{ConcQueryArgs}
use mquery_fcs.Result.{GoError, rows_range_out_of_conc, message, error_text, ConcResult}
use mquery_fcs.Result.RoundRobin.{
  RoundRobinLineSel, new_sel, rsc_set_error_at, set_rsc_lines, all_has_out_of_range_error,
  get_first_error, has_fatal_error, next, curr_rsc_name, curr_line,
}

-- What a parser makes of a query: a message, or a tree.
pub data Parsed (A : Type 0) : Type 0 where
  syntax_error : String → Parsed A
  parsed : A → Parsed A

-- What comes of a query that is published to the workers: an error at once, or the result that is
-- waited for.
pub data Published (L : Type 0) : Type 0 where
  not_published : String → Published L
  result : ConcResult L → Published L

-- A query of either type that is ready to be generated, with its text and errors.
abbrev pub Generated : Type 0
Generated = String × List String

module _ {L : Type 0} where
  abbrev pub generate_basic_query :
      CorpusSetup → Parsed BinaryOperatorQuery → SrResponse L → String → Step L Generated
  generate_basic_query res (syntax_error e) ans q =
      refuse ans conformant_unprocessable_entity
        (with_msg dc_query_syntax_error q (concat ("Invalid query syntax: " ∷ e ∷ [])))
  generate_basic_query res (parsed b) ans q =
      going (generate_binary res.structure_mapping.sentence_struct res.pos_attrs b, [])

  abbrev pub generate_fcs_query :
      CorpusSetup → Parsed FcsQl.Query → SrResponse L → String → Step L Generated
  generate_fcs_query res (syntax_error e) ans q =
      refuse ans conformant_unprocessable_entity
        (with_msg dc_query_syntax_error q (concat ("Invalid query syntax: " ∷ e ∷ [])))
  generate_fcs_query res (parsed t) ans q =
      let g =
        generate
          (record t { structure_mapping = res.structure_mapping; pos_attrs = res.pos_attrs }) in
      going (g.0, g.1.errors)

  -- The value of a lookup of a resource.
  abbrev pub found_or : SrResponse L → ℕ → Option CorpusSetup → Step L CorpusSetup
  found_or ans status none =
      refuse ans status (dflt_msg dc_general_system_error "resource not found")
  found_or ans status (some c) = going c

  abbrev pub no_errors : SrResponse L → List String → Step L (Unit {0})
  no_errors ans [] = going tt
  no_errors ans (e ∷ es) =
      refuse ans conformant_unprocessable_entity (with_msg dc_query_cannot_process "query" e)

  abbrev pub awaited : SrResponse L → Published L → Step L (ConcResult L)
  awaited ans (not_published e) = refuse ans 500 (dflt_msg dc_general_system_error e)
  awaited ans (result r) = going r

  -- What the error of a result does to the selector. The variable `err` of the source, which is put
  -- in place of an error of the range, is `nil` there.
  abbrev pub note_error :
      SrResponse L → ℕ → Option GoError → RoundRobinLineSel L → Step L (RoundRobinLineSel L)
  note_error ans i none sel = going sel
  note_error ans i (some rows_range_out_of_conc) sel = unpanicked (rsc_set_error_at i none sel)
  note_error ans i (some (message m)) sel = refuse ans 500 (dflt_msg dc_query_cannot_process m)

  -- The loop over the results, from the `i`-th on, with the lines counted so far.
  unfoldable pub fill_results :
      SrResponse L
      → ℕ
      → List (String × ConcResult L)
      → ℕ
      → RoundRobinLineSel L
      → Step L (ℕ × RoundRobinLineSel L)
  fill_results ans i [] total sel = going (total, sel)
  fill_results ans i ((rsc, res) ∷ rs) total sel = do
    noted ← note_error ans i res.error sel
    filled ← unpanicked (set_rsc_lines rsc res noted)
    fill_results ans (i + 1) rs (total + res.conc_size) filled

  abbrev pub error_message : Option GoError → Step L String
  error_message none = panicked
  error_message (some e) = going (error_text e)

  abbrev pub check_results : SrResponse L → RoundRobinLineSel L → Step L (Unit {0})
  check_results ans sel =
      if all_has_out_of_range_error sel
      then (do
        m ← error_message (get_first_error sel)
        refuse ans conformant_unprocessable_entity (dflt_msg dc_first_record_pos_out_of_range m))
      else if has_fatal_error sel
      then (do
        m ← error_message (get_first_error sel)
        refuse ans conformand_general_server_error (dflt_msg dc_query_cannot_process m))
      else going tt

  -- The loop that makes the records: `left` more at most, the next at the position.
  unfoldable pub make_records :
      List CorpusSetup → SrResponse L → ℕ → ℕ → RoundRobinLineSel L → Step L (List (SrRecord L))
  make_records cs ans zero position sel = going []
  make_records cs ans (suc left) position sel = unpanicked (next sel) >>= λ n.
      let more = make_records cs ans left (position + 1) n.1 in
      if n.0
      then (do
        name ← unpanicked (curr_rsc_name n.1)
        res ← found_or ans 500 (get_resource cs name)
        pointer ← unpanicked (curr_line n.1)
        line ← unpanicked pointer
        rest ← more
        going (
            record { pid = res.pid; resource = res; line = line; record_position = position }
            ∷ rest))
      else going []

  -- The end of `searchRetrieve`: what it returns with the records.
  unfoldable pub finish : SrResponse L → ℕ → List (SrRecord L) → SrResponse L
  finish ans start records = record ans {
    status = 200;
    records = records;
    next_record_position =
        if ltb (length records + start - 1) ans.number_of_records
        then length records + start
        else 0;
  }

  -- `searchRetrieve` from the check of the results on.
  unfoldable pub deliver :
      List CorpusSetup → SrResponse L → SearchRequest → RoundRobinLineSel L → Step L (SrResponse L)
  unfolding make_records finish
  deliver cs counted r sel = do
    check_results counted sel
    records ← make_records cs counted r.maximum_records r.start_record sel
    going (finish counted r.start_record records)

module _ {L : Type 0} (parse_basic : String → Parsed BinaryOperatorQuery)
    (parse_fcs : String → Parsed FcsQl.Query) (publish : ConcQueryArgs → Published L) where
  -- `translateQuery`, with the `Generate` of the tree that it returns.
  abbrev pub translate_query : SrResponse L → CorpusSetup → String → String → Step L Generated
  translate_query ans res q query_type =
      if str_eq query_type query_type_cql
      then generate_basic_query res (parse_basic q) ans q
      else if str_eq query_type query_type_fcs
      then generate_fcs_query res (parse_fcs q) ans q
      else refuse ans conformant_unprocessable_entity (
          with_msg dc_unsupported_parameter_value query_type
            (as_message dc_unsupported_parameter_value))

  -- The loop over the ranges; each query is published before the next is translated.
  unfoldable pub publish_all :
      CorporaSetup
      → SrResponse L
      → SearchRequest
      → String
      → List LineRange
      → Step L (List (String × ConcResult L))
  publish_all conf ans r query_type [] = going []
  publish_all conf ans r query_type (rng ∷ rngs) = do
    res ← found_or ans conformant_unprocessable_entity (get_resource conf.resources rng.rsc)
    g ← translate_query ans res r.fcs_query query_type
    no_errors ans g.1
    answer ← awaited ans (
        publish (record {
          corpus = rng.rsc;
          query = g.0;
          attrs = r.retrieve_attrs;
          start_line = rng.from;
          max_items = r.maximum_records;
          max_context = conf.maximum_context;
          view_context_struct = res.view_context_struct;
        }))
    rest ← publish_all conf ans r query_type rngs
    going ((rng.rsc, answer) ∷ rest)

  -- `searchRetrieve`.
  unfoldable pub search_retrieve : CorporaSetup → Params → Step L (SrResponse L)
  unfolding check_request publish_all fill_results deliver calculate_partial_ranges new_sel
  search_retrieve conf ps = do
    request ← check_request conf ps
    let ans = request.0
    let r = request.1
    ranges ← unpanicked (calculate_partial_ranges r.corpora (r.start_record - 1) r.maximum_records)
    results ← publish_all conf ans r (default_query ps "queryType" query_type_cql) ranges
    filled ← fill_results ans 0 results 0 (new_sel r.maximum_records (pid_list ranges))
    deliver conf.resources (record ans { number_of_records = filled.0 }) r filled.1
