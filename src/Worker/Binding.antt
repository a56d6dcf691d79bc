-- ===== src/Worker/Binding.antt =====
-- mango/mango.go and worker/worker.go: how the binding of the corpus engine is called, and
-- worker/common.go.
use mquery_fcs.Corpus.CommonLayers.{stands_in}
use mquery_fcs.Handler.Params.{split_at}
use mquery_fcs.Handler.V20.DataViews.{join}
use mquery_fcs.Prelude.{ℕ, if◌then◌else◌, String, List, [], ◌∷◌}
use mquery_fcs.Rdb.{ConcQueryArgs}
use mquery_fcs.Result.{ConcResult}
use mquery_fcs.Worker.{Examples, conc_result}

-- The arguments of `conc_examples`.
pub record Call : Type 0 where
  pub corpus : String
  pub query : String
  pub attrs : String
  pub structs : String
  pub refs : String
  pub refs_end_mark : String
  pub from_line : ℕ
  pub max_items : ℕ
  pub max_context : ℕ
  pub view_context_struct : String

-- The references of a line with the number of its token.
abbrev pub with_number : List String → List String
with_number refs = if stands_in "#" refs then refs else "#" ∷ refs

-- The part of `GetConcordance` in front of the call, with the mark of the library of concordances.
unfoldable pub conc_examples_call : String → List String → List String → ConcQueryArgs → Call
unfolding join
conc_examples_call refs_end_mark structs refs args = record {
  corpus = args.corpus;
  query = args.query;
  attrs = join "," args.attrs;
  structs = join "," structs;
  refs = join "," (with_number refs);
  refs_end_mark = refs_end_mark;
  from_line = args.start_line;
  max_items = args.max_items;
  max_context = args.max_context;
  view_context_struct = args.view_context_struct;
}

-- A worker's `ConcResult` on the binding: it asks for no structures and no references of its own.
unfoldable pub conc_result_of :
    {L : Type 0}
    → (List String → List String → List L)
    → String
    → (Call → Examples)
    → ConcQueryArgs
    → ConcResult L
unfolding conc_examples_call conc_result
conc_result_of parse refs_end_mark conc_examples args =
    conc_result parse (λ a. conc_examples (conc_examples_call refs_end_mark [] [] a)) args

abbrev first : List String → String
first [] = ""
first (s ∷ ss) = s

-- `extractAttrFromTTCrit`.
unfoldable pub extract_attr_from_tt_crit : String → String
unfolding split_at
extract_attr_from_tt_crit crit = first (split_at 32 crit "")
