-- ===== src/Tests/Configurations.antt =====
-- A corpus, queries for it, and a request that is answered with one record.
use Prim.Native.String
use mquery_fcs.Corpus.CommonAttrs.{
  collect_corpora, sort_attrs, get_common_pos_attrs, get_common_pos_attr_names,
}
use mquery_fcs.Corpus.Corpora.{CorporaConf, tested, validate_and_defaults, validate_resources}
use mquery_fcs.Corpus.Corpora.Defaults.{IsReady, validate_and_defaults-IsReady}
use mquery_fcs.Corpus.Layers.{validate_layer, PosAttr, StructureMapping}
use mquery_fcs.Corpus.Resources.{get_resource}
use mquery_fcs.Corpus.Setup.{CorpusSetup, validate, count_attrs, add_default, check_defaults}
use mquery_fcs.Corpus.Setup.Layers.{defaults_of}
use mquery_fcs.Handler.Params.{Params, get_query, atoi, read_digits, split_at}
use mquery_fcs.Handler.V20.Args.{fetch_context, validate_search_retr_arg}
use mquery_fcs.Handler.V20.Request.{
  CorporaSetup, SearchRequest, check_request, with_maximum, with_corpora,
}
use mquery_fcs.Handler.V20.Request.Bounds.{InBounds, check_request-InBounds}
use mquery_fcs.Handler.V20.Responses.{SrResponse, new_response}
use mquery_fcs.Handler.V20.Search.{
  Parsed, parsed, syntax_error, Published, result, publish_all, fill_results, deliver, make_records,
  finish, search_retrieve,
}
use mquery_fcs.Handler.V20.Search.Positions.{InOrder, search_retrieve-InOrder}
use mquery_fcs.Prelude.Text.{concat}
use mquery_fcs.Prelude.{◌≡◌, ◌↔◌, refl, String, true, false, none, some, [], ◌∷◌}
use mquery_fcs.Rdb.{ConcQueryArgs}
use mquery_fcs.Result.RoundRobin.{
  set_rsc_lines, any_started, all_has_out_of_range_error, all_err, next, all_empty, curr_rsc_name,
  curr_line, advance,
}
use mquery_fcs.Query.Basic.{BinaryOperatorQuery, binary, no_rest, term, text, generate_word}
use mquery_fcs.Query.Basic.Words.{written_word, generate_word-written}
use mquery_fcs.Query.FcsQl.Building.{item_text, generate_expression-add_tail_item}
use mquery_fcs.Query.FcsQl.{
  BasicExpression, generate_item, generate_expression, add_tail_item, Query, single, quantified,
  sequence, segment, empty_segment, expression, attr_op_regexp, no_tail, generate, generate_main,
  translate_pos_attr, generate_regexp, quote, translate_within_ctx,
}
use mquery_fcs.Query.FcsQl.Defaults.{Provided, generate-Provided}
use mquery_fcs.Query.FcsQl.Rendering.{attrs_main}

abbrev pub word_attr : PosAttr
word_attr = record {
  id = "word";
  name = "word";
  layer = "text";
  is_basic_search_attr = true;
  is_layer_default = true;
}

abbrev structures : StructureMapping
structures = record {
  sentence_struct = "s";
  utterance_struct = "";
  paragraph_struct = "p";
  turn_struct = "";
  text_struct = "doc";
  session_struct = "";
}

abbrev pub corpus : CorpusSetup
corpus = record {
  id = "a";
  pid = "pid:a";
  full_name = some (("en", "Corpus A") ∷ []);
  description = some (("en", "A corpus") ∷ []);
  languages = some ("cs" ∷ []);
  uri = "";
  pos_attrs = word_attr ∷ [];
  structure_mapping = structures;
  view_context_struct = "";
  kontext_backlink_root_url = "";
}

-- [word="dog"] []{3,} within s
abbrev dog_query : Query
dog_query = record {
  main_query =
      sequence
        (quantified
          (segment (
            expression
              (attr_op_regexp (record { name = ""; value = "word" }) "="
                (record { regexp = record { value = "dog"; regexp = "" }; flags = [] }))
              no_tail))
          "")
        (single (quantified empty_segment "{3,}"));
  within = some "s";
  structure_mapping = structures;
  pos_attrs = word_attr ∷ [];
  errors = "old" ∷ [];
}

dog_query_text : (generate dog_query).0 ≡ "[word=\"dog\"] []{3,} within <s />"
unfolding generate concat generate_main translate_pos_attr generate_regexp quote
    translate_within_ctx
dog_query_text = refl

generate-Provided_example :
    (generate dog_query).1.errors ≡ [] ↔ Provided (word_attr ∷ []) (attrs_main dog_query.main_query)
unfolding attrs_main defaults_of
generate-Provided_example = generate-Provided dog_query ((refl, refl, tt)) (refl, tt)

generate_word-written_example : generate_word "a\"b" ≡ written_word "a\"b"
generate_word-written_example = generate_word-written "a\"b"

-- word="dog" & word="cat"
abbrev has_word : String → BasicExpression
has_word w =
    attr_op_regexp (record { name = ""; value = "word" }) "="
      (record { regexp = record { value = w; regexp = "" }; flags = [] })

generate_expression-add_tail_item_example :
    generate_expression
      (word_attr ∷ [])
      (add_tail_item (expression (has_word "dog") no_tail) "&" (has_word "cat"))
      []
    ≡ (
      String.◌++◌
          (generate_expression (word_attr ∷ []) (expression (has_word "dog") no_tail) []).0
          (item_text "&"
            (generate_item
              (word_attr ∷ [])
              (has_word "cat")
              (generate_expression (word_attr ∷ []) (expression (has_word "dog") no_tail) []).1).0),
      (generate_item
          (word_attr ∷ [])
          (has_word "cat")
          (generate_expression (word_attr ∷ []) (expression (has_word "dog") no_tail) []).1).1,
    )
generate_expression-add_tail_item_example =
    generate_expression-add_tail_item (word_attr ∷ []) (expression (has_word "dog") no_tail) "&"
      (has_word "cat") []

abbrev pub conf : CorporaSetup
conf = record {
  maximum_records = record { negative = false; magnitude = 50 };
  maximum_context = 10;
  resources = corpus ∷ [];
}

abbrev pub params : Params
params = ("query", "dog") ∷ ("startRecord", "2") ∷ []

abbrev dog_request : SearchRequest
dog_request = record {
  fcs_query = "dog";
  start_record = 2;
  maximum_records = 50;
  corpora = "a" ∷ [];
  retrieve_attrs = "word" ∷ "word" ∷ [];
}

abbrev echo : SrResponse String
echo = record new_response { echoed_query = "dog"; echoed_start_record = 2 }

check_request-InBounds_example : InBounds params echo dog_request
unfolding check_request with_maximum with_corpora get_query atoi read_digits fetch_context split_at
    validate_search_retr_arg get_common_pos_attr_names get_common_pos_attrs collect_corpora
    sort_attrs get_resource
check_request-InBounds_example = check_request-InBounds conf params echo dog_request refl

abbrev pub parse_word : String → Parsed BinaryOperatorQuery
parse_word q = parsed (binary (term (text q) false) no_rest)

abbrev pub parse_nothing : String → Parsed Query
parse_nothing q = syntax_error "no match found"

-- A worker whose corpus has two lines for each query.
abbrev worker : ConcQueryArgs → Published String
worker args =
    result (record { lines = "second" ∷ []; conc_size = 2; query = args.query; error = none })

abbrev found : SrResponse String
found = record echo {
  number_of_records = 2;
  records = record { pid = "pid:a"; resource = corpus; line = "second"; record_position = 2 } ∷ [];
}

search_retrieve-InOrder_example : InOrder found 1000
unfolding search_retrieve check_request with_maximum with_corpora get_query atoi read_digits
    fetch_context split_at validate_search_retr_arg get_common_pos_attr_names get_common_pos_attrs
    collect_corpora sort_attrs get_resource publish_all fill_results deliver make_records finish
    set_rsc_lines any_started all_has_out_of_range_error all_err next all_empty curr_rsc_name
    curr_line advance
search_retrieve-InOrder_example =
    search_retrieve-InOrder parse_word parse_nothing worker conf params found refl

abbrev pub corpora_conf : CorporaConf
corpora_conf = record {
  registry_dir = "/registry";
  maximum_records = record { negative = false; magnitude = 0 };
  maximum_context = record { negative = false; magnitude = 10 };
  resources = corpus ∷ [];
}

abbrev pub ready_conf : CorporaConf
ready_conf = record corpora_conf {
  maximum_records = record { negative = false; magnitude = 50 };
  resources = record corpus { view_context_struct = "s" } ∷ [];
}

validate_and_defaults-IsReady_example : IsReady corpora_conf ready_conf
unfolding validate_and_defaults validate_resources validate validate_layer count_attrs add_default
    check_defaults
validate_and_defaults-IsReady_example =
    validate_and_defaults-IsReady (λ dir. tested true) corpora_conf ready_conf refl
