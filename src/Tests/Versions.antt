-- ===== src/Tests/Versions.antt =====
-- A request under both versions, a worker that fails, and the data views of a line.
use mquery_fcs.Corpus.CommonAttrs.{
  collect_corpora, sort_attrs, get_common_pos_attrs, get_common_pos_attr_names,
}
use mquery_fcs.Corpus.Resources.{get_resource}
use mquery_fcs.General.Request.{FcsGeneralRequest}
use mquery_fcs.Handler.Params.{get_query, atoi, read_digits, split_at}
use mquery_fcs.Handler.V12
use mquery_fcs.Handler.V12.Dispatch.{as_v20, handle-V20}
use mquery_fcs.Handler.V12.Search.Agreement.{without_next, search_retrieve-V20}
use mquery_fcs.Handler.V12.Search.Failures.{search_retrieve-panicked}
use mquery_fcs.Handler.V20
use mquery_fcs.Handler.V20.Args.{fetch_context}
use mquery_fcs.Handler.V20.DataViews.Alignment.{AllLocated, AllRefer, advanced_view-Aligned}
use mquery_fcs.Handler.V20.DataViews.{Token, join, advanced_view}
use mquery_fcs.Handler.V20.Request.{SearchRequest, with_maximum, with_corpora}
use mquery_fcs.Handler.V20.Responses.{SrResponse, panicked, new_response}
use mquery_fcs.Handler.V20.Search.Failures.{refusal, search_retrieve-refused}
use mquery_fcs.Handler.V20.Search.{Published, result}
use mquery_fcs.Prelude.{String, true, false, none, some, List, [], ◌∷◌, ◌≡◌, refl, inl}
use mquery_fcs.Query.Ranges.{LineRange, calculate_partial_ranges, bump, tabulate}
use mquery_fcs.Rdb.{ConcQueryArgs, transmitted}
use mquery_fcs.Result.{rows_range_out_of_conc, ConcResult}
use mquery_fcs.Tests.Configurations.{word_attr, conf, params, parse_word, parse_nothing}

abbrev worker : ConcQueryArgs → Published String
worker args = result (record { lines = "second" ∷ []; conc_size = 2; query = ""; error = none })

no_error : (x : ConcQueryArgs) (c : ConcResult String) → worker x ≡ result c → c.error ≡ none
no_error x c h = cc

search_retrieve-V20_example :
    without_next (V20.Search.search_retrieve parse_word parse_nothing worker conf params)
    ≡ V12.Search.search_retrieve parse_word worker conf params
unfolding mquery_fcs.Handler.V12.Args.validate_search_retr_arg
    mquery_fcs.Handler.V20.Args.validate_search_retr_arg
search_retrieve-V20_example =
    search_retrieve-V20 parse_word parse_nothing worker conf params _ refl refl refl
      (λ x c h. inl (no_error x c h))

-- The page begins behind the last line of the corpus.
abbrev out_of_range : ConcResult String
out_of_range = record { lines = []; conc_size = 0; query = ""; error = some rows_range_out_of_conc }

abbrev failing : ConcQueryArgs → Published String
failing args = result (transmitted out_of_range)

abbrev echo : SrResponse String
echo = record new_response { echoed_query = "dog"; echoed_start_record = 2 }

abbrev dog_request : SearchRequest
dog_request = record {
  fcs_query = "dog";
  start_record = 2;
  maximum_records = 50;
  corpora = "a" ∷ [];
  retrieve_attrs = "word" ∷ "word" ∷ [];
}

abbrev ranges : List LineRange
ranges = record { rsc = "a"; from = 1; to = 51 } ∷ []

search_retrieve-panicked_example :
    V12.Search.search_retrieve parse_word failing conf params ≡ panicked
unfolding mquery_fcs.Handler.V12.Search.check_request with_maximum with_corpora get_query atoi
    read_digits fetch_context split_at mquery_fcs.Handler.V12.Args.validate_search_retr_arg
    get_common_pos_attr_names get_common_pos_attrs collect_corpora sort_attrs get_resource
    mquery_fcs.Handler.V12.Search.publish_all calculate_partial_ranges bump tabulate
search_retrieve-panicked_example =
    search_retrieve-panicked parse_word failing conf params echo dog_request ranges
      (("a", out_of_range) ∷ []) refl refl refl (inl (rows_range_out_of_conc, refl))

abbrev plain_request : FcsGeneralRequest
plain_request = record { version = "1.2"; errors = []; fatal = false; xslt = "" }

handle-V20_example :
    as_v20 (V12.Dispatch.handle [] plain_request params)
    ≡ V20.Dispatch.handle [] plain_request params
unfolding get_query
handle-V20_example = handle-V20 [] plain_request params refl refl

abbrev tokens : List Token
tokens =
    record { word = "a"; strong = false; attrs = ("word", "a") ∷ [] }
    ∷ record { word = "dog"; strong = true; attrs = ("word", "dog") ∷ [] }
    ∷ []

advanced_view-Aligned_example :
    let v = advanced_view (word_attr ∷ []) ("text" ∷ []) tokens in
    AllLocated (join " " ("a" ∷ "dog" ∷ [])) tokens v.segments × AllRefer v.segments v.layers
advanced_view-Aligned_example = advanced_view-Aligned (word_attr ∷ []) ("text" ∷ []) tokens

search_retrieve-refused_example :
    V20.Search.search_retrieve parse_word parse_nothing failing conf params
    ≡ V20.Responses.answered (refusal echo rows_range_out_of_conc)
unfolding mquery_fcs.Handler.V20.Request.check_request with_maximum with_corpora get_query atoi
    read_digits fetch_context split_at mquery_fcs.Handler.V20.Args.validate_search_retr_arg
    get_common_pos_attr_names get_common_pos_attrs collect_corpora sort_attrs get_resource
    mquery_fcs.Handler.V20.Search.publish_all calculate_partial_ranges bump tabulate
search_retrieve-refused_example =
    search_retrieve-refused parse_word parse_nothing failing conf params echo dog_request ranges
      (("a", out_of_range) ∷ []) rows_range_out_of_conc refl refl refl refl
