-- ===== src/Tests/Requests.antt =====
-- A request that is answered from two corpora.
use mquery_fcs.Corpus.CommonAttrs.{
  collect_corpora, sort_attrs, get_common_pos_attrs, get_common_pos_attr_names,
}
use mquery_fcs.Corpus.Resources.{get_resource}
use mquery_fcs.Handler.Params.{Params, get_query, atoi, read_digits, split_at}
use mquery_fcs.Handler.V20.Args.{fetch_context, validate_search_retr_arg}
use mquery_fcs.General.Request.{FcsGeneralRequest}
use mquery_fcs.Handler.V20.Dispatch.{handle}
use mquery_fcs.Handler.V20.Dispatch.Serving.{Answers, handle-Answers}
use mquery_fcs.Handler.V20.Request.{
  CorporaSetup, SearchRequest, check_request, with_maximum, with_corpora,
}
use mquery_fcs.Handler.V20.Responses.{SrResponse, new_response, going, ◌>>=◌}
use mquery_fcs.Handler.V20.Search.{Published, result, publish_all, finish, search_retrieve}
use mquery_fcs.Handler.V20.Search.Pages.{records_of, total_size, search_retrieve-records_of}
use mquery_fcs.Prelude.{◌≡◌, refl, String, List, [], ◌∷◌, take, drop, length, none, false}
use mquery_fcs.Rdb.{ConcQueryArgs}
use mquery_fcs.Query.Ranges.{LineRange, calculate_partial_ranges, bump, tabulate}
use mquery_fcs.Result.{ConcResult}
use mquery_fcs.Result.RoundRobin.Cells.{collect}
use mquery_fcs.Search.Paging.{answered, by_turns}
use mquery_fcs.Tests.Configurations.{corpus, parse_word, parse_nothing}
use mquery_fcs.Tests.Searches.{corpora, lines_of}

abbrev two_corpora : CorporaSetup
two_corpora = record {
  maximum_records = record { negative = false; magnitude = 50 };
  maximum_context = 10;
  resources = corpus ∷ record corpus { id = "b"; pid = "pid:b" } ∷ [];
}

abbrev params : Params
params = ("query", "dog") ∷ ("startRecord", "2") ∷ ("maximumRecords", "4") ∷ []

abbrev echo : SrResponse String
echo = record new_response { echoed_query = "dog"; echoed_start_record = 2 }

abbrev four_records : SearchRequest
four_records = record {
  fcs_query = "dog";
  start_record = 2;
  maximum_records = 4;
  corpora = corpora;
  retrieve_attrs = "word" ∷ "word" ∷ [];
}

abbrev worker : ConcQueryArgs → Published String
worker args = result (record {
  lines = take args.max_items (drop args.start_line (lines_of args.corpus));
  conc_size = length (lines_of args.corpus);
  query = "";
  error = none;
})

abbrev answer : LineRange → ConcResult String
answer rg = record {
  lines = take 4 (drop rg.from (lines_of rg.rsc));
  conc_size = length (lines_of rg.rsc);
  query = "";
  error = none;
}

abbrev ranges : List LineRange
ranges = record { rsc = "b"; from = 0; to = 4 } ∷ record { rsc = "a"; from = 1; to = 5 } ∷ []

abbrev counted : SrResponse String
counted = record echo { number_of_records = total_size (answered answer ranges) }

search_retrieve-records_of_example :
    search_retrieve parse_word parse_nothing worker two_corpora params ≡ (do
      records ← records_of two_corpora.resources counted 2 (collect (by_turns lines_of corpora) 1 4)
      going (finish counted 2 records))
unfolding check_request with_maximum with_corpora get_query atoi read_digits fetch_context split_at
    validate_search_retr_arg get_common_pos_attr_names get_common_pos_attrs collect_corpora
    sort_attrs get_resource publish_all answered calculate_partial_ranges bump tabulate
search_retrieve-records_of_example =
    search_retrieve-records_of parse_word parse_nothing worker two_corpora params echo four_records
      lines_of answer ranges refl ((refl, refl, tt), (tt, tt)) refl refl (λ rg. refl) (λ rg. refl)

abbrev plain_request : FcsGeneralRequest
plain_request = record { version = "2.0"; errors = []; fatal = false; xslt = "" }

handle-Answers_example : Answers plain_request params (handle [] plain_request params)
handle-Answers_example = handle-Answers [] plain_request params
