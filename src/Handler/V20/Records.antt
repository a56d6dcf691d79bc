-- ===== src/Handler/V20/Records.antt =====
-- handler/v20/searchrt.go: a record of the response, as it is written from a line of a concordance.
use mquery_fcs.Corpus.Layers.{PosAttr}
use mquery_fcs.Corpus.Setup.{CorpusSetup}
use mquery_fcs.Handler.Backlink.{Urls, Link, link, link_error, generate_for_kontext}
use mquery_fcs.Handler.Params.{value_or}
use mquery_fcs.Handler.V20.Args.{query_type_fcs}
use mquery_fcs.Handler.V20.DataViews.{Token, AdvancedView, hits_data, advanced_view}
use mquery_fcs.Handler.V20.Responses.{Diagnostic, SrRecord, SrResponse}
use mquery_fcs.Prelude.{ℕ, str_eq, if◌then◌else◌, String, Option, none, some, List, [], ◌∷◌, map}

-- A line of a concordance, as the library of concordances has it: its reference and its tokens.
pub record Line : Type 0 where
  pub ref : String
  pub tokens : List Token

-- The results of `XMLSRDataView`: `XMLSRBasicDataViewResult` and `XMLSRAdvancedDataViewResult`.
pub data ViewResult : Type 0 where
  hits : String → String → ViewResult
  advanced : String → String → AdvancedView → ViewResult

-- `XMLSRDataView`.
pub record DataView : Type 0 where
  pub type : String
  pub result : ViewResult

-- `XMLSRRecord`, with its `XMLSRResource` and the `XMLSRResourceFragment` of this. A data view that is
-- `nil` is not written and is left out.
pub record FcsRecord : Type 0 where
  pub schema : String
  pub xml_escaping : String
  pub namespace : String
  pub pid : String
  pub ref : String
  pub data_views : List DataView
  pub record_position : ℕ

-- `XMLSRResponse`, with its `XMLSREchoedRequest`.
pub record FcsResponse : Type 0 where
  pub namespace : String
  pub version : String
  pub number_of_records : ℕ
  pub records : List FcsRecord
  pub next_record_position : ℕ
  pub echoed_version : String
  pub echoed_query : String
  pub echoed_start_record : ℕ
  pub diagnostics : List Diagnostic
  pub result_count_precision : String

abbrev pub basic_data_view : Line → DataView
basic_data_view item = record {
  type = "application/x-clarin-fcs-hits+xml";
  result = hits "http://clarin.eu/fcs/dataview/hits" (hits_data item.tokens);
}

abbrev pub advanced_data_view : List PosAttr → List String → Line → DataView
advanced_data_view ps layers item = record {
  type = "application/x-clarin-fcs-adv+xml";
  result =
      advanced "item" "http://clarin.eu/fcs/dataview/advanced"
        (advanced_view ps layers item.tokens);
}

abbrev pub views : String → List PosAttr → List String → Line → List DataView
views query_type ps layers item =
    if str_eq query_type query_type_fcs
    then basic_data_view item ∷ advanced_data_view ps layers item ∷ []
    else basic_data_view item ∷ []

abbrev pub last_or : Option String → Option String → Option String
last_or none first = first
last_or (some q) first = some q

-- What the map of the queries holds for a corpus: the last one.
unfoldable pub used_query : List (String × String) → String → Option String
used_query [] id = none
used_query ((rsc, query) ∷ used) id =
    last_or (used_query used id) (if str_eq rsc id then some query else none)

-- An error leaves the reference empty.
abbrev pub address : Link → String
address (link_error e) = ""
address (link l) = l

module _ {U V : Type 0} (urls : Urls U V) where
  abbrev pub ref_url : CorpusSetup → List (String × String) → Line → String
  ref_url res used item =
      if str_eq res.kontext_backlink_root_url ""
      then ""
      else address (
          generate_for_kontext urls res.kontext_backlink_root_url res.id
            (value_or "" (used_query used res.id)) item.ref)

  -- The record that a round of the loop appends.
  unfoldable pub to_record :
      String
      → String
      → List PosAttr
      → List String
      → List (String × String)
      → CorpusSetup
      → Line
      → ℕ
      → FcsRecord
  unfolding hits_data advanced_view generate_for_kontext used_query
  to_record escaping query_type ps layers used res item position = record {
    schema = "http://clarin.eu/fcs/resource";
    xml_escaping = escaping;
    namespace = "http://clarin.eu/fcs/resource";
    pid = res.pid;
    ref = ref_url res used item;
    data_views = views query_type ps layers item;
    record_position = position;
  }

  -- The records of a response.
  abbrev pub to_records :
      String
      → String
      → List PosAttr
      → List String
      → List (String × String)
      → List (SrRecord Line)
      → List FcsRecord
  to_records escaping query_type ps layers used rs =
      map (λ r. to_record escaping query_type ps layers used r.resource r.line r.record_position) rs

  -- `XMLSRResponse`: the response of `searchRetrieve` with its records written out. Records, next
  -- position and echo that are left out are empty or 0; a response with a diagnostic has no records.
  unfoldable pub to_response :
      String
      → String
      → List PosAttr
      → List String
      → List (String × String)
      → SrResponse Line
      → FcsResponse
  unfolding to_record
  to_response escaping query_type ps layers used r = record {
    namespace = "http://docs.oasis-open.org/ns/search-ws/sruResponse";
    version = "2.0";
    number_of_records = r.number_of_records;
    records = to_records escaping query_type ps layers used r.records;
    next_record_position = r.next_record_position;
    echoed_version = "2.0";
    echoed_query = r.echoed_query;
    echoed_start_record = r.echoed_start_record;
    diagnostics = r.diagnostics;
    result_count_precision = "info:srw/vocabulary/resultCountPrecision/1/exact";
  }
