-- ===== src/Handler/V12/Records.antt =====
-- handler/v12/searchrt.go: a record of the response, which has the view of hits only.
use mquery_fcs.Corpus.Setup.{CorpusSetup}
use mquery_fcs.Handler.Backlink.{Urls, generate_for_kontext}
use mquery_fcs.Handler.V20.DataViews.{hits_data}
use mquery_fcs.Handler.V20
use mquery_fcs.Handler.V20.Records.{Line, DataView, FcsRecord, basic_data_view, ref_url, used_query}
use mquery_fcs.Handler.V20.Responses.{Diagnostic, SrResponse}
use mquery_fcs.Prelude.{ℕ, String, List, [], ◌∷◌, map, ◌≡◌, refl}
use mquery_fcs.Corpus.Layers.{PosAttr}

-- `XMLSRResponse`, with its `XMLSREchoedRequest`.
pub record FcsResponse : Type 0 where
  pub namespace : String
  pub version : String
  pub number_of_records : ℕ
  pub records : List FcsRecord
  pub echoed_version : String
  pub echoed_query : String
  pub echoed_start_record : ℕ
  pub diagnostics : List Diagnostic

module _ {U V : Type 0} (urls : Urls U V) where
  -- The record that a round of the loop appends, with its packing in place of the escaping.
  unfoldable pub to_record : String → List (String × String) → CorpusSetup → Line → ℕ → FcsRecord
  unfolding hits_data generate_for_kontext used_query
  to_record packing used res item position = record {
    schema = "http://clarin.eu/fcs/resource";
    xml_escaping = packing;
    namespace = "http://clarin.eu/fcs/resource";
    pid = res.pid;
    ref = ref_url urls res used item;
    data_views = basic_data_view item ∷ [];
    record_position = position;
  }

  -- `XMLSRResponse`: the response of `searchRetrieve` with its records written out.
  unfoldable pub to_response : String → List (String × String) → SrResponse Line → FcsResponse
  unfolding to_record
  to_response packing used r = record {
    namespace = "http://www.loc.gov/zing/srw/";
    version = "1.2";
    number_of_records = r.number_of_records;
    records = map (λ s. to_record packing used s.resource s.line s.record_position) r.records;
    echoed_version = "1.2";
    echoed_query = r.echoed_query;
    echoed_start_record = r.echoed_start_record;
    diagnostics = r.diagnostics;
  }

  -- On basic queries both versions write the same record.
  to_record-V20 :
      (packing : String) (ps : List PosAttr) (layers : List String) (used : List (String × String))
      (res : CorpusSetup) (item : Line) (position : ℕ)
      → V20.Records.to_record urls packing "cql" ps layers used res item position
        ≡ to_record packing used res item position
  unfolding to_record mquery_fcs.Handler.V20.Records.to_record
  to_record-V20 packing ps layers used res item position = refl
