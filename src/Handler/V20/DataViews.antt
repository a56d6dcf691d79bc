-- ===== src/Handler/V20/DataViews.antt =====
-- handler/v20/searchrt.go: the data views of a record, which are written from the tokens of its line.
pub mod Alignment
use Prim.Native.String
use Prim.Native.String.{len}
use mquery_fcs.Corpus.Layers.{PosAttr, get_result_id}
use mquery_fcs.Handler.Params.{get_query}
use mquery_fcs.Handler.V20.Args.{query_type_fcs}
use mquery_fcs.Prelude.{
  ℕ, ◌+◌, ◌-◌, str_eq, if◌then◌else◌, String, Bool, Option, none, some, List, [], ◌∷◌, map,
}
use mquery_fcs.Prelude.Text.{concat}

-- A token of a concordance line, with its attributes by their names.
pub record Token : Type 0 where
  pub word : String
  pub strong : Bool
  pub attrs : List (String × String)

-- `strings.Join`.
unfoldable pub join : String → List String → String
join sep [] = ""
join sep (s ∷ []) = s
join sep (s ∷ t ∷ ss) = String.◌++◌ s (String.◌++◌ sep (join sep (t ∷ ss)))

abbrev pub hit : Token → String
hit t = if t.strong then concat ("<hits:Hit>" ∷ t.word ∷ "</hits:Hit>" ∷ []) else t.word

-- The basic data view.
unfoldable pub hits_data : List Token → String
unfolding join
hits_data ts = join " " (map hit ts)

-- `XMLSRAdvSegment`; the number stands for the identifier that is written with it.
pub record AdvSegment : Type 0 where
  pub id : ℕ
  pub start : ℕ
  pub end : ℕ

-- The segments from the `i`-th token on, where the next one starts at the position.
unfoldable pub segments : ℕ → ℕ → List Token → List AdvSegment
segments i segment_pos [] = []
segments i segment_pos (t ∷ ts) =
    record { id = i; start = segment_pos; end = segment_pos + len t.word - 1 }
    ∷ segments (i + 1) (segment_pos + (len t.word + 1)) ts

-- `XMLSRAdvValue`.
pub record AdvValue : Type 0 where
  pub ref : ℕ
  pub highlight : Option ℕ
  pub value : String

-- `XMLSRAdvLayer`.
pub record AdvLayer : Type 0 where
  pub id : String
  pub values : List AdvValue

abbrev pub or_next : Option String → String → String
or_next none rest = rest
or_next (some v) rest = v

-- `getAttrByLayers`.
unfoldable pub get_attr_by_layers : List PosAttr → String → Token → String
unfolding get_query
get_attr_by_layers [] layer t = "??"
get_attr_by_layers (p ∷ ps) layer t =
    let rest = get_attr_by_layers ps layer t in
    if str_eq p.layer layer then or_next (get_query t.attrs p.name) rest else rest

-- The values of a layer, from the `i`-th token on.
unfoldable pub layer_values : List PosAttr → String → ℕ → List Token → List AdvValue
layer_values ps layer i [] = []
layer_values ps layer i (t ∷ ts) =
    record {
      ref = i;
      highlight = if t.strong then some i else none;
      value = get_attr_by_layers ps layer t;
    }
    ∷ layer_values ps layer (i + 1) ts

-- `XMLSRAdvancedDataViewResult`.
pub record AdvancedView : Type 0 where
  pub segments : List AdvSegment
  pub layers : List AdvLayer

unfoldable pub advanced_view : List PosAttr → List String → List Token → AdvancedView
advanced_view ps common_layers ts = record {
  segments = segments 0 1 ts;
  layers =
      map (λ layer. record { id = get_result_id layer; values = layer_values ps layer 0 ts })
        common_layers;
}

-- The data views of a record: the basic one, and the advanced one for queries of the advanced type.
unfoldable pub data_views :
    String → List PosAttr → List String → List Token → String × Option AdvancedView
unfolding hits_data advanced_view
data_views query_type ps common_layers ts = (
  hits_data ts,
  if str_eq query_type query_type_fcs then some (advanced_view ps common_layers ts) else none,
)
