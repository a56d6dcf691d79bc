-- ===== src/Corpus/Layers.antt =====
-- corpus/conf.go: layers, positional attributes and structures.
use mquery_fcs.Prelude.{str_eq, if◌then◌else◌, String, Bool, ◌||◌, Option, none, some, [], ◌∷◌}
use mquery_fcs.Prelude.Text.{concat}

abbrev pub layer_type_text : String
layer_type_text = "text"

abbrev pub default_layer_type : String
default_layer_type = layer_type_text

abbrev pub is_layer : String → Bool
is_layer name =
    str_eq name layer_type_text
    || str_eq name "lemma"
    || str_eq name "pos"
    || str_eq name "orth"
    || str_eq name "norm"
    || str_eq name "phonetic"

-- `LayerType.Validate`; `some` is the error.
unfoldable pub validate_layer : String → Option String
validate_layer name =
    if is_layer name then none else some (concat ("invalid layer name `" ∷ name ∷ "`" ∷ []))

-- `LayerType.GetResultID`.
unfoldable pub get_result_id : String → String
get_result_id name =
    if str_eq name layer_type_text
    then "http://clarin.dk/ns/fcs/layer/word"
    else if str_eq name "lemma"
    then "http://clarin.dk/ns/fcs/layer/lemma"
    else if str_eq name "pos"
    then "http://clarin.dk/ns/fcs/layer/pos"
    else if str_eq name "orth"
    then "http://clarin.dk/ns/fcs/layer/orth"
    else if str_eq name "norm"
    then "http://clarin.dk/ns/fcs/layer/norm"
    else if str_eq name "phonetic"
    then "http://clarin.dk/ns/fcs/layer/phonetic"
    else ""

pub record PosAttr : Type 0 where
  pub id : String
  pub name : String
  pub layer : String
  pub is_basic_search_attr : Bool
  pub is_layer_default : Bool

pub record StructureMapping : Type 0 where
  pub sentence_struct : String
  pub utterance_struct : String
  pub paragraph_struct : String
  pub turn_struct : String
  pub text_struct : String
  pub session_struct : String
