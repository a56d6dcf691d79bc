-- ===== src/Corpus/Setup.antt =====
-- corpus/conf.go: the setup of one corpus and its check at the start of the server.
pub mod Layers
pub mod Validity
use mquery_fcs.Corpus.Layers.{PosAttr, StructureMapping, validate_layer}
use mquery_fcs.Prelude.{
  ℕ, suc, ◌+◌, ◌==◌, str_eq, if◌then◌else◌, String, Bool, true, false, Option, none, some, List, [],
  ◌∷◌,
}

-- A map of texts; `none` is the `nil` map.
abbrev pub TextMap : Type 0
TextMap = Option (List (String × String))

pub record CorpusSetup : Type 0 where
  pub id : String
  pub pid : String
  pub full_name : TextMap
  pub description : TextMap
  pub languages : Option (List String)
  pub uri : String
  pub pos_attrs : List PosAttr
  pub structure_mapping : StructureMapping
  pub view_context_struct : String
  pub kontext_backlink_root_url : String

-- `GetBasicSearchAttrs`.
unfoldable pub basic_search_attrs : List PosAttr → List String
basic_search_attrs [] = []
basic_search_attrs (p ∷ ps) =
    if p.is_basic_search_attr then p.name ∷ basic_search_attrs ps else basic_search_attrs ps

-- `GetLayerDefault`: the layer that it is asked for plays no part.
unfoldable pub get_layer_default : List PosAttr → String → Option PosAttr
get_layer_default [] ln = none
get_layer_default (p ∷ ps) ln = if p.is_layer_default then some p else get_layer_default ps ln

-- The errors of `Validate`; each is a text of its own in the source.
pub data SetupError : Type 0 where
  missing_full_name missing_full_name_en missing_description missing_description_en : SetupError
  missing_languages no_basic_search_attr : SetupError
  invalid_layer : String → SetupError
  bad_layer_defaults : String → ℕ → SetupError

pub data Checked {ℓ} (A : Type ℓ) : Type ℓ where
  ok : A → Checked A
  err : SetupError → Checked A

infixl 5 ◌>>=◌ ◌>>◌
abbrev pub ◌>>=◌ {ℓ κ} : {A : Type ℓ} {B : Type κ} → Checked A → (A → Checked B) → Checked B
ok a >>= f = f a
err e >>= f = err e

abbrev pub ◌>>◌ {ℓ} : {B : Type ℓ} → Checked (Unit {0}) → Checked B → Checked B
m >> k = m >>= λ _. k

abbrev pub has_key : String → List (String × String) → Bool
has_key k [] = false
has_key k ((j, v) ∷ m) = if str_eq j k then true else has_key k m

abbrev pub check_en : TextMap → SetupError → SetupError → Checked (Unit {0})
check_en none missing no_en = err missing
check_en (some m) missing no_en = if has_key "en" m then ok tt else err no_en

abbrev pub check_languages : Option (List String) → Checked (Unit {0})
check_languages none = err missing_languages
check_languages (some _) = ok tt

-- The map of the numbers of default attributes: `n` more for the layer, which is entered if it is new.
unfoldable pub add_default : String → ℕ → List (String × ℕ) → List (String × ℕ)
add_default k n [] = (k, n) ∷ []
add_default k n ((j, v) ∷ m) = if str_eq j k then (j, v + n) ∷ m else (j, v) ∷ add_default k n m

abbrev pub flag : Bool → ℕ
flag true = 1
flag false = 0

-- The loop of `Validate` over the attributes.
unfoldable pub count_attrs : List PosAttr → List (String × ℕ) → ℕ → Checked (List (String × ℕ) × ℕ)
unfolding add_default
count_attrs [] defaults basic = ok (defaults, basic)
count_attrs (p ∷ ps) defaults basic =
    let rest =
      count_attrs ps (add_default p.layer (flag p.is_layer_default) defaults)
        (basic + flag p.is_basic_search_attr) in
    elim (validate_layer p.layer) [ none ↦ rest | some _ ↦ err (invalid_layer p.layer) ]

-- The loop over the layers. Go takes them in an unspecified order: where several layers are at fault,
-- which of them the error names is not determined.
unfoldable pub check_defaults : List (String × ℕ) → Checked (Unit {0})
check_defaults [] = ok tt
check_defaults ((layer, num) ∷ m) =
    if num == 1 then check_defaults m else err (bad_layer_defaults layer num)

abbrev pub check_basic : ℕ → Checked (Unit {0})
check_basic n = if n == 0 then err no_basic_search_attr else ok tt

abbrev pub with_view_context : CorpusSetup → CorpusSetup
with_view_context c =
    if str_eq c.view_context_struct "" then record c { view_context_struct = "s" } else c

-- `CorpusSetup.Validate`, with the setup as it leaves it.
unfoldable pub validate : CorpusSetup → Checked CorpusSetup
unfolding count_attrs check_defaults
validate c = do
  check_en c.full_name missing_full_name missing_full_name_en
  check_en c.description missing_description missing_description_en
  check_languages c.languages
  counts ← count_attrs c.pos_attrs [] 0
  check_defaults counts.0
  check_basic counts.1
  ok (with_view_context c)
