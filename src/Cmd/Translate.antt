-- ===== src/Cmd/Translate.antt =====
-- cmd/service/translate.go: the dialogue that translates queries line by line.
use Prim.Native.Char.{code}
use Prim.Native.String
use mquery_fcs.Corpus.Layers.{PosAttr, StructureMapping}
use mquery_fcs.Handler.V20.Search.{Parsed, parsed, syntax_error}
use mquery_fcs.Prelude.Text.{concat}
use mquery_fcs.Prelude.{
  ℕ, ◌==◌, leb, if◌then◌else◌, String, Bool, true, false, ◌||◌, ◌&&◌, List, [], ◌∷◌, ◌≡◌, refl,
}
use mquery_fcs.Query.Basic.{BinaryOperatorQuery, generate_binary}
use mquery_fcs.Query.FcsQl
use mquery_fcs.Query.FcsQl.Rendering.{unknown, attrs_main, text_main, name_in, generate-text}
use mquery_fcs.Query.FcsQl.{generate, followed_by}

-- `unicode.IsSpace`.
abbrev is_space : ℕ → Bool
is_space c =
    (leb 9 c && leb c 13)
    || c == 32
    || c == 133
    || c == 160
    || c == 5760
    || (leb 8192 c && leb c 8202)
    || c == 8232
    || c == 8233
    || c == 8239
    || c == 8287
    || c == 12288

-- The text behind its leading spaces.
unfoldable pub trim_left : String → String
trim_left String.[] = ""
trim_left (String.◌∷◌ c s) =
    let rest = trim_left s in if is_space (code c) then rest else String.◌∷◌ c s

-- The text in front of its trailing spaces.
unfoldable pub trim_right : String → String
trim_right String.[] = ""
trim_right (String.◌∷◌ c s) = elim (trim_right s) [
  | String.[] ↦ if is_space (code c) then "" else String.◌∷◌ c ""
  | String.◌∷◌ d t ↦ String.◌∷◌ c (String.◌∷◌ d t)
]

-- `strings.TrimSpace`.
unfoldable pub trim_space : String → String
unfolding trim_left trim_right
trim_space s = trim_right (trim_left s)

-- What `ReadString` of a line gives, call by call, until it fails: a last line with no end is dropped.
unfoldable pub lines : String → String → List String
lines String.[] part = []
lines (String.◌∷◌ c s) part =
    let whole = String.◌++◌ part (String.◌∷◌ c "") in
    if code c == 10 then whole ∷ lines s "" else lines s whole

-- What a translation comes to: the corpus query, or an error.
pub data Translated : Type 0 where
  translated rejected : String → Translated

-- What the dialogue writes: to the output, or a corpus query to the errors.
pub data Shown : Type 0 where
  out err : String → Shown

abbrev pub reply : Translated → Shown
reply (translated s) = err (concat (s ∷ "\n" ∷ []))
reply (rejected e) = out (concat (e ∷ "\n" ∷ []))

abbrev pub dialogue : (String → Translated) → List String → List Shown
dialogue translate [] = out "> " ∷ out "Error: EOF, Bye.\n" ∷ []
dialogue translate (l ∷ ls) = out "> " ∷ reply (translate (trim_space l)) ∷ dialogue translate ls

-- `repl`, on all that is given to it.
unfoldable pub repl : (String → Translated) → String → List Shown
unfolding trim_space lines
repl translate input = dialogue translate (lines input "")

abbrev pub basic_attrs : List PosAttr
basic_attrs =
    record {
      id = "id1";
      name = "word";
      layer = "text";
      is_basic_search_attr = true;
      is_layer_default = true;
    }
    ∷ record {
      id = "id2";
      name = "lemma";
      layer = "lemma";
      is_basic_search_attr = true;
      is_layer_default = false;
    }
    ∷ record {
      id = "id3";
      name = "pos";
      layer = "pos";
      is_basic_search_attr = false;
      is_layer_default = false;
    }
    ∷ []

abbrev pub fcs_attrs : List PosAttr
fcs_attrs =
    record {
      id = "id1";
      name = "word";
      layer = "text";
      is_basic_search_attr = false;
      is_layer_default = true;
    }
    ∷ record {
      id = "id2";
      name = "lemma";
      layer = "lemma";
      is_basic_search_attr = false;
      is_layer_default = false;
    }
    ∷ record {
      id = "id3";
      name = "pos";
      layer = "pos";
      is_basic_search_attr = false;
      is_layer_default = false;
    }
    ∷ []

abbrev pub structures : StructureMapping
structures = record {
  sentence_struct = "s";
  utterance_struct = "sp";
  paragraph_struct = "p";
  turn_struct = "sp";
  text_struct = "doc";
  session_struct = "doc";
}

-- The loop over the errors of a query returns at the first of them.
abbrev pub first_error : List String → String → Translated
first_error [] s = translated s
first_error (e ∷ es) s = rejected (concat ("semantic error[0]: " ∷ e ∷ []))

-- `translateBasicQuery`; a basic query has no errors.
unfoldable pub translate_basic_query : (String → Parsed BinaryOperatorQuery) → String → Translated
translate_basic_query parse input = elim (parse input) [
  | syntax_error e ↦ rejected (concat ("parsing error: " ∷ e ∷ []))
  | parsed b ↦ first_error [] (generate_binary structures.sentence_struct basic_attrs b)
]

abbrev pub with_fixtures : FcsQl.Query → FcsQl.Query
with_fixtures t = record t { structure_mapping = structures; pos_attrs = fcs_attrs }

-- `translateFCSQuery`.
unfoldable pub translate_fcs_query : (String → Parsed FcsQl.Query) → String → Translated
translate_fcs_query parse input = elim (parse input) [
  | syntax_error e ↦ rejected (concat ("parsing error: " ∷ e ∷ []))
  | parsed t ↦ let g = generate (with_fixtures t) in first_error g.1.errors g.0
]

-- A query of FCS-QL that can be parsed is translated to its text with the three attributes of the
-- dialogue if it names only these, the layers lemma and pos by the name of their attribute;
-- otherwise the answer is the error for the first attribute that is unknown.
pub translate_fcs_query-text :
    (parse : String → Parsed FcsQl.Query) (input : String) (t : FcsQl.Query)
    → parse input ≡ parsed t
    → translate_fcs_query parse input
      ≡ first_error
          (unknown fcs_attrs (attrs_main t.main_query))
          (followed_by structures (text_main (name_in fcs_attrs) t.main_query) t.within)
unfolding translate_fcs_query
translate_fcs_query-text parse input t h =
    rw (translate_fcs_query, h) (rw (generate-text (with_fixtures t)) refl)
