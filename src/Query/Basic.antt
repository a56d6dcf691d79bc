-- ===== src/Query/Basic.antt =====
-- query/parser/basic/ast.go: basic queries and the corpus queries that are written for them.
pub mod Words
pub mod Translating
use Prim.Native.Char.{Char, code}
use Prim.Native.String
use mquery_fcs.Corpus.Layers.{PosAttr, StructureMapping}
use mquery_fcs.Prelude.{
  ℕ, ◌==◌, ltb, str_eq, if◌then◌else◌, String, Bool, true, false, ◌||◌, Option, none, some, List,
  [], ◌∷◌, length,
}
use mquery_fcs.Prelude.Text.{concat}

-- A term is a word or quoted words.
pub data Term : Type 0 where
  text : String → Term
  quoted_text : List String → Term

mutual
  pub data BinaryOperatorQuery : Type 0 where
    binary : NonRecursiveQuery → Rests → BinaryOperatorQuery

  -- The `rest` items: the operation and its operand.
  pub data Rests : Type 0 where
    no_rest : Rests
    rest_item : String → NonRecursiveQuery → Rests → Rests

  pub data NonRecursiveQuery : Type 0 where
    parenthesis : BinaryOperatorQuery → NonRecursiveQuery
    term : Term → Bool → NonRecursiveQuery

-- Behind a backslash.
abbrev pub behind : String → String
behind s = String.◌∷◌ "\\" s

-- `strings.ReplaceAll` of a character, by the character behind a backslash.
unfoldable pub escape_char : ℕ → String → String
escape_char k String.[] = ""
escape_char k (String.◌∷◌ c s) =
    let rest = escape_char k s in
    if code c == k then behind (String.◌∷◌ c rest) else String.◌∷◌ c rest

-- The characters that `regexp.QuoteMeta` escapes: \.+*?()|[]{}^$
abbrev pub is_meta : ℕ → Bool
is_meta k =
    k == 92
    || k == 46
    || k == 43
    || k == 42
    || k == 63
    || k == 40
    || k == 41
    || k == 124
    || k == 91
    || k == 93
    || k == 123
    || k == 125
    || k == 94
    || k == 36

-- `regexp.QuoteMeta`.
unfoldable pub quote_meta : String → String
quote_meta String.[] = ""
quote_meta (String.◌∷◌ c s) =
    let rest = quote_meta s in
    if is_meta (code c) then behind (String.◌∷◌ c rest) else String.◌∷◌ c rest

-- `word.Generate`.
unfoldable pub generate_word : String → String
unfolding escape_char quote_meta
generate_word w = quote_meta (escape_char 92 (escape_char 34 w))

abbrev pub join_attrs : String → String → String → ℕ → List PosAttr → String
join_attrs separator relation word i [] = ""
join_attrs separator relation word i (p ∷ ps) =
    let rest = join_attrs separator relation word 1 ps in
    if p.is_basic_search_attr
    then concat
        ((if ltb 0 i then separator else "") ∷ p.name ∷ relation ∷ "\"" ∷ word ∷ "\"" ∷ rest ∷ [])
    else rest

-- `getDefaultAttrsExp`. An index above 0 counts as 1.
unfoldable pub get_default_attrs_exp : List PosAttr → String → Bool → String
get_default_attrs_exp ps word negated = concat (
    "["
    ∷ (if negated then join_attrs " & " "!=" word 0 ps else join_attrs " | " "=" word 0 ps)
    ∷ "]"
    ∷ [])

abbrev pub generate_words : List PosAttr → List String → Bool → String
generate_words ps [] negated = ""
generate_words ps (w ∷ ws) negated =
    concat
      (" " ∷ get_default_attrs_exp ps (generate_word w) negated ∷ generate_words ps ws negated ∷ [])

-- `term.Generate`, with those of text and quoted text.
abbrev pub generate_term : List PosAttr → Term → Bool → String
generate_term ps (text w) negated = get_default_attrs_exp ps (generate_word w) negated
generate_term ps (quoted_text ws) negated = generate_words ps ws negated

-- The part of `binaryOperatorQuery.Generate` behind its operands.
abbrev pub combine : String → String → String → Rests → String
combine sentence first others no_rest = first
combine sentence first others (rest_item op q rs) =
    if str_eq op "AND"
    then concat (
        "((" ∷ first ∷ " within ([]{0,10} " ∷ others ∷ " []{0,10} within <" ∷ sentence ∷ " />)) | ("
        ∷ others ∷ " within ([]{0,10} " ∷ first ∷ " []{0,10} within <" ∷ sentence ∷ " />)))" ∷ [])
    else if str_eq op "OR"
    then concat ("(" ∷ first ∷ " | " ∷ others ∷ ")" ∷ [])
    else concat ("(?? " ∷ first ∷ " " ∷ others ∷ ")" ∷ [])

-- The `Generate` methods, with the sentence structure and the attributes of the corpus. They add no
-- errors: a node that the grammar makes has one of the forms above.
unfoldable mutual
  pub generate_binary : String → List PosAttr → BinaryOperatorQuery → String
  generate_binary sentence ps (binary q rs) =
      combine sentence (generate_non_recursive sentence ps q) (generate_rests sentence ps rs) rs

  pub generate_rests : String → List PosAttr → Rests → String
  generate_rests sentence ps no_rest = ""
  generate_rests sentence ps (rest_item op q rs) =
      concat (" " ∷ generate_non_recursive sentence ps q ∷ generate_rests sentence ps rs ∷ [])

  pub generate_non_recursive : String → List PosAttr → NonRecursiveQuery → String
  generate_non_recursive sentence ps (parenthesis b) = generate_binary sentence ps b
  generate_non_recursive sentence ps (term t negated) = generate_term ps t negated
