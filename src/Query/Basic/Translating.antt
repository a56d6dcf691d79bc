-- ===== src/Query/Basic/Translating.antt =====
-- query/parser/basic/ast.go: the methods that build a basic query and translate its attributes, which a
-- query of this kind does not name.
use mquery_fcs.Corpus.Layers.{PosAttr, StructureMapping}
use mquery_fcs.Prelude.{
  str_eq, if◌then◌else◌, String, ◌&&◌, ◌||◌, Option, none, some, List, [], ◌∷◌, ◌++◌,
}
use mquery_fcs.Prelude.Text.{concat}
use mquery_fcs.Query.Basic.{
  BinaryOperatorQuery, Rests, NonRecursiveQuery, binary, no_rest, rest_item, generate_binary,
}

-- `Query`.
pub record Query : Type 0 where
  pub binary_operator_query : BinaryOperatorQuery
  pub structure_mapping : StructureMapping
  pub pos_attrs : List PosAttr
  pub errors : List String

-- `SetStructureMapping`.
unfoldable pub set_structure_mapping : StructureMapping → Query → Query
set_structure_mapping m q = record q { structure_mapping = m }

-- `SetPosAttrs`.
unfoldable pub set_pos_attrs : List PosAttr → Query → Query
set_pos_attrs attrs q = record q { pos_attrs = attrs }

-- `AddError`.
unfoldable pub add_error : String → Query → Query
add_error e q = record q { errors = q.errors ++ e ∷ [] }

-- `Query.Generate`, with the query behind it; its nodes add no errors.
unfoldable pub generate : Query → String × Query
generate q =
    (generate_binary q.structure_mapping.sentence_struct q.pos_attrs q.binary_operator_query, q)

abbrev pub with_rest : Rests → String → NonRecursiveQuery → Rests
with_rest no_rest op nrq = rest_item op nrq no_rest
with_rest (rest_item o r rs) op nrq = rest_item o r (with_rest rs op nrq)

-- `AddRest`.
unfoldable pub add_rest : BinaryOperatorQuery → String → NonRecursiveQuery → BinaryOperatorQuery
add_rest (binary q rs) op nrq = binary q (with_rest rs op nrq)

-- `TranslateWithinCtx`.
unfoldable pub translate_within_ctx : Query → String → String
translate_within_ctx q v =
    let m = q.structure_mapping in
    if str_eq v "sentence" || str_eq v "s"
    then m.sentence_struct
    else if str_eq v "utterance" || str_eq v "u"
    then m.utterance_struct
    else if str_eq v "paragraph" || str_eq v "p"
    then m.paragraph_struct
    else if str_eq v "turn" || str_eq v "t"
    then m.turn_struct
    else if str_eq v "text"
    then m.text_struct
    else if str_eq v "session"
    then m.session_struct
    else "??"

abbrev pub of_qualifier : List PosAttr → String → String → Option String
of_qualifier [] qualifier name = none
of_qualifier (p ∷ ps) qualifier name =
    if str_eq p.name qualifier && str_eq p.layer name
    then some p.name
    else of_qualifier ps qualifier name

abbrev pub of_default : List PosAttr → String → Option String
of_default [] name = none
of_default (p ∷ ps) name =
    if str_eq p.layer name && p.is_layer_default then some p.name else of_default ps name

abbrev pub found : List PosAttr → String → String → Option String
found ps qualifier name =
    if str_eq qualifier "" then of_default ps name else of_qualifier ps qualifier name

-- `TranslatePosAttr`, with the query behind it.
unfoldable pub translate_pos_attr : Query → String → String → String × Query
unfolding add_error
translate_pos_attr q qualifier name = elim (found q.pos_attrs qualifier name) [
  | some a ↦ (a, q)
  | none ↦
      ("", add_error (concat ("unknown attribute and/or layer " ∷ qualifier ∷ ":" ∷ name ∷ [])) q)
]
