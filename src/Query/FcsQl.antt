-- ===== src/Query/FcsQl.antt =====
-- query/parser/fcsql/ast.go: FCS-QL queries and the corpus queries that are written for them.
pub mod Rendering
pub mod Defaults
pub mod Building
use Prim.Native.String
use mquery_fcs.Corpus.Layers.{PosAttr, StructureMapping}
use mquery_fcs.Prelude.{
  str_eq, if◌then◌else◌, String, Bool, true, false, ◌||◌, ◌&&◌, Option, none, some, List, [], ◌∷◌,
  ◌++◌,
}
use mquery_fcs.Prelude.Text.{concat}

pub record QuotedString : Type 0 where
  pub value : String
  pub regexp : String

-- The regexp of the source has this string as its only field.
pub record FlaggedRegexp : Type 0 where
  pub regexp : QuotedString
  pub flags : List String

pub record Attribute : Type 0 where
  pub name : String
  pub value : String

-- A node has the children that its kind (`mainQueryOp`, `beType` or the type of its value) reads;
-- the others are `nil` in the source. A segment `[]` has no expression, which generates the empty text.
mutual
  pub data MainQuery : Type 0 where
    single : QuantifiedQuery → MainQuery
    sequence either : QuantifiedQuery → MainQuery → MainQuery

  pub data QuantifiedQuery : Type 0 where
    quantified : BasicQuery → String → QuantifiedQuery

  pub data BasicQuery : Type 0 where
    inner : MainQuery → BasicQuery
    implicit : FlaggedRegexp → BasicQuery
    segment : Expression → BasicQuery
    empty_segment : BasicQuery

  pub data BasicExpression : Type 0 where
    group negation : Expression → BasicExpression
    attr_op_regexp : Attribute → String → FlaggedRegexp → BasicExpression

  pub data Expression : Type 0 where
    expression : BasicExpression → TailValues → Expression

  pub data TailValues : Type 0 where
    no_tail : TailValues
    tail_item : String → BasicExpression → TailValues → TailValues

pub record Query : Type 0 where
  pub main_query : MainQuery
  pub within : Option String
  pub structure_mapping : StructureMapping
  pub pos_attrs : List PosAttr
  pub errors : List String

-- `quotedString.Append`.
unfoldable pub append : String → QuotedString → QuotedString
append t s = record s { value = String.◌++◌ s.value t }

-- `AttachUntypedFlag` with a text.
unfoldable pub attach_flag : String → FlaggedRegexp → FlaggedRegexp
attach_flag v r = record r { flags = r.flags ++ v ∷ [] }

abbrev pub with_last : TailValues → String → BasicExpression → TailValues
with_last no_tail operator b = tail_item operator b no_tail
with_last (tail_item o c t) operator b = tail_item o c (with_last t operator b)

-- `AddTailItem`.
unfoldable pub add_tail_item : Expression → String → BasicExpression → Expression
add_tail_item (expression c t) operator b = expression c (with_last t operator b)

-- `quotedString.Generate`.
unfoldable pub quote : QuotedString → String
quote s =
    if str_eq s.regexp ""
    then concat ("\"" ∷ s.value ∷ "\"" ∷ [])
    else concat ("\"" ∷ s.regexp ∷ "\"" ∷ [])

-- `quotedString.WithPrefix`.
unfoldable pub with_prefix : String → QuotedString → String
with_prefix p s = concat ("\"" ∷ p ∷ s.value ∷ "\"" ∷ [])

abbrev pub flag_of : String → List String → String
flag_of flag [] = flag
flag_of flag (f ∷ fs) =
    flag_of (if str_eq f "i" || str_eq f "I" || str_eq f "c" || str_eq f "C" then "(?i)" else flag)
      fs

-- `flaggedRegexp.Generate`.
unfoldable pub generate_regexp : FlaggedRegexp → String
generate_regexp r =
    let flag = flag_of "" r.flags in
    if str_eq flag "" then quote r.regexp else with_prefix flag r.regexp

abbrev pub of_layer : String → PosAttr → Bool
of_layer name p = str_eq p.layer name || (str_eq p.layer "text" && str_eq name "word")

abbrev pub find_qualified : String → String → List PosAttr → Option String
find_qualified qualifier name [] = none
find_qualified qualifier name (p ∷ ps) =
    if str_eq p.name qualifier && of_layer name p
    then some p.name
    else find_qualified qualifier name ps

abbrev pub find_default : String → List PosAttr → Option String
find_default name [] = none
find_default name (p ∷ ps) =
    if of_layer name p && p.is_layer_default then some p.name else find_default name ps

abbrev pub find_attr : List PosAttr → String → String → Option String
find_attr ps qualifier name =
    if str_eq qualifier "" then find_default name ps else find_qualified qualifier name ps

-- The message of the error for an attribute that is not found.
unfoldable pub unknown_attr : String → String → String
unknown_attr qualifier name =
    concat ("unknown attribute and/or layer " ∷ qualifier ∷ ":" ∷ name ∷ [])

-- Code that writes a text and adds to the errors of the query.
abbrev pub Writer : Type 0 → Type 0
Writer A = List String → A × List String

abbrev pub returns : {A : Type 0} → A → Writer A
returns a = λ errors. (a, errors)

infixl 5 ◌>>=◌
abbrev pub ◌>>=◌ : {A B : Type 0} → Writer A → (A → Writer B) → Writer B
m >>= f = λ errors. f (m errors).0 (m errors).1

-- `TranslatePosAttr`.
unfoldable pub translate_pos_attr : List PosAttr → String → String → Writer String
translate_pos_attr ps qualifier name = λ errors. elim (find_attr ps qualifier name) [
  | some a ↦ (a, errors)
  | none ↦ ("", errors ++ unknown_attr qualifier name ∷ [])
]

-- `TranslateWithinCtx`.
unfoldable pub translate_within_ctx : StructureMapping → String → String
translate_within_ctx m v =
    if str_eq v "sentence" || str_eq v "s"
    then m.sentence_struct
    else if str_eq v "utterance" || str_eq v "u"
    then m.utterance_struct
    else if str_eq v "paragraph" || str_eq v "p"
    then m.paragraph_struct
    else if str_eq v "turn" || str_eq v "t"
    then m.turn_struct
    else if str_eq v "text"
    then m.text_struct
    else if str_eq v "session"
    then m.session_struct
    else "??"

-- The `Generate` methods, with the attributes of the corpus.
unfoldable mutual
  pub generate_main : List PosAttr → MainQuery → Writer String
  generate_main ps (single q) = generate_quantified ps q
  generate_main ps (sequence q m) = do
    a ← generate_quantified ps q
    b ← generate_main ps m
    returns (concat (a ∷ " " ∷ b ∷ []))
  generate_main ps (either q m) = do
    a ← generate_quantified ps q
    b ← generate_main ps m
    returns (concat (a ∷ " | " ∷ b ∷ []))

  pub generate_quantified : List PosAttr → QuantifiedQuery → Writer String
  generate_quantified ps (quantified b quantifier) =
      if str_eq quantifier ""
      then generate_basic ps b
      else generate_basic ps b >>= λ a. returns (concat (a ∷ quantifier ∷ []))

  pub generate_basic : List PosAttr → BasicQuery → Writer String
  generate_basic ps (inner m) = generate_main ps m >>= λ a. returns (concat ("(" ∷ a ∷ ")" ∷ []))
  generate_basic ps (implicit r) = returns (generate_regexp r)
  generate_basic ps (segment e) =
      generate_expression ps e >>= λ a. returns (concat ("[" ∷ a ∷ "]" ∷ []))
  generate_basic ps empty_segment = returns (concat ("[" ∷ "" ∷ "]" ∷ []))

  pub generate_item : List PosAttr → BasicExpression → Writer String
  generate_item ps (group e) =
      generate_expression ps e >>= λ a. returns (concat ("(" ∷ a ∷ ")" ∷ []))
  generate_item ps (negation e) = generate_expression ps e >>= λ a. returns (concat ("!" ∷ a ∷ []))
  generate_item ps (attr_op_regexp attr operator r) =
      translate_pos_attr ps attr.name attr.value >>= λ a.
      returns (concat (a ∷ operator ∷ generate_regexp r ∷ []))

  pub generate_expression : List PosAttr → Expression → Writer String
  generate_expression ps (expression b t) = do
    a ← generate_item ps b
    rest ← generate_tail ps t
    returns (concat (a ∷ rest ∷ []))

  -- The loop over the tail, with what it writes to the builder.
  pub generate_tail : List PosAttr → TailValues → Writer String
  generate_tail ps no_tail = returns ""
  generate_tail ps (tail_item operator b t) = do
    a ← generate_item ps b
    rest ← generate_tail ps t
    returns (concat (" " ∷ operator ∷ " " ∷ a ∷ rest ∷ []))

abbrev pub generate_within : StructureMapping → String → String
generate_within m v = concat ("within <" ∷ translate_within_ctx m v ∷ " />" ∷ [])

abbrev pub followed_by : StructureMapping → String → Option String → String
followed_by m text none = text
followed_by m text (some v) = concat (text ∷ " " ∷ generate_within m v ∷ [])

-- `Query.Generate`: the text, and the query with the errors of this run.
unfoldable pub generate : Query → String × Query
generate q =
    let m = generate_main q.pos_attrs q.main_query [] in
    (followed_by q.structure_mapping m.0 q.within, record q { errors = m.1 })
