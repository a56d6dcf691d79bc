-- ===== src/Query/FcsQl/Rendering.antt =====
-- What the texts and the errors of FCS-QL queries come to.
use mathlib.Core.List.{append_assoc, append-nil}
use text.Mathlib.TextLemmas
use mquery_fcs.Corpus.Layers.{PosAttr}
use mquery_fcs.Query.FcsQl.{
  Attribute, MainQuery, QuantifiedQuery, BasicQuery, BasicExpression, Expression, TailValues, Query,
  single, sequence, either, quantified, inner, implicit, segment, empty_segment, group, negation,
  attr_op_regexp, expression, no_tail, tail_item, generate_regexp, find_attr, unknown_attr,
  translate_pos_attr, generate_main, generate_quantified, generate_basic, generate_item,
  generate_expression, generate_tail, generate, followed_by, Writer, returns, ◌>>=◌,
}
use mquery_fcs.Prelude.{
  str_eq, if◌then◌else◌, String, Option, none, some, List, [], ◌∷◌, ◌++◌, ◌≡◌, refl, ap, sym, ◌∙◌,
  Bool-cases, eq_iff, Option-cases, inl, inr,
}
use mquery_fcs.Prelude.Text.{concat}

-- The attributes of a query, from left to right.
unfoldable mutual
  pub attrs_main : MainQuery → List Attribute
  attrs_main (single q) = attrs_quantified q
  attrs_main (sequence q m) = attrs_quantified q ++ attrs_main m
  attrs_main (either q m) = attrs_quantified q ++ attrs_main m

  attrs_quantified : QuantifiedQuery → List Attribute
  attrs_quantified (quantified b quantifier) = attrs_basic b

  attrs_basic : BasicQuery → List Attribute
  attrs_basic (inner m) = attrs_main m
  attrs_basic (implicit r) = []
  attrs_basic (segment e) = attrs_expression e
  attrs_basic empty_segment = []

  attrs_item : BasicExpression → List Attribute
  attrs_item (group e) = attrs_expression e
  attrs_item (negation e) = attrs_expression e
  attrs_item (attr_op_regexp attr operator r) = attr ∷ []

  attrs_expression : Expression → List Attribute
  attrs_expression (expression b t) = attrs_item b ++ attrs_tail t

  attrs_tail : TailValues → List Attribute
  attrs_tail no_tail = []
  attrs_tail (tail_item operator b t) = attrs_item b ++ attrs_tail t

abbrev pub or_empty : Option String → String
or_empty none = ""
or_empty (some s) = s

-- The text of a query in which each attribute stands as `name` gives it.
unfoldable mutual
  pub text_main : (Attribute → String) → MainQuery → String
  text_main name (single q) = text_quantified name q
  text_main name (sequence q m) = concat (text_quantified name q ∷ " " ∷ text_main name m ∷ [])
  text_main name (either q m) = concat (text_quantified name q ∷ " | " ∷ text_main name m ∷ [])

  text_quantified : (Attribute → String) → QuantifiedQuery → String
  text_quantified name (quantified b quantifier) = concat (text_basic name b ∷ quantifier ∷ [])

  text_basic : (Attribute → String) → BasicQuery → String
  text_basic name (inner m) = concat ("(" ∷ text_main name m ∷ ")" ∷ [])
  text_basic name (implicit r) = generate_regexp r
  text_basic name (segment e) = concat ("[" ∷ text_expression name e ∷ "]" ∷ [])
  text_basic name empty_segment = concat ("[" ∷ "" ∷ "]" ∷ [])

  text_item : (Attribute → String) → BasicExpression → String
  text_item name (group e) = concat ("(" ∷ text_expression name e ∷ ")" ∷ [])
  text_item name (negation e) = concat ("!" ∷ text_expression name e ∷ [])
  text_item name (attr_op_regexp attr operator r) =
      concat (name attr ∷ operator ∷ generate_regexp r ∷ [])

  text_expression : (Attribute → String) → Expression → String
  text_expression name (expression b t) = concat (text_item name b ∷ text_tail name t ∷ [])

  text_tail : (Attribute → String) → TailValues → String
  text_tail name no_tail = ""
  text_tail name (tail_item operator b t) =
      concat (" " ∷ operator ∷ " " ∷ text_item name b ∷ text_tail name t ∷ [])

abbrev pub resolve : List PosAttr → Attribute → Option String
resolve ps a = find_attr ps a.name a.value

-- A message for each attribute that the corpus does not have.
unfoldable pub unknown : List PosAttr → List Attribute → List String
unknown ps [] = []
unknown ps (a ∷ l) = elim (resolve ps a) [
  | some n ↦ unknown ps l
  | none ↦ unknown_attr a.name a.value ∷ unknown ps l
]

unknown-append :
    (ps : List PosAttr) (k l : List Attribute) → unknown ps (k ++ l) ≡ unknown ps k ++ unknown ps l
unfolding unknown
unknown-append ps [] l = refl
unknown-append ps (a ∷ k) l = elim (Option-cases (resolve ps a)) [
  | inl h ↦ rw (unknown, h) (ap (λ m. unknown_attr a.name a.value ∷ m) (unknown-append ps k l))
  | inr (n, h) ↦ rw (unknown, h) (unknown-append ps k l)
]

-- The errors of two parts, one run after the other.
both :
    (ps : List PosAttr) (k l : List Attribute) (errors : List String)
    → (errors ++ unknown ps k) ++ unknown ps l ≡ errors ++ unknown ps (k ++ l)
both ps k l errors =
    append_assoc errors (unknown ps k) (unknown ps l)
    ∙ ap (λ m. errors ++ m) (sym (unknown-append ps k l))

translate-resolve :
    (ps : List PosAttr) (a : Attribute) (errors : List String)
    → translate_pos_attr ps a.name a.value errors
      ≡ (or_empty (resolve ps a), errors ++ unknown ps (a ∷ []))
unfolding translate_pos_attr unknown
translate-resolve ps a errors = elim (Option-cases (find_attr ps a.name a.value)) [
  | inl h ↦ rw (translate_pos_attr, unknown, h) refl
  | inr (n, h) ↦ rw (translate_pos_attr, unknown, h) (ap (λ m. (n, m)) (sym (append-nil errors)))
]

concat-empty : (s : String) → concat (s ∷ "" ∷ []) ≡ s
unfolding concat
concat-empty s = TextLemmas.append-nil s

-- One part written after the other, and their texts put together.
then-writes :
    (ps : List PosAttr) {m n : Writer String} {s t : String} (k l : List Attribute)
    (f : String → String → String) (errors : List String)
    → ((e : List String) → m e ≡ (s, e ++ unknown ps k))
    → ((e : List String) → n e ≡ (t, e ++ unknown ps l))
    → (m >>= λ a. n >>= λ b. returns (f a b)) errors ≡ (f s t, errors ++ unknown ps (k ++ l))
then-writes ps {s} {t} k l f errors g h =
    rw (g errors, h (errors ++ unknown ps k)) (ap (λ e. (f s t, e)) (both ps k l errors))

quantify :
    (quantifier : String) (m : Writer String) {s : String} {e e' : List String}
    → m e ≡ (s, e')
    → (if str_eq quantifier "" then m else m >>= λ a. returns (concat (a ∷ quantifier ∷ []))) e
      ≡ (concat (s ∷ quantifier ∷ []), e')
quantify quantifier m {s} {e'} h = elim (Bool-cases (str_eq quantifier "")) [
  | inl q ↦ rw q (
      h
      ∙ ap (λ x. (x, e'))
          (sym (ap (λ x. concat (s ∷ x ∷ [])) ((eq_iff quantifier "").0 q) ∙ concat-empty s)))
  | inr q ↦ rw (q, h) refl
]

-- The name that the corpus has for an attribute.
unfoldable pub name_in : List PosAttr → Attribute → String
name_in ps a = or_empty (resolve ps a)

module _ (ps : List PosAttr) where
  mutual
    unfolding text_main attrs_main generate_main unknown name_in

    main-text :
        (m : MainQuery) (errors : List String)
        → generate_main ps m errors
          ≡ (text_main (name_in ps) m, errors ++ unknown ps (attrs_main m))
    main-text (single q) errors = quantified-text q errors
    main-text (sequence q m) errors =
        then-writes ps (attrs_quantified q) (attrs_main m) (λ a b. concat (a ∷ " " ∷ b ∷ [])) errors
          (quantified-text q) (main-text m)
    main-text (either q m) errors =
        then-writes ps (attrs_quantified q) (attrs_main m) (λ a b. concat (a ∷ " | " ∷ b ∷ []))
          errors (quantified-text q) (main-text m)

    quantified-text :
        (q : QuantifiedQuery) (errors : List String)
        → generate_quantified ps q errors
          ≡ (text_quantified (name_in ps) q, errors ++ unknown ps (attrs_quantified q))
    quantified-text (quantified b quantifier) errors =
        quantify quantifier (generate_basic ps b) (basic-text b errors)

    basic-text :
        (b : BasicQuery) (errors : List String)
        → generate_basic ps b errors
          ≡ (text_basic (name_in ps) b, errors ++ unknown ps (attrs_basic b))
    basic-text (inner m) errors = rw (main-text m errors) refl
    basic-text (implicit r) errors = ap (λ e. (generate_regexp r, e)) (sym (append-nil errors))
    basic-text (segment e) errors = rw (expression-text e errors) refl
    basic-text empty_segment errors =
        ap (λ e. (concat ("[" ∷ "" ∷ "]" ∷ []), e)) (sym (append-nil errors))

    item-text :
        (b : BasicExpression) (errors : List String)
        → generate_item ps b errors
          ≡ (text_item (name_in ps) b, errors ++ unknown ps (attrs_item b))
    item-text (group e) errors = rw (expression-text e errors) refl
    item-text (negation e) errors = rw (expression-text e errors) refl
    item-text (attr_op_regexp a operator r) errors = rw (translate-resolve ps a errors) refl

    expression-text :
        (e : Expression) (errors : List String)
        → generate_expression ps e errors
          ≡ (text_expression (name_in ps) e, errors ++ unknown ps (attrs_expression e))
    expression-text (expression b t) errors =
        then-writes ps (attrs_item b) (attrs_tail t) (λ a c. concat (a ∷ c ∷ [])) errors
          (item-text b) (tail-text t)

    tail-text :
        (t : TailValues) (errors : List String)
        → generate_tail ps t errors
          ≡ (text_tail (name_in ps) t, errors ++ unknown ps (attrs_tail t))
    tail-text no_tail errors = ap (λ e. ("", e)) (sym (append-nil errors))
    tail-text (tail_item operator b t) errors =
        then-writes ps (attrs_item b) (attrs_tail t)
          (λ a c. concat (" " ∷ operator ∷ " " ∷ a ∷ c ∷ [])) errors (item-text b) (tail-text t)

-- A query generates its own text, each attribute under the name that the corpus has for it, and as
-- errors one message for each attribute of the query that the corpus does not have, in the order of
-- the query; earlier errors are gone.
pub generate-text :
    (q : Query)
    → generate q ≡ (
      followed_by q.structure_mapping (text_main (name_in q.pos_attrs) q.main_query) q.within,
      record q { errors = unknown q.pos_attrs (attrs_main q.main_query) },
    )
unfolding generate
generate-text q = rw (main-text q.pos_attrs q.main_query []) refl
