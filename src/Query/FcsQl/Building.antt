-- ===== src/Query/FcsQl/Building.antt =====
-- How the trees that the parser builds step by step are written.
use Prim.Native.String
use mquery_fcs.Corpus.Layers.{PosAttr}
use mquery_fcs.Prelude.Text.{concat}
use mquery_fcs.Prelude.{String, List, [], ◌∷◌, ◌++◌, ◌≡◌, ap, sym, ◌∙◌}
use mquery_fcs.Query.FcsQl.{
  BasicExpression, Expression, expression, TailValues, no_tail, tail_item, with_last, add_tail_item,
  generate_item, generate_expression, generate_tail,
}
use text.Mathlib.TextLemmas.{append-nil, nil-append, append_assoc}

-- What is put behind the last text is put behind all of them.
concat-last :
    (ss : List String) (r s : String)
    → concat (ss ++ String.◌++◌ r s ∷ []) ≡ String.◌++◌ (concat (ss ++ r ∷ [])) s
unfolding concat
concat-last [] r s = append-nil (String.◌++◌ r s) ∙ ap (λ x. String.◌++◌ x s) (sym (append-nil r))
concat-last (t ∷ ss) r s =
    ap (String.◌++◌ t) (concat-last ss r s) ∙ sym (append_assoc t (concat (ss ++ r ∷ [])) s)

abbrev pub item_text : String → String → String
item_text operator b = concat (" " ∷ operator ∷ " " ∷ b ∷ [])

concat-nil : (o a : String) → concat (" " ∷ o ∷ " " ∷ a ∷ "" ∷ []) ≡ item_text o a
unfolding concat
concat-nil o a =
    ap (λ y. String.◌++◌ " " (String.◌++◌ o (String.◌++◌ " " (String.◌++◌ a y)))) (nil-append "")

module _ (ps : List PosAttr) where
  generate_tail-with_last :
      (t : TailValues) (operator : String) (b : BasicExpression) (errors : List String)
      → let rest = generate_tail ps t errors in
        let last = generate_item ps b rest.1 in
        generate_tail ps (with_last t operator b) errors
        ≡ (String.◌++◌ rest.0 (item_text operator last.0), last.1)
  unfolding generate_tail
  generate_tail-with_last no_tail operator b errors =
      let a = generate_item ps b errors in
      ap (λ x. (x, a.1)) (concat-nil operator a.0 ∙ sym (nil-append (item_text operator a.0)))
  generate_tail-with_last (tail_item o c t) operator b errors =
      let a = generate_item ps c errors in
      let again = generate_tail-with_last t operator b a.1 in
      let rest = generate_tail ps t a.1 in
      let last = generate_item ps b rest.1 in
      ap (λ x. (concat (" " ∷ o ∷ " " ∷ a.0 ∷ x.0 ∷ []), x.1)) again
      ∙ ap (λ x. (x, last.1))
          (concat-last (" " ∷ o ∷ " " ∷ a.0 ∷ []) rest.0 (item_text operator last.0))

  -- An expression with an item added is written as the expression followed by the operator and the item,
  -- with one space before each, and its errors are those of the expression and then those of the item.
  pub generate_expression-add_tail_item :
      (e : Expression) (operator : String) (b : BasicExpression) (errors : List String)
      → let before = generate_expression ps e errors in
        let last = generate_item ps b before.1 in
        generate_expression ps (add_tail_item e operator b) errors
        ≡ (String.◌++◌ before.0 (item_text operator last.0), last.1)
  unfolding generate_expression add_tail_item
  generate_expression-add_tail_item (expression c t) operator b errors =
      let a = generate_item ps c errors in
      let rest = generate_tail ps t a.1 in
      let last = generate_item ps b rest.1 in
      ap (λ x. (concat (a.0 ∷ x.0 ∷ []), x.1)) (generate_tail-with_last t operator b a.1)
      ∙ ap (λ x. (x, last.1)) (concat-last (a.0 ∷ []) rest.0 (item_text operator last.0))
