-- ===== src/Query/FcsQl/Defaults.antt =====
-- Attributes named by their layer alone, on a corpus with one default attribute for each layer.
use mquery_fcs.Corpus.Layers.{PosAttr}
use mquery_fcs.Corpus.Setup.Layers.{LayersOk, LayersOk-one, defaults_of, uses}
use mquery_fcs.General.Request.{any}
use mquery_fcs.Query.FcsQl.{Attribute, Query, find_default, of_layer, generate}
use mquery_fcs.Query.FcsQl.Rendering.{attrs_main, unknown, resolve, generate-text}
use mquery_fcs.Prelude.{
  ◌<◌, String, Bool, true, false, ◌&&◌, none, some, List, [], ◌∷◌, ◌≡◌, ◌≢◌, ◌↔◌, refl, sym, ◌∙◌,
  Bool-cases, inl, inr, arith, eq_iff,
}

-- Whether some attribute is of the layer that the query names, `word` standing for `text`.
unfoldable pub provides : List PosAttr → Attribute → Bool
provides ps a = any (of_layer a.value) ps

module _ (v : String) where
  -- The layer behind the name.
  layer_behind :
      (ps : List PosAttr)
      → any (of_layer v) ps ≡ true
      → (j : String) × (uses j ps ≡ true) × ((p : PosAttr) → p.layer ≡ j → of_layer v p ≡ true)
  unfolding uses
  layer_behind [] h = ground (arith, h)
  layer_behind (p ∷ ps) h = elim (Bool-cases (of_layer v p)) [
    | inl t ↦ (p.layer, ground (arith, eq_iff p.layer p.layer), λ q e. rw e t)
    | inr f ↦ let r = layer_behind ps (rw f at h) in (r.0, ground (arith, r.1), r.2)
  ]

  find_default-some :
      (ps : List PosAttr) (j : String)
      → 0 < defaults_of j ps
      → ((p : PosAttr) → p.layer ≡ j → of_layer v p ≡ true)
      → (n : String) × (find_default v ps ≡ some n)
  unfolding defaults_of
  find_default-some [] j h k = absurd (omega arith)
  find_default-some (p ∷ ps) j h k = elim (Bool-cases (of_layer v p && p.is_layer_default)) [
    | inl t ↦ (p.name, rw t refl)
    | inr f ↦
        let r = find_default-some ps j (ground (arith, eq_iff p.layer j, k p)) k in
        (r.0, rw (f, r.1) refl)
  ]

  find_default-none : (ps : List PosAttr) → any (of_layer v) ps ≡ false → find_default v ps ≡ none
  find_default-none [] h = refl
  find_default-none (p ∷ ps) h = ground (arith, find_default-none ps)

-- The attributes name layers only.
abbrev pub Unqualified : List Attribute → Type 0
Unqualified [] = Unit
Unqualified (a ∷ l) = (a.name ≡ "") × Unqualified l

abbrev pub Provided : List PosAttr → List Attribute → Type 0
Provided ps [] = Unit
Provided ps (a ∷ l) = (provides ps a ≡ true) × Provided ps l

resolve-default :
    (ps : List PosAttr) (a : Attribute) → a.name ≡ "" → resolve ps a ≡ find_default a.value ps
resolve-default ps a h = rw h refl

unknown-none :
    (ps : List PosAttr) (a : Attribute) (l : List Attribute)
    → resolve ps a ≡ none
    → unknown ps (a ∷ l) ≢ []
unfolding unknown
unknown-none ps a l h = rw (unknown, h) λ e. cc

unknown-some :
    (ps : List PosAttr) (a : Attribute) (l : List Attribute) {n : String}
    → resolve ps a ≡ some n
    → unknown ps (a ∷ l) ≡ unknown ps l
unfolding unknown
unknown-some ps a l h = rw (unknown, h) refl

resolve-provides :
    (ps : List PosAttr) (a : Attribute)
    → LayersOk ps ps
    → a.name ≡ ""
    → provides ps a ≡ true
    → (n : String) × (resolve ps a ≡ some n)
unfolding provides
resolve-provides ps a v u h =
    let j = layer_behind a.value ps h in
    let d = find_default-some a.value ps j.0 (omega (arith, LayersOk-one ps ps j.0 v j.1)) j.2 in
    (d.0, resolve-default ps a u ∙ d.1)

resolve-lacks :
    (ps : List PosAttr) (a : Attribute) → a.name ≡ "" → provides ps a ≡ false → resolve ps a ≡ none
unfolding provides
resolve-lacks ps a u h = resolve-default ps a u ∙ find_default-none a.value ps h

known-Provided :
    (ps : List PosAttr) (l : List Attribute)
    → LayersOk ps ps
    → Unqualified l
    → unknown ps l ≡ []
    → Provided ps l
known-Provided ps [] v u h = tt
known-Provided ps (a ∷ l) v u h = elim (Bool-cases (provides ps a)) [
  | inl t ↦
      let r = resolve-provides ps a v u.0 t in
      (t, known-Provided ps l v u.1 (sym (unknown-some ps a l r.1) ∙ h))
  | inr f ↦ absurd (unknown-none ps a l (resolve-lacks ps a u.0 f) h)
]

Provided-known :
    (ps : List PosAttr) (l : List Attribute)
    → LayersOk ps ps
    → Unqualified l
    → Provided ps l
    → unknown ps l ≡ []
unfolding unknown
Provided-known ps [] v u h = refl
Provided-known ps (a ∷ l) v u h =
    unknown-some ps a l (resolve-provides ps a v u.0 h.0).1 ∙ Provided-known ps l v u.1 h.1

-- On a corpus whose layers are known and have one default attribute each, a query whose attributes name
-- layers only is free of errors exactly when the corpus has an attribute of each layer it names.
pub generate-Provided :
    (q : Query)
    → LayersOk q.pos_attrs q.pos_attrs
    → Unqualified (attrs_main q.main_query)
    → (generate q).1.errors ≡ [] ↔ Provided q.pos_attrs (attrs_main q.main_query)
generate-Provided q v u =
    rw (generate-text q) (known-Provided q.pos_attrs _ v u, Provided-known q.pos_attrs _ v u)
