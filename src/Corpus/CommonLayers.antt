-- ===== src/Corpus/CommonLayers.antt =====
-- corpus/conf.go: the layers of a corpus and those that all corpora have, over the sets of a library.
use mquery_fcs.Corpus.Layers.{PosAttr}
use mquery_fcs.Corpus.Setup.{CorpusSetup}
use mquery_fcs.Prelude.{
  str_eq, String, Bool, true, false, ◌||◌, ◌&&◌, Option, none, some, List, [], ◌∷◌, ◌≡◌, refl, ap,
  ◌∙◌,
}

-- The sets of the library, as the code uses them.
pub record Sets (S : Type 0) : Type 0 where
  pub new_set : S
  pub add : String → S → S
  pub intersect : S → S → S
  pub to_ordered_slice : S → List String

-- An element stands in a list.
abbrev pub stands_in : String → List String → Bool
stands_in x [] = false
stands_in x (y ∷ ys) = str_eq y x || stands_in x ys

-- What is documented of the sets.
pub record AreSets {S : Type 0} (sets : Sets S) : Type 0 where
  pub has : S → String → Bool
  pub new_set-has : (x : String) → has sets.new_set x ≡ false
  pub add-has : (y : String) (s : S) (x : String) → has (sets.add y s) x ≡ (str_eq y x || has s x)
  pub intersect-has : (s t : S) (x : String) → has (sets.intersect s t) x ≡ (has s x && has t x)
  pub slice-has : (s : S) (x : String) → stands_in x (sets.to_ordered_slice s) ≡ has s x

-- An attribute of the layer is there.
abbrev pub in_layer : String → List PosAttr → Bool
in_layer x [] = false
in_layer x (p ∷ ps) = str_eq p.layer x || in_layer x ps

abbrev pub in_all : String → List CorpusSetup → Bool
in_all x [] = true
in_all x (c ∷ cs) = in_layer x c.pos_attrs && in_all x cs

module _ {S : Type 0} (sets : Sets S) where
  -- The loop of `GetDefinedLayers`.
  abbrev pub add_layers : List PosAttr → S → S
  add_layers [] s = s
  add_layers (p ∷ ps) s = add_layers ps (sets.add p.layer s)

  -- `GetDefinedLayers`.
  unfoldable pub get_defined_layers : CorpusSetup → S
  get_defined_layers c = add_layers c.pos_attrs sets.new_set

  -- The loop of `GetCommonLayers`, where `none` is the `nil` set.
  abbrev pub common_set : List CorpusSetup → Option S → Option S
  common_set [] ans = ans
  common_set (c ∷ cs) none = common_set cs (some (get_defined_layers c))
  common_set (c ∷ cs) (some s) = common_set cs (some (sets.intersect s (get_defined_layers c)))

  abbrev pub sliced : Option S → Option (List String)
  sliced none = none
  sliced (some s) = some (sets.to_ordered_slice s)

  -- `GetCommonLayers`; `none` if the method of the set is called on `nil`.
  unfoldable pub get_common_layers : List CorpusSetup → Option (List String)
  unfolding get_defined_layers
  get_common_layers sr = sliced (common_set sr none)

  module _ (law : AreSets sets) where
    or_swap : (a b c : Bool) → (a || (b || c)) ≡ ((b || a) || c)
    or_swap true true c = refl
    or_swap true false c = refl
    or_swap false true c = refl
    or_swap false false c = refl

    or_false : (a : Bool) → (a || false) ≡ a
    or_false true = refl
    or_false false = refl

    and_assoc : (a b c : Bool) → ((a && b) && c) ≡ (a && (b && c))
    and_assoc true b c = refl
    and_assoc false b c = refl

    add_layers-has :
        (ps : List PosAttr) (s : S) (x : String)
        → law.has (add_layers ps s) x ≡ (in_layer x ps || law.has s x)
    add_layers-has [] s x = refl
    add_layers-has (p ∷ ps) s x =
        add_layers-has ps (sets.add p.layer s) x
        ∙ ap (λ b. in_layer x ps || b) (law.add-has p.layer s x)
        ∙ or_swap (in_layer x ps) (str_eq p.layer x) (law.has s x)

    defined-has :
        (c : CorpusSetup) (x : String) → law.has (get_defined_layers c) x ≡ in_layer x c.pos_attrs
    unfolding get_defined_layers
    defined-has c x =
        add_layers-has c.pos_attrs sets.new_set x
        ∙ ap (λ b. in_layer x c.pos_attrs || b) (law.new_set-has x)
        ∙ or_false (in_layer x c.pos_attrs)

    common_set-has :
        (cs : List CorpusSetup) (s : S)
        → (t : S) × (common_set cs (some s) ≡ some t)
          × ((x : String) → law.has t x ≡ (law.has s x && in_all x cs))
    common_set-has [] s = (s, refl, λ x. and_true (law.has s x))
      where
        and_true : (a : Bool) → a ≡ (a && true)
        and_true true = refl
        and_true false = refl
    common_set-has (c ∷ cs) s =
        let r = common_set-has cs (sets.intersect s (get_defined_layers c)) in
        (
          r.0,
          r.1,
          λ x.
              r.2 x
              ∙ ap (λ b. b && in_all x cs) (law.intersect-has s (get_defined_layers c) x)
              ∙ ap (λ b. (law.has s x && b) && in_all x cs) (defined-has c x)
              ∙ and_assoc (law.has s x) (in_layer x c.pos_attrs) (in_all x cs),
        )

    -- If there is a corpus, the common layers are found, and a layer is one of them exactly if each
    -- corpus has an attribute of it.
    pub get_common_layers-in_all :
        (c : CorpusSetup) (cs : List CorpusSetup)
        → (layers : List String) × (get_common_layers (c ∷ cs) ≡ some layers)
          × ((x : String) → stands_in x layers ≡ in_all x (c ∷ cs))
    unfolding get_common_layers
    get_common_layers-in_all c cs =
        let r = common_set-has cs (get_defined_layers c) in
        (
          sets.to_ordered_slice r.0,
          ap sliced r.1,
          λ x. law.slice-has r.0 x ∙ r.2 x ∙ ap (λ b. b && in_all x cs) (defined-has c x),
        )
