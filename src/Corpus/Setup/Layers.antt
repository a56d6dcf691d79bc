-- ===== src/Corpus/Setup/Layers.antt =====
-- The loops of the check over the attributes and the layers: what they count and accept.
use mquery_fcs.Corpus.Layers.{PosAttr, is_layer, validate_layer}
use mquery_fcs.Corpus.Setup.{SetupError, ok, err, add_default, flag, count_attrs, check_defaults}
use mquery_fcs.Prelude.{
  ℕ, ◌+◌, ◌≡◌, ◌≢◌, refl, ap, sym, ◌∙◌, inl, inr, str_eq, if◌then◌else◌, String, Bool, true, false,
  ◌||◌, Option, none, some, List, [], ◌∷◌, Bool-cases, Option-cases, arith, eq_iff,
}

-- How many attributes are marked as the default of the layer.
unfoldable pub defaults_of : String → List PosAttr → ℕ
defaults_of layer [] = 0
defaults_of layer (p ∷ ps) =
    (if str_eq p.layer layer then flag p.is_layer_default else 0) + defaults_of layer ps

-- Each attribute has one of the known layers, and its layer has exactly one default.
abbrev pub LayersOk : List PosAttr → List PosAttr → Type 0
LayersOk all [] = Unit
LayersOk all (p ∷ ps) = (is_layer p.layer ≡ true) × (defaults_of p.layer all ≡ 1) × LayersOk all ps

unfoldable pub basic_count : List PosAttr → ℕ
basic_count [] = 0
basic_count (p ∷ ps) = flag p.is_basic_search_attr + basic_count ps

-- The number that the map has for the layer.
entry : String → List (String × ℕ) → Option ℕ
entry k [] = none
entry k ((j, v) ∷ m) = if str_eq j k then some v else entry k m

or_zero : Option ℕ → ℕ
or_zero none = 0
or_zero (some n) = n

entry-add_default :
    (k j : String) (n : ℕ) (m : List (String × ℕ))
    → entry j (add_default k n m)
      ≡ (if str_eq k j then some (or_zero (entry k m) + n) else entry j m)
unfolding entry add_default or_zero
entry-add_default k j n [] = ground arith
entry-add_default k j n ((i, v) ∷ m) =
    ground (arith, eq_iff k j, eq_iff i k, eq_iff i j, entry-add_default k j n m)

has_entry : String → List (String × ℕ) → Bool
has_entry k [] = false
has_entry k ((j, v) ∷ m) = if str_eq j k then true else has_entry k m

has_entry-add_default :
    (k j : String) (n : ℕ) (m : List (String × ℕ))
    → has_entry j (add_default k n m) ≡ (str_eq k j || has_entry j m)
unfolding has_entry add_default
has_entry-add_default k j n [] = ground arith
has_entry-add_default k j n ((i, v) ∷ m) =
    ground (arith, eq_iff k j, eq_iff i k, eq_iff i j, has_entry-add_default k j n m)

-- A map that passes the check has one default for each of its layers.
check_defaults-entry :
    (m : List (String × ℕ)) (j : String)
    → check_defaults m ≡ ok tt
    → has_entry j m ≡ true
    → or_zero (entry j m) ≡ 1
unfolding check_defaults has_entry entry or_zero
check_defaults-entry [] j h e = cc
check_defaults-entry ((i, v) ∷ m) j h e = ground (arith, check_defaults-entry m j)

unfoldable pub uses : String → List PosAttr → Bool
uses j [] = false
uses j (p ∷ ps) = str_eq p.layer j || uses j ps

AllLayers : List PosAttr → Type 0
AllLayers [] = Unit
AllLayers (p ∷ ps) = (is_layer p.layer ≡ true) × AllLayers ps

-- What the loop over the attributes has counted when it passes them all.
record Counted (ps : List PosAttr) (m : List (String × ℕ)) (b : ℕ) (m' : List (String × ℕ)) (b' : ℕ)
    : Type 0 where
  layers : AllLayers ps
  present : (j : String) → has_entry j m' ≡ (has_entry j m || uses j ps)
  numbers : (j : String) → or_zero (entry j m') ≡ or_zero (entry j m) + defaults_of j ps
  basics : b' ≡ b + basic_count ps

validate_layer-is_layer : (l : String) → validate_layer l ≡ none → is_layer l ≡ true
unfolding validate_layer
validate_layer-is_layer l h = elim (Bool-cases (is_layer l)) [
  | inl t ↦ t
  | inr f ↦ absurd (some≢none (rw f at h))
]
  where
    some≢none : {s : String} → some s ≢ none
    some≢none h = cc

is_layer-validate_layer : (l : String) → is_layer l ≡ true → validate_layer l ≡ none
unfolding validate_layer
is_layer-validate_layer l h = rw h refl

count_attrs-Counted :
    (ps : List PosAttr) (m : List (String × ℕ)) (b : ℕ) (m' : List (String × ℕ)) (b' : ℕ)
    → count_attrs ps m b ≡ ok (m', b')
    → Counted ps m b m' b'
unfolding count_attrs AllLayers uses defaults_of basic_count or_zero
count_attrs-Counted [] m b m' b' h =
    let e : (m ≡ m') × (b ≡ b') = (cc, cc) in
    record {
      layers = tt;
      present = λ j. ground (arith, e);
      numbers = λ j. ground (arith, e);
      basics = ground (arith, e);
    }
count_attrs-Counted (p ∷ ps) m b m' b' h = elim (Option-cases (validate_layer p.layer)) [
  | inl v ↦
      let c =
        count_attrs-Counted ps (add_default p.layer (flag p.is_layer_default) m)
          (b + flag p.is_basic_search_attr) m' b' (rw (count_attrs, v) at h) in
      record {
        layers = (validate_layer-is_layer p.layer v, c.layers);
        present = λ j.
            ground
              (arith, c.present j, has_entry-add_default p.layer j (flag p.is_layer_default) m);
        numbers = λ j. ground (
          arith,
          eq_iff p.layer j,
          c.numbers j,
          entry-add_default p.layer j (flag p.is_layer_default) m,
        );
        basics = omega (arith, c.basics);
      }
  | inr (s, v) ↦ absurd (err≢ok (rw (count_attrs, v) at h))
]
  where
    err≢ok : {e : SetupError} {r : List (String × ℕ) × ℕ} → err e ≢ ok r
    err≢ok h = cc

Unique : List (String × ℕ) → Type 0
Unique [] = Unit
Unique ((j, v) ∷ m) = (has_entry j m ≡ false) × Unique m

add_default-Unique :
    (k : String) (n : ℕ) (m : List (String × ℕ)) → Unique m → Unique (add_default k n m)
unfolding Unique add_default has_entry
add_default-Unique k n [] u = (refl, tt)
add_default-Unique k n ((j, v) ∷ m) u = elim (Bool-cases (str_eq j k)) [
  | inl e ↦ rw e u
  | inr e ↦ rw e (
    ground (arith, eq_iff k j, eq_iff j k, has_entry-add_default k j n m, u),
    add_default-Unique k n m u.1,
  )
]

-- The loop passes attributes of known layers, and keeps one entry for a layer.
count_attrs-ok :
    (ps : List PosAttr) (m : List (String × ℕ)) (b : ℕ)
    → AllLayers ps
    → Unique m
    → (m' : List (String × ℕ)) × (b' : ℕ) × (count_attrs ps m b ≡ ok (m', b')) × Unique m'
unfolding count_attrs AllLayers
count_attrs-ok [] m b h u = (m, b, refl, u)
count_attrs-ok (p ∷ ps) m b h u =
    let k = flag p.is_layer_default in
    let r =
      count_attrs-ok ps (add_default p.layer k m) (b + flag p.is_basic_search_attr) h.1
        (add_default-Unique p.layer k m u) in
    (r.0, r.1, rw (count_attrs, is_layer-validate_layer p.layer h.0) r.2, r.3)

-- A map whose layers have one default each passes.
check_defaults-ok :
    (m : List (String × ℕ))
    → Unique m
    → ((j : String) → has_entry j m ≡ true → or_zero (entry j m) ≡ 1)
    → check_defaults m ≡ ok tt
unfolding check_defaults Unique has_entry entry or_zero
check_defaults-ok [] u h = refl
check_defaults-ok ((j, v) ∷ m) u h =
    let one : v ≡ 1 = ground (arith, h j, eq_iff j j) in
    rw one (check_defaults-ok m u.1 λ i e. ground (arith, eq_iff j i, h i, u.0, e))

layers-LayersOk :
    (all ps : List PosAttr)
    → AllLayers ps
    → ((j : String) → uses j ps ≡ true → defaults_of j all ≡ 1)
    → LayersOk all ps
unfolding AllLayers uses
layers-LayersOk all [] a h = tt
layers-LayersOk all (p ∷ ps) a h = (
  a.0,
  h p.layer (ground (arith, eq_iff p.layer p.layer)),
  layers-LayersOk all ps a.1 λ j u. h j (ground (arith, u)),
)

LayersOk-layers : (all ps : List PosAttr) → LayersOk all ps → AllLayers ps
unfolding AllLayers
LayersOk-layers all [] h = tt
LayersOk-layers all (p ∷ ps) h = (h.0, LayersOk-layers all ps h.2)

pub LayersOk-one :
    (all ps : List PosAttr) (j : String)
    → LayersOk all ps
    → uses j ps ≡ true
    → defaults_of j all ≡ 1
unfolding uses
LayersOk-one all [] j h u = cc
LayersOk-one all (p ∷ ps) j h u = elim (Bool-cases (str_eq p.layer j)) [
  | inl e ↦ ap (λ l. defaults_of l all) (sym ((eq_iff p.layer j).0 e)) ∙ h.1
  | inr e ↦ LayersOk-one all ps j h.2 (rw e at u)
]

-- Attributes that the loops pass.
pub checks-LayersOk :
    (ps : List PosAttr) (m : List (String × ℕ)) (n : ℕ)
    → count_attrs ps [] 0 ≡ ok (m, n)
    → check_defaults m ≡ ok tt
    → LayersOk ps ps × (n ≡ basic_count ps)
unfolding has_entry entry or_zero
checks-LayersOk ps m n h d =
    let c = count_attrs-Counted ps [] 0 m n h in
    (
      layers-LayersOk ps ps c.layers
          λ j u. ground (arith, c.numbers j, check_defaults-entry m j d (c.present j ∙ u)),
      ground (arith, c.basics),
    )

-- The loops pass such attributes.
pub LayersOk-checks :
    (ps : List PosAttr)
    → LayersOk ps ps
    → (m : List (String × ℕ)) × (count_attrs ps [] 0 ≡ ok (m, basic_count ps))
      × (check_defaults m ≡ ok tt)
unfolding has_entry entry or_zero Unique
LayersOk-checks ps h =
    let r = count_attrs-ok ps [] 0 (LayersOk-layers ps ps h) tt in
    let c = count_attrs-Counted ps [] 0 r.0 r.1 r.2 in
    let n : r.1 ≡ basic_count ps = ground (arith, c.basics) in
    (
      r.0,
      r.2 ∙ ap (λ b. ok (r.0, b)) n,
      check_defaults-ok r.0 r.3
          λ j e. ground (arith, c.numbers j, LayersOk-one ps ps j h (sym (c.present j) ∙ e)),
    )
