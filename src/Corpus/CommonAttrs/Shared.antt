-- ===== src/Corpus/CommonAttrs/Shared.antt =====
-- Which attributes corpora have in common.
use mquery_fcs.Corpus.CommonAttrs.{
  collect_attr, collect_attrs, collect_all, shared_attrs, attr_less, insert_attr, sort_attrs,
  get_common_pos_attrs2,
}
use mquery_fcs.Corpus.Layers.{PosAttr}
use mquery_fcs.Corpus.Setup.{CorpusSetup}
use mquery_fcs.Prelude.{
  ℕ, ◌+◌, ◌≤◌, ◌<◌, ◌==◌, str_eq, eq_iff, if◌then◌else◌, String, Bool, true, false, ◌||◌, ◌&&◌,
  List, [], ◌∷◌, length, ◌≡◌, refl, ap, ◌∙◌, inl, inr, Bool-cases, arith,
}

-- An attribute of the name is there.
abbrev pub named : String → List PosAttr → Bool
named n [] = false
named n (p ∷ ps) = str_eq p.name n || named n ps

abbrev pub all_named : String → List CorpusSetup → Bool
all_named n [] = true
all_named n (c ∷ cs) = named n c.pos_attrs && all_named n cs

-- The attributes have names of their own.
abbrev pub OwnNames : List PosAttr → Type 0
OwnNames [] = Unit
OwnNames (p ∷ ps) = (named p.name ps ≡ false) × OwnNames ps

abbrev pub AllOwnNames : List CorpusSetup → Type 0
AllOwnNames [] = Unit
AllOwnNames (c ∷ cs) = OwnNames c.pos_attrs × AllOwnNames cs

-- How often a name was met.
abbrev met : String → List (ℕ × PosAttr) → ℕ
met n [] = 0
met n ((k, p) ∷ m) = let rest = met n m in if str_eq p.name n then k else rest

abbrev is_key : String → List (ℕ × PosAttr) → Bool
is_key n [] = false
is_key n ((k, p) ∷ m) = str_eq p.name n || is_key n m

abbrev OwnKeys : List (ℕ × PosAttr) → Type 0
OwnKeys [] = Unit
OwnKeys ((k, p) ∷ m) = (is_key p.name m ≡ false) × OwnKeys m

abbrev occurrences : String → List PosAttr → ℕ
occurrences n [] = 0
occurrences n (p ∷ ps) = (if str_eq p.name n then 1 else 0) + occurrences n ps

abbrev total : String → List CorpusSetup → ℕ
total n [] = 0
total n (c ∷ cs) = occurrences n c.pos_attrs + total n cs

collect_attr-met :
    (n : String) (pa : PosAttr) (m : List (ℕ × PosAttr))
    → met n (collect_attr pa m) ≡ (if str_eq pa.name n then 1 else 0) + met n m
collect_attr-met n pa [] = ground arith
collect_attr-met n pa ((k, p) ∷ m) = elim (Bool-cases (str_eq p.name pa.name)) [
  | inl t ↦ rw (collect_attr, t, (eq_iff _ _).0 t) (ground arith)
  | inr f ↦
      ground (
        arith,
        collect_attr-met n pa m,
        f,
        eq_iff p.name pa.name,
        eq_iff p.name n,
        eq_iff pa.name n,
      )
]

collect_attr-is_key :
    (n : String) (pa : PosAttr) (m : List (ℕ × PosAttr))
    → is_key n (collect_attr pa m) ≡ (str_eq pa.name n || is_key n m)
collect_attr-is_key n pa [] = refl
collect_attr-is_key n pa ((k, p) ∷ m) = elim (Bool-cases (str_eq p.name pa.name)) [
  | inl t ↦ rw (collect_attr, t, (eq_iff _ _).0 t) (ground arith)
  | inr f ↦ rw (collect_attr, f) (ground (arith, collect_attr-is_key n pa m))
]

collect_attr-OwnKeys :
    (pa : PosAttr) (m : List (ℕ × PosAttr)) → OwnKeys m → OwnKeys (collect_attr pa m)
collect_attr-OwnKeys pa [] h = (refl, tt)
collect_attr-OwnKeys pa ((k, p) ∷ m) h = elim (Bool-cases (str_eq p.name pa.name)) [
  | inl t ↦ rw (collect_attr, t) (rw (← (eq_iff _ _).0 t) h.0, h.1)
  | inr f ↦
      rw (collect_attr, f)
        (
          collect_attr-is_key p.name pa m
              ∙ ground (arith, h.0, f, eq_iff p.name pa.name, eq_iff pa.name p.name),
          collect_attr-OwnKeys pa m h.1,
        )
]

collect_attrs-met :
    (n : String) (ps : List PosAttr) (m : List (ℕ × PosAttr))
    → met n (collect_attrs ps m) ≡ occurrences n ps + met n m
collect_attrs-met n [] m = omega arith
collect_attrs-met n (p ∷ ps) m =
    omega (arith, collect_attrs-met n ps (collect_attr p m), collect_attr-met n p m)

collect_attrs-OwnKeys :
    (ps : List PosAttr) (m : List (ℕ × PosAttr)) → OwnKeys m → OwnKeys (collect_attrs ps m)
collect_attrs-OwnKeys [] m h = h
collect_attrs-OwnKeys (p ∷ ps) m h =
    collect_attrs-OwnKeys ps (collect_attr p m) (collect_attr-OwnKeys p m h)

collect_all-met :
    (n : String) (cs : List CorpusSetup) (m : List (ℕ × PosAttr))
    → met n (collect_all cs m) ≡ total n cs + met n m
collect_all-met n [] m = omega arith
collect_all-met n (c ∷ cs) m =
    omega
      (arith, collect_all-met n cs (collect_attrs c.pos_attrs m), collect_attrs-met n c.pos_attrs m)

collect_all-OwnKeys :
    (cs : List CorpusSetup) (m : List (ℕ × PosAttr)) → OwnKeys m → OwnKeys (collect_all cs m)
collect_all-OwnKeys [] m h = h
collect_all-OwnKeys (c ∷ cs) m h =
    collect_all-OwnKeys cs (collect_attrs c.pos_attrs m) (collect_attrs-OwnKeys c.pos_attrs m h)

no_key :
    (n : String) (k : ℕ) (m : List (ℕ × PosAttr))
    → is_key n m ≡ false
    → named n (shared_attrs k m) ≡ false
no_key n k [] h = refl
no_key n k ((i, p) ∷ m) h = ground (arith, no_key n k m)

shared_attrs-named :
    (n : String) (k : ℕ) (m : List (ℕ × PosAttr))
    → 0 < k
    → OwnKeys m
    → named n (shared_attrs k m) ≡ (met n m == k)
shared_attrs-named n k [] l h = ground arith
shared_attrs-named n k ((i, p) ∷ m) l h = elim (Bool-cases (str_eq p.name n)) [
  | inl t ↦
      let none_left = no_key n k m (rw (← (eq_iff _ _).0 t) h.0) in ground (arith, t, none_left)
  | inr f ↦ ground (arith, f, shared_attrs-named n k m l h.1)
]

insert_attr-named :
    (n : String) (p : PosAttr) (qs : List PosAttr)
    → named n (insert_attr p qs) ≡ (str_eq p.name n || named n qs)
insert_attr-named n p [] = refl
insert_attr-named n p (q ∷ qs) = elim (Bool-cases (attr_less p q)) [
  | inl t ↦ rw (insert_attr, t) refl
  | inr f ↦ rw (insert_attr, f) (ground (arith, insert_attr-named n p qs))
]

sort_attrs-named : (n : String) (ps : List PosAttr) → named n (sort_attrs ps) ≡ named n ps
unfolding sort_attrs
sort_attrs-named n [] = refl
sort_attrs-named n (p ∷ ps) =
    insert_attr-named n p (sort_attrs ps) ∙ ap (λ b. str_eq p.name n || b) (sort_attrs-named n ps)

own-occurrences :
    (n : String) (ps : List PosAttr)
    → OwnNames ps
    → occurrences n ps ≡ (if named n ps then 1 else 0)
own-occurrences n [] h = refl
own-occurrences n (p ∷ ps) h = elim (Bool-cases (str_eq p.name n)) [
  | inl t ↦
      let alone : named n ps ≡ false = rw (← (eq_iff _ _).0 t) h.0 in
      ground (arith, t, alone, own-occurrences n ps h.1)
  | inr f ↦ ground (arith, f, own-occurrences n ps h.1)
]

own-total :
    (n : String) (cs : List CorpusSetup)
    → AllOwnNames cs
    → (total n cs ≤ length cs) × ((total n cs == length cs) ≡ all_named n cs)
own-total n [] h = (omega arith, refl)
own-total n (c ∷ cs) h = ground (arith, own-total n cs h.1, own-occurrences n c.pos_attrs h.0)

-- If each corpus has names of its own for its attributes, an attribute of a name is among those that all
-- corpora have in common exactly if each corpus has one of this name.
pub get_common_pos_attrs2-named :
    (n : String) (c : CorpusSetup) (cs : List CorpusSetup)
    → AllOwnNames (c ∷ cs)
    → named n (get_common_pos_attrs2 (c ∷ cs)) ≡ all_named n (c ∷ cs)
unfolding get_common_pos_attrs2
get_common_pos_attrs2-named n c cs h =
    sort_attrs-named n _
    ∙ shared_attrs-named n (length (c ∷ cs)) (collect_all (c ∷ cs) []) (omega arith)
        (collect_all-OwnKeys (c ∷ cs) [] tt)
    ∙ ap (λ k. k == length (c ∷ cs)) (collect_all-met n (c ∷ cs) [] ∙ omega arith)
    ∙ (own-total n (c ∷ cs) h).1
