-- ===== src/Corpus/CommonAttrs.antt =====
-- corpus/conf.go: the positional attributes that corpora have in common.
pub mod AllCorpora
pub mod Shared
use Prim.Native.Nat.{Ordering}
use Prim.Native.String
use mquery_fcs.Corpus.Layers.{PosAttr, default_layer_type}
use mquery_fcs.Corpus.Resources.{get_resource}
use mquery_fcs.Corpus.Setup.{CorpusSetup}
use mquery_fcs.Prelude.{
  ℕ, ◌+◌, ◌==◌, str_eq, if◌then◌else◌, String, Bool, true, false, ◌&&◌, Option, some, List, [], ◌∷◌,
  map, length, ◌>>=◌,
}

-- The maps `count` and `collect`, which have the same keys: how often a name was met, and the last
-- attribute of the name.
abbrev pub collect_attr : PosAttr → List (ℕ × PosAttr) → List (ℕ × PosAttr)
collect_attr pa [] = (1, pa) ∷ []
collect_attr pa ((n, p) ∷ m) =
    let rest = collect_attr pa m in if str_eq p.name pa.name then (n + 1, pa) ∷ m else (n, p) ∷ rest

abbrev pub collect_attrs : List PosAttr → List (ℕ × PosAttr) → List (ℕ × PosAttr)
collect_attrs [] m = m
collect_attrs (pa ∷ ps) m = collect_attrs ps (collect_attr pa m)

-- The loop over the corpora; `none` is the error of an unknown corpus.
unfoldable pub collect_corpora :
    List CorpusSetup → List String → List (ℕ × PosAttr) → Option (List (ℕ × PosAttr))
collect_corpora sr [] m = some m
collect_corpora sr (corp ∷ names) m = do
  res ← get_resource sr corp
  collect_corpora sr names (collect_attrs res.pos_attrs m)

-- The attributes that were met as often as there are corpora.
abbrev pub shared_attrs : ℕ → List (ℕ × PosAttr) → List PosAttr
shared_attrs k [] = []
shared_attrs k ((n, p) ∷ m) = if n == k then p ∷ shared_attrs k m else shared_attrs k m

abbrev pub is_text_default : PosAttr → Bool
is_text_default p = str_eq p.layer default_layer_type && p.is_layer_default

abbrev pub text_lt : String → String → Bool
text_lt s t = elim (String.compare s t) [ Ordering.lt ↦ true | _ ↦ false ]

-- The order of the sort.
abbrev pub attr_less : PosAttr → PosAttr → Bool
attr_less p q =
    if is_text_default p then true else if is_text_default q then false else text_lt p.name q.name

abbrev pub insert_attr : PosAttr → List PosAttr → List PosAttr
insert_attr p [] = p ∷ []
insert_attr p (q ∷ qs) =
    let rest = insert_attr p qs in if attr_less p q then p ∷ q ∷ qs else q ∷ rest

-- Go takes the attributes in an unspecified order; the result does not depend on it while at most
-- one of them is a default of the text layer, since their names differ.
unfoldable pub sort_attrs : List PosAttr → List PosAttr
sort_attrs [] = []
sort_attrs (p ∷ ps) = insert_attr p (sort_attrs ps)

-- `GetCommonPosAttrs`.
unfoldable pub get_common_pos_attrs : List CorpusSetup → List String → Option (List PosAttr)
get_common_pos_attrs sr names = do
  m ← collect_corpora sr names []
  some (sort_attrs (shared_attrs (length names) m))

-- `GetCommonPosAttrNames`.
unfoldable pub get_common_pos_attr_names : List CorpusSetup → List String → Option (List String)
get_common_pos_attr_names sr names = do
  ps ← get_common_pos_attrs sr names
  some (map (λ p. p.name) ps)

-- The same over all corpora.
abbrev pub collect_all : List CorpusSetup → List (ℕ × PosAttr) → List (ℕ × PosAttr)
collect_all [] m = m
collect_all (res ∷ sr) m = collect_all sr (collect_attrs res.pos_attrs m)

-- `GetCommonPosAttrs2`.
unfoldable pub get_common_pos_attrs2 : List CorpusSetup → List PosAttr
unfolding sort_attrs
get_common_pos_attrs2 sr = sort_attrs (shared_attrs (length sr) (collect_all sr []))
