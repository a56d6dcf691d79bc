-- ===== src/Handler/V20/DataViews/Alignment.antt =====
-- How the segments of the advanced view lie in the text, and how the values of its layers refer to them.
use Prim.Native.String
use Prim.Native.String.{len}
use mquery_fcs.Corpus.Layers.{PosAttr}
use mquery_fcs.Handler.V20.DataViews.{
  Token, join, AdvSegment, segments, AdvLayer, layer_values, advanced_view,
}
use mquery_fcs.Prelude.{ℕ, ◌+◌, String, List, [], ◌∷◌, map, ◌≡◌, refl, ap, sym, ◌∙◌, arith}
use text.Mathlib.TextLemmas.{append-nil, append_assoc, nil-append}
use text.Mathlib.TextPositions.{len-append}

-- The segment is where the word is in the text; positions count bytes from 1, and the end is that
-- of the last byte.
abbrev pub Located : String → String → AdvSegment → Type 0
Located text w s =
    (u : String) × (v : String) × (text ≡ String.◌++◌ u (String.◌++◌ w v))
    × (s.start ≡ len u + 1)
    × (s.end + 1 ≡ s.start + len w)

abbrev pub AllLocated : String → List Token → List AdvSegment → Type 0
AllLocated text [] [] = Unit
AllLocated text [] (s ∷ ss) = ⊥
AllLocated text (t ∷ ts) [] = ⊥
AllLocated text (t ∷ ts) (s ∷ ss) = Located text t.word s × AllLocated text ts ss

abbrev pub words : List Token → List String
words ts = map (λ t. t.word) ts

segments-AllLocated :
    (ts : List Token) (i p : ℕ) (text u : String)
    → p ≡ len u + 1
    → text ≡ String.◌++◌ u (join " " (words ts))
    → AllLocated text ts (segments i p ts)
unfolding segments join
segments-AllLocated [] i p text u h e = tt
segments-AllLocated (t ∷ []) i p text u h e =
    ((u, "", e ∙ ap (String.◌++◌ u) (sym (append-nil t.word)), h, omega (arith, h)), tt)
segments-AllLocated (t ∷ t' ∷ ts) i p text u h e =
    let rest = join " " (words (t' ∷ ts)) in
    let next = String.◌++◌ u (String.◌++◌ t.word " ") in
    let size : p + (len t.word + 1) ≡ len next + 1 =
      rw (len-append u (String.◌++◌ t.word " "), len-append t.word " ") (omega (arith, h)) in
    let place : text ≡ String.◌++◌ next rest =
      e
      ∙ ap (String.◌++◌ u) (sym (append_assoc t.word " " rest))
      ∙ sym (append_assoc u (String.◌++◌ t.word " ") rest) in
    (
      (u, String.◌++◌ " " rest, e, h, omega (arith, h)),
      segments-AllLocated (t' ∷ ts) (i + 1) (p + (len t.word + 1)) text next size place,
    )

-- The values of the layer refer to the segments, one to each in their order.
abbrev pub AllRefer : List AdvSegment → List AdvLayer → Type 0
AllRefer ss [] = Unit
AllRefer ss (l ∷ ls) = (map (λ v. v.ref) l.values ≡ map (λ s. s.id) ss) × AllRefer ss ls

layer_values-ref :
    (ps : List PosAttr) (layer : String) (i p : ℕ) (ts : List Token)
    → map (λ v. v.ref) (layer_values ps layer i ts) ≡ map (λ s. s.id) (segments i p ts)
unfolding layer_values segments
layer_values-ref ps layer i p [] = refl
layer_values-ref ps layer i p (t ∷ ts) =
    ap (λ l. i ∷ l) (layer_values-ref ps layer (i + 1) (p + (len t.word + 1)) ts)

layers-AllRefer :
    (ps : List PosAttr) (layers : List String) (ts : List Token)
    → AllRefer (advanced_view ps layers ts).segments (advanced_view ps layers ts).layers
unfolding advanced_view
layers-AllRefer ps [] ts = tt
layers-AllRefer ps (l ∷ ls) ts = (layer_values-ref ps l 0 1 ts, layers-AllRefer ps ls ts)

-- The segments of the advanced view are those of the words in the text that the words make with one
-- space between them, in their order, and the values of each layer refer to all segments in their
-- order.
pub advanced_view-Aligned :
    (ps : List PosAttr) (layers : List String) (ts : List Token)
    → AllLocated (join " " (words ts)) ts (advanced_view ps layers ts).segments
      × AllRefer (advanced_view ps layers ts).segments (advanced_view ps layers ts).layers
unfolding advanced_view
advanced_view-Aligned ps layers ts = (
  segments-AllLocated ts 0 1 (join " " (words ts)) "" refl (sym (nil-append (join " " (words ts)))),
  layers-AllRefer ps layers ts,
)
