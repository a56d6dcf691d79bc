-- ===== src/Handler/View/Slashes.antt =====
-- What becomes of the slashes of an address in the paths of the style sheets.
use Prim.Native.Char.{Char, code}
use Prim.Native.String
use text.Mathlib.TextLemmas.{nil-append, cons-append, append-nil}
use mquery_fcs.Handler.Params.{split_at}
use mquery_fcs.Handler.View.{is_rooted, backtrack, kept, slashed, assemble, clean, join}
use mquery_fcs.Prelude.Text.{concat}
use mquery_fcs.Prelude.{
  ◌==◌, str_eq, eq_iff, String, Bool, true, false, not, ◌&&◌, ◌||◌, List, [], ◌∷◌, ◌≡◌, ◌≢◌, refl,
  ap, ◌∙◌, inl, inr, Bool-cases, arith,
}

-- Two slashes stand next to each other, counting one in front if there is one.
unfoldable pub doubled : Bool → String → Bool
doubled before String.[] = false
doubled before (String.◌∷◌ c s) = (before && code c == 47) || doubled (code c == 47) s

-- No slash stands in the text.
unfoldable pub plain : String → Bool
plain String.[] = true
plain (String.◌∷◌ c s) = not (code c == 47) && plain s

abbrev AllPlain : List String → Type 0
AllPlain [] = Unit
AllPlain (e ∷ es) = (plain e ≡ true) × AllPlain es

-- Elements of a path as `Clean` keeps them.
abbrev Elements : List String → Type 0
Elements [] = Unit
Elements (e ∷ es) = (plain e ≡ true) × (e ≢ "") × Elements es

plain-snoc :
    (s : String) (c : Char)
    → plain s ≡ true
    → (code c == 47) ≡ false
    → plain (String.◌++◌ s (String.◌∷◌ c "")) ≡ true
unfolding plain
plain-snoc String.[] c h f = rw (nil-append (String.◌∷◌ c "")) (rw (plain, f) refl)
plain-snoc (String.◌∷◌ d s) c h f =
    rw (cons-append d s (String.◌∷◌ c "")) (ground (arith, plain-snoc s c))

split_at-AllPlain : (s part : String) → plain part ≡ true → AllPlain (split_at 47 s part)
unfolding split_at plain
split_at-AllPlain String.[] part h = (h, tt)
split_at-AllPlain (String.◌∷◌ c s) part h = elim (Bool-cases (code c == 47)) [
  | inl t ↦ rw t (h, split_at-AllPlain s "" refl)
  | inr f ↦ rw f (split_at-AllPlain s _ (plain-snoc part c h f))
]

backtrack-Elements :
    (rooted : Bool) (es : List String) → Elements es → Elements (backtrack rooted es)
unfolding plain
backtrack-Elements true [] h = tt
backtrack-Elements false [] h = (refl, (λ e. cc), tt)
backtrack-Elements rooted (e ∷ es) h = elim (Bool-cases (str_eq e "..")) [
  | inl t ↦ rw (backtrack, t) (refl, (λ e. cc), h)
  | inr f ↦ rw (backtrack, f) h.2
]

kept-Elements :
    (rooted : Bool) (es done : List String)
    → AllPlain es
    → Elements done
    → Elements (kept rooted es done)
unfolding kept
kept-Elements rooted [] done p h = h
kept-Elements rooted (e ∷ es) done p h = elim (Bool-cases (str_eq e "" || str_eq e ".")) [
  | inl t ↦ rw t (kept-Elements rooted es done p.1 h)
  | inr f ↦ elim (Bool-cases (str_eq e "..")) [
    | inl t ↦ rw (f, t) (kept-Elements rooted es _ p.1 (backtrack-Elements rooted done h))
    | inr g ↦
        rw (f, g)
          (kept-Elements rooted es (e ∷ done) p.1
            (p.0, (λ q. ground (arith, eq_iff e "", f, q)), h))
  ]
]

-- Behind a text without slashes nothing of it matters.
doubled-plain : (e t : String) → plain e ≡ true → doubled false (String.◌++◌ e t) ≡ doubled false t
unfolding doubled plain
doubled-plain String.[] t h = ap (doubled false) (nil-append t)
doubled-plain (String.◌∷◌ c e) t h = rw (cons-append c e t) (ground (arith, doubled-plain e t))

doubled-element :
    (b : Bool) (e t : String)
    → plain e ≡ true
    → e ≢ ""
    → doubled b (String.◌++◌ e t) ≡ doubled false t
unfolding doubled plain
doubled-element b String.[] t h n = absurd (n refl)
doubled-element b (String.◌∷◌ c e) t h n =
    rw (cons-append c e t) (ground (arith, doubled-plain e t))

-- A slash in front counts.
doubled-slash : (t : String) → doubled false (String.◌++◌ "/" t) ≡ doubled true t
unfolding doubled
doubled-slash t = ap (doubled false) (cons-append _ "" t) ∙ ap (doubled true) (nil-append t)

slashed-doubled :
    (b : Bool) (e : String) (es : List String) (rest : String)
    → Elements (e ∷ es)
    → doubled false rest ≡ false
    → doubled b (slashed (e ∷ es) rest) ≡ false
unfolding slashed doubled concat
slashed-doubled b e [] rest h r = doubled-element b e rest h.0 h.1 ∙ r
slashed-doubled b e (d ∷ es) rest h r = slashed-doubled b d es (concat ("/" ∷ e ∷ rest ∷ [])) h.2 (
    doubled-slash (concat (e ∷ rest ∷ []))
    ∙ doubled-element true e (String.◌++◌ rest "") h.0 h.1
    ∙ ap (doubled false) (append-nil rest)
    ∙ r)

assemble-doubled :
    (rooted : Bool) (es : List String) → Elements es → doubled false (assemble rooted es) ≡ false
unfolding doubled
assemble-doubled true [] h = refl
assemble-doubled false [] h = refl
assemble-doubled true (e ∷ es) h =
    doubled-slash (slashed (e ∷ es) "") ∙ slashed-doubled true e es "" h refl
assemble-doubled false (e ∷ es) h = slashed-doubled false e es "" h refl

clean-doubled : (path : String) → doubled false (clean path) ≡ false
unfolding clean plain
clean-doubled path =
    assemble-doubled (is_rooted path) _
      (kept-Elements (is_rooted path) (split_at 47 path "") [] (split_at-AllPlain path "" refl) tt)

pub join-doubled : (base rest : String) → doubled false (join base rest) ≡ false
unfolding join
join-doubled base rest = elim (Bool-cases (str_eq base "")) [
  | inl t ↦ rw (join, t) (clean-doubled rest)
  | inr f ↦ rw (join, f) (clean-doubled (concat (base ∷ "/" ∷ rest ∷ [])))
]
