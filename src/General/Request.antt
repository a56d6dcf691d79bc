-- ===== src/General/Request.antt =====
-- general/response.go: the errors that a request gathers.
use mathlib.Core.Bool.{false≢true}
use mathlib.Core.List.{append_assoc, append-nil}
use mquery_fcs.General.Errors.{FcsError, is_fatal, overthrow}
use mquery_fcs.Prelude.{
  ℕ, ltb, if◌then◌else◌, String, Bool, true, false, ◌&&◌, ◌||◌, List, [], ◌∷◌, ◌++◌, length, ◌≡◌,
  ap, sym, ◌∙◌, inl, inr, Bool-cases, arith,
}

-- All responses, refusals included, have the status 200.
abbrev pub conformant_status_bad_request : ℕ
conformant_status_bad_request = 200

abbrev pub conformant_unprocessable_entity : ℕ
conformant_unprocessable_entity = 200

abbrev pub conformand_general_server_error : ℕ
conformand_general_server_error = 200

abbrev pub record_schema : String
record_schema = "http://clarin.eu/fcs/resource"

pub record FcsGeneralRequest : Type 0 where
  pub version : String
  pub errors : List FcsError
  pub fatal : Bool
  pub xslt : String

-- `AddError`.
unfoldable pub add_error : FcsError → FcsGeneralRequest → FcsGeneralRequest
add_error e r =
    let kept = if is_fatal e && overthrow e then [] else r.errors in
    record r { fatal = r.fatal || is_fatal e; errors = kept ++ e ∷ [] }

-- `HasFatalError`.
unfoldable pub has_fatal_error : FcsGeneralRequest → Bool
has_fatal_error r = ltb 0 (length r.errors) && r.fatal

-- Errors added one after the other.
unfoldable pub add_errors : List FcsError → FcsGeneralRequest → FcsGeneralRequest
add_errors [] r = r
add_errors (e ∷ es) r = add_errors es (add_error e r)

abbrev pub any {ℓ} : {A : Type ℓ} → (A → Bool) → List A → Bool
any p [] = false
any p (x ∷ xs) = p x || any p xs

overthrow-is_fatal : (e : FcsError) → (is_fatal e && overthrow e) ≡ overthrow e
unfolding is_fatal overthrow
overthrow-is_fatal e = ground arith

-- Errors that do not overthrow the others are appended.
add_errors-append :
    (es : List FcsError) (r : FcsGeneralRequest)
    → any overthrow es ≡ false
    → (add_errors es r).errors ≡ r.errors ++ es
unfolding add_errors add_error
add_errors-append [] r h = sym (append-nil r.errors)
add_errors-append (e ∷ es) r h = elim (Bool-cases (overthrow e)) [
  | inl o ↦ absurd (false≢true (sym (rw o at h)))
  | inr o ↦
      let q : (is_fatal e && overthrow e) ≡ false = overthrow-is_fatal e ∙ o in
      add_errors-append es (add_error e r) (rw o at h) ∙ rw q (append_assoc r.errors (e ∷ []) es)
]

add_errors-after :
    (pre : List FcsError) (o : FcsError) (post : List FcsError) (r : FcsGeneralRequest)
    → overthrow o ≡ true
    → any overthrow post ≡ false
    → (add_errors (pre ++ o ∷ post) r).errors ≡ o ∷ post
unfolding add_errors add_error
add_errors-after [] o post r h n =
    let q : (is_fatal o && overthrow o) ≡ true = overthrow-is_fatal o ∙ h in
    add_errors-append post (add_error o r) n ∙ rw q
add_errors-after (e ∷ pre) o post r h n = add_errors-after pre o post (add_error e r) h n

add_errors-fatal :
    (es : List FcsError) (r : FcsGeneralRequest)
    → (add_errors es r).fatal ≡ (r.fatal || any is_fatal es)
unfolding add_errors add_error
add_errors-fatal [] r = ground arith
add_errors-fatal (e ∷ es) r = ground (arith, add_errors-fatal es (add_error e r))

-- However many errors are added, in whatever order: an error that overthrows the others leaves
-- itself and what is added after it, up to the next such; and the request is fatal as soon as one of
-- them was.
pub add_errors-overthrow :
    (pre : List FcsError) (o : FcsError) (post : List FcsError) (r : FcsGeneralRequest)
    → overthrow o ≡ true
    → any overthrow post ≡ false
    → ((add_errors (pre ++ o ∷ post) r).errors ≡ o ∷ post)
      × (has_fatal_error (add_errors (pre ++ o ∷ post) r) ≡ true)
unfolding has_fatal_error
add_errors-overthrow pre o post r h n =
    let es = pre ++ o ∷ post in
    let e = add_errors-after pre o post r h n in
    let f : (add_errors es r).fatal ≡ true =
      add_errors-fatal es r ∙ ap (λ b. r.fatal || b) (any-middle pre o post h) ∙ or_true r.fatal in
    (e, rw (e, f) (ground arith))
  where
    or_true : (b : Bool) → (b || true) ≡ true
    or_true b = ground arith

    any-middle :
        (pre : List FcsError) (o : FcsError) (post : List FcsError)
        → overthrow o ≡ true
        → any is_fatal (pre ++ o ∷ post) ≡ true
    any-middle [] o post h = ground (arith, overthrow-is_fatal o)
    any-middle (x ∷ pre) o post h = ground (arith, any-middle pre o post h)
