-- ===== src/Handler/V20/Responses.antt =====
-- handler/v20/schema/: the parts of the responses that the handlers fill.
pub mod Forms
use mquery_fcs.General.Errors.{as_message}
use mquery_fcs.Corpus.Setup.{CorpusSetup}
use mquery_fcs.Prelude.{ℕ, String, Option, none, some, List, [], ◌∷◌}

-- `XMLDiagnostic`. The code stands for its address, and the message is the one before it is cut to
-- 200 characters; the handlers of this version pass no other type than 0.
pub record Diagnostic : Type 0 where
  pub code : ℕ
  pub details : String
  pub message : String

-- `XMLSRRecord`: the PID, and the corpus and the line of the record, from which its parts are written
-- (Records).
pub record SrRecord (L : Type 0) : Type 0 where
  pub pid : String
  pub resource : CorpusSetup
  pub line : L
  pub record_position : ℕ

-- `XMLSRResponse` with its status; the optional numbers are those that XML leaves out at 0.
pub record SrResponse (L : Type 0) : Type 0 where
  pub status : ℕ
  pub diagnostics : List Diagnostic
  pub echoed_query : String
  pub echoed_start_record : ℕ
  pub number_of_records : ℕ
  pub records : List (SrRecord L)
  pub next_record_position : ℕ

-- `NewXMLSRResponse`.
abbrev pub new_response : {L : Type 0} → SrResponse L
new_response = record {
  status = 200;
  diagnostics = [];
  echoed_query = "";
  echoed_start_record = 0;
  number_of_records = 0;
  records = [];
  next_record_position = 0;
}

-- `AddDfltMsgDiagnostic` on new diagnostics.
abbrev pub dflt_msg : ℕ → String → List Diagnostic
dflt_msg code ident = record { code = code; details = ident; message = as_message code } ∷ []

abbrev pub with_msg : ℕ → String → String → List Diagnostic
with_msg code ident message = record { code = code; details = ident; message = message } ∷ []

-- What a step of a handler comes to: a panic, a response that ends the handler, or a value.
pub data Step {ℓ} (L : Type 0) (A : Type ℓ) : Type ℓ where
  panicked : Step L A
  answered : SrResponse L → Step L A
  going : A → Step L A

infixl 5 ◌>>=◌ ◌>>◌
abbrev pub ◌>>=◌ {ℓ κ} :
    {L : Type 0} {A : Type ℓ} {B : Type κ} → Step L A → (A → Step L B) → Step L B
panicked >>= f = panicked
answered r >>= f = answered r
going a >>= f = f a

abbrev pub ◌>>◌ {κ} : {L : Type 0} {B : Type κ} → Step L (Unit {0}) → Step L B → Step L B
m >> k = m >>= λ _. k

-- A response that holds only the diagnostics.
abbrev pub refuse {ℓ} : {L : Type 0} {A : Type ℓ} → SrResponse L → ℕ → List Diagnostic → Step L A
refuse ans status ds = answered (record ans { status = status; diagnostics = ds })

-- The value of a call that may panic.
abbrev pub unpanicked {ℓ} : {L : Type 0} {A : Type ℓ} → Option A → Step L A
unpanicked none = panicked
unpanicked (some a) = going a
