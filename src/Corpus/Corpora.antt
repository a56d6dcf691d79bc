-- ===== src/Corpus/Corpora.antt =====
-- corpus/conf.go: the configuration of all corpora and its check at the start of the server.
pub mod Defaults
pub mod Twice
use mquery_fcs.Corpus.Setup.{CorpusSetup, SetupError, Checked, ok, err, validate, with_view_context}
use mquery_fcs.Corpus.Setup.Validity.{IsValid, validate-IsValid}
use mquery_fcs.Prelude.{
  ℕ, ◌≤◌, ◌<◌, ◌==◌, ltb, leb, str_eq, if◌then◌else◌, String, Bool, true, false, not, ◌&&◌, Option,
  none, some, List, [], ◌∷◌, ◌≡◌, ◌≢◌, refl, ap, sym, ◌∙◌, ◌⊎◌, inl, inr, Bool-cases, arith,
}
use mquery_fcs.Prelude.Integers.{Integer}

-- `CorporaSetup`, without the directory of further configuration files.
pub record CorporaConf : Type 0 where
  pub registry_dir : String
  pub maximum_records : Integer
  pub maximum_context : Integer
  pub resources : List CorpusSetup

-- The errors of `ValidateAndDefaults`; each is a text of its own in the source.
pub data ConfError : Type 0 where
  missing_section missing_registry_dir not_a_directory too_many_records negative_context : ConfError
  untested_directory : String → ConfError
  invalid_resource : SetupError → ConfError

-- What is found of a directory: an error, or whether it is one.
pub data DirTest : Type 0 where
  failed : String → DirTest
  tested : Bool → DirTest

pub data Configured {ℓ} (A : Type ℓ) : Type ℓ where
  valid : A → Configured A
  invalid : ConfError → Configured A

infixl 5 ◌>>=◌
abbrev pub ◌>>=◌ {ℓ κ} :
    {A : Type ℓ} {B : Type κ} → Configured A → (A → Configured B) → Configured B
valid a >>= f = f a
invalid e >>= f = invalid e

abbrev pub of_resource : Checked CorpusSetup → Configured CorpusSetup
of_resource (ok c) = valid c
of_resource (err e) = invalid (invalid_resource e)

-- `SrchResources.Validate`, with the setups as it leaves them.
unfoldable pub validate_resources : List CorpusSetup → Configured (List CorpusSetup)
validate_resources [] = valid []
validate_resources (c ∷ cs) = do
  d ← of_resource (validate c)
  ds ← validate_resources cs
  valid (d ∷ ds)

abbrev pub check_registry : (String → DirTest) → String → Configured (Unit {0})
check_registry is_dir dir =
    if str_eq dir "" then invalid missing_registry_dir else elim (is_dir dir) [
      | failed e ↦ invalid (untested_directory e)
      | tested b ↦ if b then valid tt else invalid not_a_directory
    ]

abbrev pub plain : ℕ → Integer
plain n = record { negative = false; magnitude = n }

-- `cs.MaximumRecords`, with its default.
abbrev pub check_maximum : Integer → Configured Integer
check_maximum n =
    if n.magnitude == 0
    then valid (plain 50)
    else if not n.negative && ltb 1000 n.magnitude
    then invalid too_many_records
    else valid n

-- `cs.MaximumContext`, with its default.
abbrev pub check_context : Integer → Configured Integer
check_context n =
    if n.magnitude == 0
    then valid (plain 50)
    else if n.negative
    then invalid negative_context
    else valid n

-- `ValidateAndDefaults`; what is found of a directory is a parameter.
unfoldable pub validate_and_defaults : (String → DirTest) → CorporaConf → Configured CorporaConf
unfolding validate_resources
validate_and_defaults is_dir c = do
  checked ← check_registry is_dir c.registry_dir
  maximum ← check_maximum c.maximum_records
  context ← check_context c.maximum_context
  resources ← validate_resources c.resources
  valid (record c { maximum_records = maximum; maximum_context = context; resources = resources })

-- The same of a section that may be missing: `none` is the receiver `nil`.
unfoldable pub validate_section : (String → DirTest) → Option CorporaConf → Configured CorporaConf
unfolding validate_and_defaults
validate_section is_dir none = invalid missing_section
validate_section is_dir (some c) = validate_and_defaults is_dir c
