-- ===== src/Cnf/Starting.antt =====
-- What the configuration of a server that starts is like.
use mquery_fcs.Cnf.{
  ServerInfo, check_title, check_optional, validate_server_info, Conf, GivenConf, check_redis,
  Fatal, Started, ready, fatal, then_start, of_validated, of_configured, check_time_zone,
  bad_server_info, validate_and_defaults,
}
use mquery_fcs.Corpus
use mquery_fcs.Corpus.Corpora.Defaults.{valid-injective, IsReady, validate_and_defaults-IsReady}
use mquery_fcs.Corpus.Corpora.Twice.{validate_and_defaults-twice}
use mquery_fcs.Corpus.Corpora.{CorporaConf, DirTest, Configured, validate_section}
use mquery_fcs.Corpus.Setup.{TextMap, has_key}
use mquery_fcs.Prelude.{
  String, true, Option, none, some, ◌≡◌, ◌≢◌, refl, ap, sym, ◌∙◌, Option-cases, inl, inr, arith,
}
use mquery_fcs.Rdb
use mquery_fcs.Rdb.Conf.{
  Validated, valid, invalid, given, given-some, integer_or, integer_or-some, text_or-some,
  valid-bind, IsUsable, validate-IsUsable,
}

ready-injective {ℓ} : {A : Type ℓ} {a b : A} → ready a ≡ ready b → b ≡ a
ready-injective h = cc

fatal≢ready {ℓ} : {A : Type ℓ} (e : Fatal) (a : A) → ◌≢◌ {A = Started A} (fatal e) (ready a)
fatal≢ready e a h = cc

start-bind {ℓ κ} :
    {A : Type ℓ} {B : Type κ} (m : Started A) (f : A → Started B) (b : B)
    → then_start m f ≡ ready b
    → (a : A) × (m ≡ ready a) × (f a ≡ ready b)
start-bind (ready a) f b h = (a, refl, h)
start-bind (fatal e) f b h = absurd (fatal≢ready e b h)

of_validated-valid {ℓ} :
    {A : Type ℓ} (f : String → Fatal) (m : Validated A) (a : A)
    → of_validated f m ≡ ready a
    → m ≡ valid a
of_validated-valid f (valid b) a h = ap valid (sym (ready-injective h))
of_validated-valid f (invalid e) a h = absurd (fatal≢ready _ a h)

of_configured-valid {ℓ} :
    {A : Type ℓ} (m : Configured A) (a : A) → of_configured m ≡ ready a → m ≡ Corpus.Corpora.valid a
of_configured-valid (Corpus.Corpora.valid b) a h = ap Corpus.Corpora.valid (sym (ready-injective h))
of_configured-valid (Corpus.Corpora.invalid e) a h = absurd (fatal≢ready _ a h)

-- The section has an English text.
abbrev pub HasEn : TextMap → Type 0
HasEn none = ⊥
HasEn (some m) = has_key "en" m ≡ true

-- So has the section if there is one.
abbrev pub HasEnIfGiven : TextMap → Type 0
HasEnIfGiven none = Unit
HasEnIfGiven (some m) = has_key "en" m ≡ true

check_title-HasEn : (m : TextMap) (u : Unit {0}) → check_title m ≡ valid u → HasEn m
check_title-HasEn none u h = cc
check_title-HasEn (some m) u h = ground (arith, h)

check_optional-HasEnIfGiven :
    (e : String) (m : TextMap) (u : Unit {0}) → check_optional e m ≡ valid u → HasEnIfGiven m
check_optional-HasEnIfGiven e none u h = tt
check_optional-HasEnIfGiven e (some m) u h = ground (arith, h)

pub record IsComplete (s : ServerInfo) : Type 0 where
  pub server_host : s.server_host ≢ ""
  pub server_port : s.server_port ≢ ""
  pub database : s.database ≢ ""
  pub title : HasEn s.database_title
  pub description : HasEnIfGiven s.database_description
  pub author : HasEnIfGiven s.database_author

abbrev pub InfoComplete : Option ServerInfo → Type 0
InfoComplete none = ⊥
InfoComplete (some s) = IsComplete s

validate_server_info-InfoComplete :
    (i : Option ServerInfo) (u : Unit {0}) → validate_server_info i ≡ valid u → InfoComplete i
unfolding validate_server_info
validate_server_info-InfoComplete none u h = cc
validate_server_info-InfoComplete (some s) u h =
    let a = valid-bind (given _ s.server_host) _ u h in
    let b = valid-bind (given _ s.server_port) _ u a.2 in
    let c = valid-bind (given _ s.database) _ u b.2 in
    let t = valid-bind (check_title s.database_title) _ u c.2 in
    let d = valid-bind (check_optional _ s.database_description) _ u t.2 in
    record {
      server_host = given-some _ s.server_host a.0 a.1;
      server_port = given-some _ s.server_port b.0 b.1;
      database = given-some _ s.database c.0 c.1;
      title = check_title-HasEn s.database_title t.0 t.1;
      description = check_optional-HasEnIfGiven _ s.database_description d.0 d.1;
      author = check_optional-HasEnIfGiven _ s.database_author u d.2;
    }

-- What the server starts with, from the configuration that it is given.
pub record Starts (is_dir : String → DirTest) (load_location : String → Option String)
    (c : GivenConf) (d : Conf) : Type 0 where
  pub write_timeout : d.server_write_timeout_secs.magnitude ≢ 0
  pub sources_root_dir : d.sources_root_dir ≢ ""
  pub assets_url_path : d.assets_url_path ≢ ""
  pub server_info : (d.server_info ≡ c.server_info) × InfoComplete d.server_info
  pub corpora :
      (s : CorporaConf) × (c.corpora_setup ≡ some s)
      × IsReady s d.corpora_setup
      × (Corpus.Corpora.validate_and_defaults is_dir s ≡ Corpus.Corpora.valid d.corpora_setup)
  pub redis :
      IsUsable d.redis
      × (r : Rdb.Conf.Conf) × (c.redis ≡ some r)
      × (Rdb.Conf.validate r ≡ valid d.redis)
  pub time_zone : (d.time_zone ≡ c.time_zone) × (load_location c.time_zone ≡ none)

check_time_zone-none :
    (load_location : String → Option String) (z : String) (u : Unit {0})
    → check_time_zone load_location z ≡ ready u
    → load_location z ≡ none
check_time_zone-none load_location z u h = elim (Option-cases (load_location z)) [
  | inl e ↦ e
  | inr (e, q) ↦ absurd (fatal≢ready _ u (rw (check_time_zone, q) at h))
]

-- The section is there if its check succeeds.
validate_section-some :
    (is_dir : String → DirTest) (m : Option CorporaConf) (d : CorporaConf)
    → validate_section is_dir m ≡ Corpus.Corpora.valid d
    → (s : CorporaConf) × (m ≡ some s)
      × (Corpus.Corpora.validate_and_defaults is_dir s ≡ Corpus.Corpora.valid d)
unfolding validate_section
validate_section-some is_dir none d h = cc
validate_section-some is_dir (some s) d h = (s, refl, h)

check_redis-some :
    (m : Option Rdb.Conf.Conf) (d : Rdb.Conf.Conf)
    → check_redis m ≡ ready d
    → (r : Rdb.Conf.Conf) × (m ≡ some r) × (Rdb.Conf.validate r ≡ valid d)
check_redis-some none d h = cc
check_redis-some (some r) d h = (r, refl, of_validated-valid _ _ d h)

-- A server that starts has a complete description of itself, the configuration of its corpora as one
-- check of it leaves it (a second one changes nothing), a usable configuration of Redis, both from
-- sections that are there, a
-- time for writing that is not 0, and directories that are not empty. Its time zone is the one that
-- it is given, without a default, and is known.
pub validate_and_defaults-Starts :
    (is_dir : String → DirTest) (load_location : String → Option String) (c : GivenConf) (d : Conf)
    → validate_and_defaults is_dir load_location c ≡ ready d
    → Starts is_dir load_location c d
unfolding validate_and_defaults validate_section
validate_and_defaults-Starts is_dir load_location c d h =
    let i = start-bind (of_validated bad_server_info (validate_server_info c.server_info)) _ d h in
    let a = start-bind (of_configured (validate_section is_dir c.corpora_setup)) _ d i.2 in
    let b = start-bind (of_configured (validate_section is_dir (some a.0))) _ d a.2 in
    let r = start-bind (check_redis c.redis) _ d b.2 in
    let g = validate_section-some is_dir c.corpora_setup a.0 (of_configured-valid _ a.0 a.1) in
    let f = check_redis-some c.redis r.0 r.1 in
    let z = start-bind (check_time_zone load_location c.time_zone) _ d r.2 in
    let once = g.2 in
    let again = validate_and_defaults-twice is_dir g.0 a.0 once in
    let same : b.0 ≡ a.0 = valid-injective (sym again ∙ of_configured-valid _ b.0 b.1) in
    let corpora : Corpus.Corpora.validate_and_defaults is_dir g.0 ≡ Corpus.Corpora.valid b.0 =
      once ∙ ap Corpus.Corpora.valid (sym same) in
    rw (ready-injective z.2) (record {
      write_timeout = integer_or-some 30 c.server_write_timeout_secs (λ e. omega (arith, e));
      sources_root_dir = text_or-some "." c.sources_root_dir (λ e. cc);
      assets_url_path = text_or-some "/" c.assets_url_path (λ e. cc);
      server_info = (
        refl,
        validate_server_info-InfoComplete c.server_info i.0 (of_validated-valid _ _ i.0 i.1),
      );
      corpora = (g.0, g.1, validate_and_defaults-IsReady is_dir g.0 b.0 corpora, corpora);
      redis = (validate-IsUsable f.0 r.0 f.2, f.0, f.1, f.2);
      time_zone = (refl, check_time_zone-none load_location c.time_zone z.0 z.1);
    })
