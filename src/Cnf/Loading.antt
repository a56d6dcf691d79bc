-- ===== src/Cnf/Loading.antt =====
-- cnf/conf.go: reading the configuration, and the files of single corpora that it may name a directory of.
use mquery_fcs.Cnf.{GivenConf}
use mquery_fcs.Corpus.Corpora.{CorporaConf}
use mquery_fcs.Corpus.Setup.{CorpusSetup}
use mquery_fcs.Prelude.Text.{concat}
use mquery_fcs.Prelude.{
  str_eq, eq_iff, if◌then◌else◌, String, true, Option, none, some, List, [], ◌∷◌, ◌++◌, ◌≡◌, ◌≢◌,
  ◌↔◌, false, refl, ap, sym, inl, inr, Bool-cases,
}
use mquery_fcs.Rdb.Conf.{
  Validated, valid, invalid, valid-injective, valid-bind, invalid≢valid, ◌>>=◌,
}

-- What is read or decoded: an error or a value.
pub data Read {ℓ} (A : Type ℓ) : Type ℓ where
  unread : String → Read A
  read : A → Read A

abbrev pub read_or : {A : Type 0} → (String → String) → Read A → Validated A
read_or f (unread e) = invalid (f e)
read_or f (read a) = valid a

-- The file system and the decoders: the names in a directory, a file of a directory, a file, the
-- setup of a corpus, and a configuration with the directory of further files that its section of the
-- corpora names.
pub record Files : Type 0 where
  pub read_dir : String → Read (List String)
  pub read_in : String → String → Read String
  pub read_file : String → Read String
  pub decode_corpus : String → Read CorpusSetup
  pub decode_conf : String → Read (GivenConf × String)

module _ (fs : Files) where
  -- The loop of `loadResources`.
  unfoldable pub load_items : String → List String → Validated (List CorpusSetup)
  load_items path [] = valid []
  load_items path (name ∷ names) = do
    raw ←
        read_or (λ e. concat ("failed to list resource conf file " ∷ name ∷ ": " ∷ e ∷ []))
          (fs.read_in path name)
    c ←
        read_or (λ e. concat ("failed to parse resource conf file " ∷ name ∷ ": " ∷ e ∷ []))
          (fs.decode_corpus raw)
    cs ← load_items path names
    valid (c ∷ cs)

  -- `loadResources`.
  unfoldable pub load_resources : String → Validated (List CorpusSetup)
  unfolding load_items
  load_resources path = do
    names ←
        read_or (λ e. concat ("failed to list resource conf directory: " ∷ e ∷ []))
          (fs.read_dir path)
    load_items path names

  -- The setups of the directory, if the configuration names one.
  abbrev pub further : String → Validated (List CorpusSetup)
  further dir = if str_eq dir "" then valid [] else load_resources dir

  abbrev pub with_further : GivenConf → CorporaConf → List CorpusSetup → GivenConf
  with_further c s cs = record c {
    corpora_setup = some (record s { resources = s.resources ++ cs });
  }

  -- What is done behind the decoding. It reads the directory of the section of the corpora: if this
  -- is missing the program panics, which is `none`.
  abbrev pub complete : GivenConf → String → Option CorporaConf → Validated (Option GivenConf)
  complete c dir none = valid none
  complete c dir (some s) = further dir >>= λ cs. valid (some (with_further c s cs))

  -- `LoadConfig`, without the path that it keeps for logs; an error ends the program, and `none` is its
  -- panic.
  unfoldable pub load_config : String → Validated (Option GivenConf)
  unfolding load_resources
  load_config path =
      if str_eq path "" then invalid "Cannot load config - path not specified" else do
        raw ← read_or (λ e. "Cannot load config") (fs.read_file path)
        c ← read_or (λ e. "Cannot load config") (fs.decode_conf raw)
        complete c.0 c.1 c.0.corpora_setup

  -- The setups are those of the files, one for each in their order.
  abbrev pub Loaded : String → List String → List CorpusSetup → Type 0
  Loaded path [] [] = Unit
  Loaded path [] (c ∷ cs) = ⊥
  Loaded path (n ∷ ns) [] = ⊥
  Loaded path (n ∷ ns) (c ∷ cs) =
      ((raw : String) × (fs.read_in path n ≡ read raw) × (fs.decode_corpus raw ≡ read c))
      × Loaded path ns cs

  read_or-read :
      {A : Type 0} (f : String → String) (m : Read A) (a : A) → read_or f m ≡ valid a → m ≡ read a
  read_or-read f (unread e) a h = cc
  read_or-read f (read b) a h = ap read (sym (valid-injective h))

  load_items-Loaded :
      (path : String) (names : List String) (cs : List CorpusSetup)
      → load_items path names ≡ valid cs
      → Loaded path names cs
  unfolding load_items
  load_items-Loaded path [] cs h = rw (valid-injective h) tt
  load_items-Loaded path (n ∷ ns) cs h =
      let a = valid-bind (read_or _ (fs.read_in path n)) _ cs h in
      let b = valid-bind (read_or _ (fs.decode_corpus a.0)) _ cs a.2 in
      let k = valid-bind (load_items path ns) _ cs b.2 in
      rw (valid-injective k.2) (
        (
          a.0,
          read_or-read _ (fs.read_in path n) a.0 a.1,
          read_or-read _ (fs.decode_corpus a.0) b.0 b.1,
        ),
        load_items-Loaded path ns k.0 k.1,
      )

  -- Where the setups behind those of the configuration come from.
  abbrev pub FromDirectory : String → List CorpusSetup → Type 0
  FromDirectory dir cs =
      (names : List String) × (fs.read_dir dir ≡ read names) × Loaded dir names cs

  load_resources-FromDirectory :
      (dir : String) (cs : List CorpusSetup) → load_resources dir ≡ valid cs → FromDirectory dir cs
  unfolding load_resources
  load_resources-FromDirectory dir cs h =
      let n = valid-bind (read_or _ (fs.read_dir dir)) _ cs h in
      (n.0, read_or-read _ (fs.read_dir dir) n.0 n.1, load_items-Loaded dir n.0 cs n.2)

  -- Where the setups come from that the directory adds.
  abbrev pub Further : String → List CorpusSetup → Type 0
  Further dir cs = (dir ≡ "" → cs ≡ []) × (dir ≢ "" → FromDirectory dir cs)

  further-Further : (dir : String) (cs : List CorpusSetup) → further dir ≡ valid cs → Further dir cs
  further-Further dir cs h = elim (Bool-cases (str_eq dir "")) [
    | inl t ↦ (λ _. valid-injective (rw (t) at h), λ n. absurd (n ((eq_iff dir "").0 t)))
    | inr f ↦ (
      λ e. absurd (let t : str_eq dir "" ≡ true = (eq_iff dir "").1 e in cc),
      λ _. load_resources-FromDirectory dir cs (rw (f) at h),
    )
  ]

  load_items-of :
      (path : String) (names : List String) (cs : List CorpusSetup)
      → Loaded path names cs
      → load_items path names ≡ valid cs
  unfolding load_items
  load_items-of path [] [] l = refl
  load_items-of path [] (c ∷ cs) l = absurd l
  load_items-of path (n ∷ ns) [] l = absurd l
  load_items-of path (n ∷ ns) (c ∷ cs) l = rw (l.0.1, l.0.2, load_items-of path ns cs l.1) refl

  load_resources-of :
      (dir : String) (cs : List CorpusSetup) → FromDirectory dir cs → load_resources dir ≡ valid cs
  unfolding load_resources
  load_resources-of dir cs l = rw (l.1) (load_items-of dir l.0 cs l.2)

  str_eq-false : (s : String) → s ≢ "" → str_eq s "" ≡ false
  str_eq-false s n = elim (Bool-cases (str_eq s "")) [
    | inl t ↦ absurd (n ((eq_iff s "").0 t))
    | inr f ↦ f
  ]

  further-of : (dir : String) (cs : List CorpusSetup) → Further dir cs → further dir ≡ valid cs
  further-of dir cs l = elim (Bool-cases (str_eq dir "")) [
    | inl t ↦ rw (t, l.0 ((eq_iff dir "").0 t)) refl
    | inr f ↦ rw (f) (
        load_resources-of dir cs
          (l.1 (λ e. let t : str_eq dir "" ≡ true = (eq_iff dir "").1 e in cc)))
  ]

  -- `d` is the configuration of the file with the corpora of the directory that it names, if it
  -- names one, behind its own: one of each of the directory's files, in their order.
  abbrev pub Loads : String → GivenConf → Type 0
  Loads path d =
      (path ≢ "")
      × (raw : String) × (c : GivenConf) × (dir : String) × (s : CorporaConf) × (cs : List
          CorpusSetup)
      × (fs.read_file path ≡ read raw)
      × (fs.decode_conf raw ≡ read (c, dir))
      × (c.corpora_setup ≡ some s)
      × (d ≡ with_further c s cs)
      × Further dir cs

  complete-some :
      (c d : GivenConf) (dir : String) (m : Option CorporaConf)
      → complete c dir m ≡ valid (some d)
      → (s : CorporaConf) × (cs : List CorpusSetup) × (m ≡ some s)
        × (d ≡ with_further c s cs)
        × (further dir ≡ valid cs)
  complete-some c d dir none h = cc
  complete-some c d dir (some s) h =
      let k = valid-bind (further dir) _ (some d) h in
      (s, k.0, refl, some-injective (valid-injective k.2), k.1)
    where
      some-injective : {x y : GivenConf} → some x ≡ some y → x ≡ y
      some-injective e = cc

  loads : (path : String) (d : GivenConf) → load_config path ≡ valid (some d) → Loads path d
  unfolding load_config
  loads path d h = elim (Bool-cases (str_eq path "")) [
    | inl t ↦ absurd (invalid≢valid _ (some d) (rw (t) at h))
    | inr f ↦
        let raw = valid-bind (read_or _ (fs.read_file path)) _ (some d) (rw (f) at h) in
        let c = valid-bind (read_or _ (fs.decode_conf raw.0)) _ (some d) raw.2 in
        let k = complete-some c.0.0 d c.0.1 c.0.0.corpora_setup c.2 in
        (
          λ e. absurd (let t : str_eq path "" ≡ true = (eq_iff path "").1 e in cc),
          raw.0,
          c.0.0,
          c.0.1,
          k.0,
          k.1,
          read_or-read _ (fs.read_file path) raw.0 raw.1,
          read_or-read _ (fs.decode_conf raw.0) c.0 c.1,
          k.2,
          k.3,
          further-Further c.0.1 k.1 k.4,
        )
  ]

  load_config-of :
      (path : String) (d : GivenConf) → Loads path d → load_config path ≡ valid (some d)
  unfolding load_config
  load_config-of path d (n, raw, c, dir, s, cs, r, e, k, q, l) =
      rw (str_eq-false path n, r, e, k, further-of dir cs l, q) refl

  -- A configuration is loaded exactly if there is a path to a file, the file can be read and decoded
  -- and has a section of the corpora, and all files of the directory that this names, if it names
  -- one, can be read and decoded. It is that of the file
  -- with the corpora of the directory behind its own, one of each file in their order.
  pub load_config-Loads :
      (path : String) (d : GivenConf) → (load_config path ≡ valid (some d)) ↔ Loads path d
  load_config-Loads path d = (loads path d, load_config-of path d)
