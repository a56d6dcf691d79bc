-- ===== src/Rdb/Conf.antt =====
-- rdb/conf.go, and the part of rdb/client.go that makes the adapter of a configuration.
use mquery_fcs.Prelude.Integers.{Integer}
use mquery_fcs.Prelude.{
  ℕ, ◌*◌, ◌-◌, ◌%◌, ◌≤◌, ◌==◌, ltb, str_eq, eq_iff, if◌then◌else◌, String, Bool, true, false, ◌||◌,
  ◌&&◌, ◌≡◌, ◌≢◌, refl, inl, inr, Bool-cases, arith,
}
use mquery_fcs.Rdb.{Redis, Adapter}

-- `Conf`, without the password.
pub record Conf : Type 0 where
  pub host : String
  pub port : Integer
  pub db : Integer
  pub channel_query : String
  pub channel_result_prefix : String
  pub query_answer_timeout_secs : Integer

-- What a check of a configuration comes to.
pub data Validated {ℓ} (A : Type ℓ) : Type ℓ where
  valid : A → Validated A
  invalid : String → Validated A

infixl 5 ◌>>=◌ ◌>>◌
abbrev pub ◌>>=◌ {ℓ κ} : {A : Type ℓ} {B : Type κ} → Validated A → (A → Validated B) → Validated B
valid a >>= f = f a
invalid e >>= f = invalid e

abbrev pub ◌>>◌ {ℓ} : {B : Type ℓ} → Validated (Unit {0}) → Validated B → Validated B
m >> k = m >>= λ _. k

abbrev pub within : ℕ → ℕ → Integer → Bool
within least most n =
    if n.negative || ltb n.magnitude least || ltb most n.magnitude then false else true

abbrev pub integer_or : ℕ → Integer → Integer
integer_or dflt n = if n.magnitude == 0 then record { negative = false; magnitude = dflt } else n

abbrev pub text_or : String → String → String
text_or dflt s = if str_eq s "" then dflt else s

abbrev pub given : String → String → Validated (Unit {0})
given e s = if str_eq s "" then invalid e else valid tt

abbrev pub check_port : Integer → Validated Integer
check_port n =
    if n.magnitude == 0
    then valid (record { negative = false; magnitude = 6379 })
    else if within 1 65535 n
    then valid n
    else invalid "redis.port is invalid (use 1-65535)"

abbrev pub check_db : Integer → Validated (Unit {0})
check_db n = if within 1 16 n then valid tt else invalid "redis.db is invalid (use 1-16)"

-- `Validate`, with the configuration as it leaves it.
unfoldable pub validate : Conf → Validated Conf
validate c = do
  given "redis.host is missing" c.host
  port ← check_port c.port
  check_db c.db
  valid (record c {
    port = port;
    channel_query = text_or "mquerysru" c.channel_query;
    channel_result_prefix = text_or "res" c.channel_result_prefix;
    query_answer_timeout_secs = integer_or 30 c.query_answer_timeout_secs;
  })

-- `NewAdapter`, on the client of Redis that it makes. The default of the channel for queries is
-- assigned to a variable of its own, which nothing reads.
unfoldable pub new_adapter : {R L : Type 0} → Redis R L → Conf → Adapter R L
new_adapter redis c = record {
  redis = redis;
  channel_query = c.channel_query;
  channel_result_prefix = text_or "mqueryResults" c.channel_result_prefix;
}

-- A number in 64 bits, as two's complement.
unfoldable pub int64 : Integer → Integer
int64 n =
    let m = n.magnitude % 18446744073709551616 in
    let bits = if n.negative && ltb 0 m then 18446744073709551616 - m else m in
    if ltb bits 9223372036854775808
    then record { negative = false; magnitude = bits }
    else record { negative = true; magnitude = 18446744073709551616 - bits }

abbrev pub nanoseconds : Integer → Integer
nanoseconds secs = record secs { magnitude = secs.magnitude * 1000000000 }

-- The time that an adapter waits for an answer, in nanoseconds: a `time.Duration` has 64 bits.
unfoldable pub query_answer_timeout : Conf → Integer
unfolding int64
query_answer_timeout c = integer_or 60000000000 (int64 (nanoseconds c.query_answer_timeout_secs))

pub valid-injective {ℓ} : {A : Type ℓ} {a b : A} → valid a ≡ valid b → b ≡ a
valid-injective h = cc

pub invalid≢valid {ℓ} :
    {A : Type ℓ} (e : String) (a : A) → ◌≢◌ {A = Validated A} (invalid e) (valid a)
invalid≢valid e a h = cc

pub valid-bind {ℓ κ} :
    {A : Type ℓ} {B : Type κ} (m : Validated A) (f : A → Validated B) (b : B)
    → (m >>= f) ≡ valid b
    → (a : A) × (m ≡ valid a) × (f a ≡ valid b)
valid-bind (valid a) f b h = (a, refl, h)
valid-bind (invalid e) f b h = absurd (invalid≢valid e b h)

pub given-some : (e s : String) (u : Unit {0}) → given e s ≡ valid u → s ≢ ""
given-some e s u h = λ q. ground (arith, eq_iff s "", h, q)

abbrev pub From : ℕ → ℕ → Integer → Type 0
From least most n = (n.negative ≡ false) × (least ≤ n.magnitude) × (n.magnitude ≤ most)

within-From : (least most : ℕ) (n : Integer) → within least most n ≡ true → From least most n
within-From least most n h = (ground (arith, h), ground (arith, h), ground (arith, h))

check_port-From : (n m : Integer) → check_port n ≡ valid m → From 1 65535 m
check_port-From n m h = elim (Bool-cases (n.magnitude == 0)) [
  | inl z ↦ rw (valid-injective (rw (check_port, z) at h)) (refl, omega arith, omega arith)
  | inr p ↦ elim (Bool-cases (within 1 65535 n)) [
    | inl t ↦ rw (valid-injective (rw (check_port, p, t) at h)) (within-From 1 65535 n t)
    | inr f ↦ absurd (invalid≢valid _ m (rw (check_port, p, f) at h))
  ]
]

check_db-From : (n : Integer) (u : Unit {0}) → check_db n ≡ valid u → From 1 16 n
check_db-From n u h = elim (Bool-cases (within 1 16 n)) [
  | inl t ↦ within-From 1 16 n t
  | inr f ↦ absurd (invalid≢valid _ u (rw (check_db, f) at h))
]

pub text_or-some : (d s : String) → d ≢ "" → text_or d s ≢ ""
text_or-some d s h = elim (Bool-cases (str_eq s "")) [
  | inl t ↦ λ e. h (rw (text_or, t) at e)
  | inr f ↦ λ e. ground (arith, eq_iff s "", f, rw (text_or, f) at e)
]

text_or-kept : (d s : String) → s ≢ "" → text_or d s ≡ s
text_or-kept d s h = elim (Bool-cases (str_eq s "")) [
  | inl t ↦ absurd (h ((eq_iff s "").0 t))
  | inr f ↦ rw (text_or, f) refl
]

pub integer_or-some : (d : ℕ) (n : Integer) → d ≢ 0 → (integer_or d n).magnitude ≢ 0
integer_or-some d n h = elim (Bool-cases (n.magnitude == 0)) [
  | inl t ↦ rw (integer_or, t) h
  | inr f ↦ rw (integer_or, f) (λ e. ground (arith, f, e))
]

integer_or-kept : (d : ℕ) (n : Integer) → n.magnitude ≢ 0 → integer_or d n ≡ n
integer_or-kept d n h = elim (Bool-cases (n.magnitude == 0)) [
  | inl t ↦ absurd (h (ground (arith, t)))
  | inr f ↦ rw (integer_or, f) refl
]

-- A configuration that can be used.
pub record IsUsable (c : Conf) : Type 0 where
  pub host : c.host ≢ ""
  pub port : From 1 65535 c.port
  pub db : From 1 16 c.db
  pub channel_query : c.channel_query ≢ ""
  pub channel_result_prefix : c.channel_result_prefix ≢ ""
  pub timeout : c.query_answer_timeout_secs.magnitude ≢ 0

-- A configuration of Redis that the check has accepted and filled in has a host, a port from 1 to
-- 65535, a database from 1 to 16, both channels, and a time for answers that is not 0.
pub validate-IsUsable : (c d : Conf) → validate c ≡ valid d → IsUsable d
unfolding validate
validate-IsUsable c d h =
    let g = valid-bind (given "redis.host is missing" c.host) _ d h in
    let p = valid-bind (check_port c.port) _ d g.2 in
    let b = valid-bind (check_db c.db) _ d p.2 in
    rw (valid-injective b.2) (record {
      host = given-some _ c.host g.0 g.1;
      port = check_port-From c.port p.0 p.1;
      db = check_db-From c.db b.0 b.1;
      channel_query = text_or-some "mquerysru" c.channel_query (λ e. cc);
      channel_result_prefix = text_or-some "res" c.channel_result_prefix (λ e. cc);
      timeout = integer_or-some 30 c.query_answer_timeout_secs (λ e. omega (arith, e));
    })

-- Seconds whose nanoseconds fit into 64 bits are kept.
int64-kept :
    (n : Integer)
    → n.magnitude ≢ 0
    → n.magnitude ≤ 9223372036
    → int64 (nanoseconds n) ≡ nanoseconds n
unfolding int64
int64-kept n z h =
    let e : (n.magnitude * 1000000000) % 18446744073709551616 ≡ n.magnitude * 1000000000 =
      omega arith in
    elim (Bool-cases n.negative) [
      | inl t ↦
          let p : ltb 0 (n.magnitude * 1000000000) ≡ true = ground arith in
          let q : ltb (18446744073709551616 - n.magnitude * 1000000000) 9223372036854775808
              ≡ false =
            ground arith in
          let r : 18446744073709551616 - (18446744073709551616 - n.magnitude * 1000000000)
              ≡ n.magnitude * 1000000000 =
            omega arith in
          rw (int64, t, e, p, q, r) refl
      | inr f ↦
          let q : ltb (n.magnitude * 1000000000) 9223372036854775808 ≡ true = ground arith in
          rw (int64, f, e, q) refl
    ]

-- An adapter of a configuration that the check has accepted uses its channels and, if its time for
-- answers is at most 9223372036 seconds, this time as they are: none is empty or 0, and no default
-- of the adapter replaces them.
pub new_adapter-kept :
    {R L : Type 0} (redis : Redis R L) (c d : Conf)
    → validate c ≡ valid d
    → d.query_answer_timeout_secs.magnitude ≤ 9223372036
    → ((new_adapter redis d).channel_query ≡ d.channel_query)
      × (d.channel_query ≢ "")
      × ((new_adapter redis d).channel_result_prefix ≡ d.channel_result_prefix)
      × (d.channel_result_prefix ≢ "")
      × (query_answer_timeout d ≡ nanoseconds d.query_answer_timeout_secs)
      × ((query_answer_timeout d).magnitude ≢ 0)
unfolding new_adapter query_answer_timeout
new_adapter-kept redis c d h small =
    let u = validate-IsUsable c d h in
    let kept = int64-kept d.query_answer_timeout_secs u.timeout small in
    let some_time : d.query_answer_timeout_secs.magnitude * 1000000000 ≢ 0 =
      λ e. u.timeout (omega (arith, e)) in
    (
      refl,
      u.channel_query,
      text_or-kept "mqueryResults" d.channel_result_prefix u.channel_result_prefix,
      u.channel_result_prefix,
      rw (kept, integer_or-kept 60000000000 (nanoseconds d.query_answer_timeout_secs) some_time)
          refl,
      rw (kept, integer_or-kept 60000000000 (nanoseconds d.query_answer_timeout_secs) some_time)
          some_time,
    )
