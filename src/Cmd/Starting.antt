-- ===== src/Cmd/Starting.antt =====
-- When the program becomes a server or a worker, with which configuration, and how it ends else.
use mquery_fcs.Cmd.{
  Outside, VersionInfo, Reason, Run, returned, connecting, exited, serving, working, not_loaded,
  not_valid, no_redis, unknown_action, unknown_query_type, nil_corpora, get_worker_id,
  once_connected, act, validated, loaded, start, translating, main,
}
use mquery_fcs.Cnf.Loading.{load_config}
use mquery_fcs.Cnf.{Conf, GivenConf, Started, ready, fatal, validate_and_defaults}
use mquery_fcs.Prelude.{
  str_eq, eq_iff, String, true, false, Option, none, some, ◌≡◌, ◌≢◌, ◌↔◌, ◌⊎◌, refl, ap, sym, ◌∙◌,
  inl, inr, Bool-cases,
}
use mquery_fcs.Rdb.Conf.{Validated, valid, invalid}
use mquery_fcs.Rdb.Connecting.{
  Connection, trying, connected, failed, test_connection, Answered, test_connection-Answered,
}

-- The program is a server or a worker.
abbrev pub IsUp : Run → Type 0
IsUp returned = ⊥
IsUp connecting = ⊥
IsUp (exited r) = ⊥
IsUp (serving d) = Unit
IsUp (working d w) = Unit

down : (r s : Run) → s ≡ r → IsUp r → IsUp s
down r s e u = rw e u

not_up : (r : Run) (x : Reason) → IsUp r → exited x ≢ r
not_up r x u e = down r (exited x) e u

-- A text is not another one if it is a third one.
pub other : (s t u : String) → s ≡ t → str_eq t u ≡ false → str_eq s u ≡ false
other s t u e h = rw e h

pub same : (s t : String) → s ≡ t → str_eq s t ≡ true
same s t e = (eq_iff s t).1 e

once-connected :
    (k : Connection) (r s : Run) → once_connected k r ≡ s → IsUp s → (k ≡ connected) × (r ≡ s)
once-connected trying r s h u = absurd (down s connecting h u)
once-connected connected r s h u = (refl, h)
once-connected (failed e) r s h u = absurd (not_up s (no_redis e) u h)

loaded-up :
    (o : Outside) (m : Validated (Option GivenConf)) (s : Run)
    → loaded o m ≡ s
    → IsUp s
    → (c : GivenConf) × (m ≡ valid (some c))
      × (validated o (validate_and_defaults o.is_dir o.load_location c) ≡ s)
loaded-up o (invalid e) s h u = absurd (not_up s (not_loaded e) u h)
loaded-up o (valid none) s h u = absurd (not_up s nil_corpora u h)
loaded-up o (valid (some c)) s h u = (c, refl, h)

validated-up :
    (o : Outside) (m : Started Conf) (s : Run)
    → validated o m ≡ s
    → IsUp s
    → (d : Conf) × (m ≡ ready d) × (act o d ≡ s)
validated-up o (fatal e) s h u = absurd (not_up s (not_valid e) u h)
validated-up o (ready d) s h u = elim (Bool-cases (str_eq o.action "test")) [
  | inl t ↦ absurd (down s returned (rw (validated, t) at h) u)
  | inr f ↦ (d, refl, rw (validated, f) at h)
]

-- The configuration is loaded from the file that the second argument names and is valid with its
-- defaults, and Redis answers a ping in time.
abbrev pub Prepared : Outside → Conf → Type 0
Prepared o d =
    (c : GivenConf) × (load_config o.files o.second ≡ valid (some c))
    × (validate_and_defaults o.is_dir o.load_location c ≡ ready d)
    × Answered o.attempts

-- What the program becomes by its action.
abbrev pub As : Outside → Run → Conf → Type 0
As o s d =
    ((o.action ≡ "server") × (s ≡ serving d))
    ⊎ ((o.action ≡ "worker") × (s ≡ working d (get_worker_id o.environ)))

act-As : (o : Outside) (d : Conf) (s : Run) → act o d ≡ s → IsUp s → As o s d × Answered o.attempts
act-As o d s h u = elim (Bool-cases (str_eq o.action "server")) [
  | inl t ↦
      let k = once-connected (test_connection d.redis o.attempts) _ s (rw (act, t) at h) u in
      (inl ((eq_iff _ _).0 t, sym k.1), (test_connection-Answered d.redis o.attempts).0.0 k.0)
  | inr f ↦ elim (Bool-cases (str_eq o.action "worker")) [
    | inl t ↦
        let k = once-connected (test_connection d.redis o.attempts) _ s (rw (act, f, t) at h) u in
        (inr ((eq_iff _ _).0 t, sym k.1), (test_connection-Answered d.redis o.attempts).0.0 k.0)
    | inr g ↦ absurd (not_up s (unknown_action o.action) u (rw (act, f, g) at h))
  ]
]

start-As : (o : Outside) (s : Run) → start o ≡ s → IsUp s → (d : Conf) × Prepared o d × As o s d
unfolding start
start-As o s h u =
    let l = loaded-up o (load_config o.files o.second) s h u in
    let v = validated-up o (validate_and_defaults o.is_dir o.load_location l.0) s l.2 u in
    let a = act-As o v.0 s v.2 u in (v.0, (l.0, l.1, v.1, a.1), a.0)

main-up : (v : VersionInfo) (o : Outside) (s : Run) → (main v o).1 ≡ s → IsUp s → start o ≡ s
unfolding main
main-up v o s h u = elim (Bool-cases (str_eq o.action "version")) [
  | inl t ↦ absurd (down s returned (rw (main, t) at h) u)
  | inr f ↦ elim (Bool-cases (str_eq o.action "translate")) [
    | inr g ↦ rw (main, f, g) at h
    | inl t ↦ elim (Bool-cases (str_eq o.second "basic")) [
      | inl b ↦ rw (main, f, t, translating, b) at h
      | inr b ↦ elim (Bool-cases (str_eq o.second "advanced")) [
        | inl a ↦ rw (main, f, t, translating, b, a) at h
        | inr a ↦ absurd (not_up s unknown_query_type u (rw (main, f, t, translating, b, a) at h))
      ]
    ]
  ]
]

connected-act :
    (o : Outside) (d : Conf) (r : Run)
    → Answered o.attempts
    → once_connected (test_connection d.redis o.attempts) r ≡ r
connected-act o d r a =
    ap (λ k. once_connected k r) ((test_connection-Answered d.redis o.attempts).0.1 a)

act-of : (o : Outside) (s : Run) (d : Conf) → As o s d → Answered o.attempts → act o d ≡ s
act-of o s d (inl (e, q)) a = rw (act, same _ _ e) (connected-act o d _ a ∙ sym q)
act-of o s d (inr (e, q)) a =
    rw (act, other _ _ "server" e refl, same _ _ e) (connected-act o d _ a ∙ sym q)

-- An action of the two is no other one.
apart :
    (o : Outside) (s : Run) (d : Conf) (t : String)
    → As o s d
    → str_eq "server" t ≡ false
    → str_eq "worker" t ≡ false
    → str_eq o.action t ≡ false
apart o s d t (inl (e, q)) f g = other _ _ t e f
apart o s d t (inr (e, q)) f g = other _ _ t e g

start-of : (o : Outside) (s : Run) (d : Conf) → Prepared o d → As o s d → start o ≡ s
unfolding start
start-of o s d (c, l, v, a) i =
    rw (start, l, v) (rw (apart o s d "test" i refl refl) (act-of o s d i a))

main-of : (v : VersionInfo) (o : Outside) (s : Run) (d : Conf) → As o s d → (main v o).1 ≡ start o
unfolding main
main-of v o s d i =
    rw (main, apart o s d "version" i refl refl, apart o s d "translate" i refl refl) refl

pub main-As :
    (v : VersionInfo) (o : Outside) (s : Run)
    → ((main v o).1 ≡ s) × IsUp s ↔ ((d : Conf) × Prepared o d × As o s d)
main-As v o s = (
  λ h. start-As o s (main-up v o s h.0 h.1) h.1,
  λ p. (main-of v o s p.0 p.2 ∙ start-of o s p.0 p.1 p.2, up p.2),
)
  where
    up : {d : Conf} → As o s d → IsUp s
    up (inl (e, q)) = rw q tt
    up (inr (e, q)) = rw q tt
