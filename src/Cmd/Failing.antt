-- ===== src/Cmd/Failing.antt =====
-- How the program ends behind the dialogues that translate queries.
use mquery_fcs.Cmd.Starting.{other, same}
use mquery_fcs.Cmd.{
  Outside, VersionInfo, Reason, exited, not_loaded, not_valid, no_redis, unknown_action,
  unknown_query_type, nil_corpora, status, act, validated, loaded, start, translating, main,
}
use mquery_fcs.Cnf.Loading.{load_config}
use mquery_fcs.Cnf.{
  Conf, GivenConf, Started, ready, fatal, bad_server_info, bad_redis, bad_time_zone, bad_corpora,
  nil_redis, validate_and_defaults,
}
use mquery_fcs.Prelude.{
  ◌≤◌, str_eq, eq_iff, Option, none, some, ◌≡◌, ◌⊎◌, refl, inl, inr, Bool-cases, arith,
}
use mquery_fcs.Rdb.Conf.{Validated, valid, invalid}

loaded-exited :
    (o : Outside) (m : Validated (Option GivenConf))
    → o.action ≡ "translate"
    → (r : Reason) × (loaded o m ≡ exited r)
loaded-exited o (invalid e) h = (not_loaded e, refl)
loaded-exited o (valid none) h = (nil_corpora, refl)
loaded-exited o (valid (some c)) h =
    validated-exited (validate_and_defaults o.is_dir o.load_location c)
  where
    act-exited : (d : Conf) → act o d ≡ exited (unknown_action o.action)
    act-exited d = rw (act, other _ _ "server" h refl, other _ _ "worker" h refl) refl

    validated-exited : (m : Started Conf) → (r : Reason) × (validated o m ≡ exited r)
    validated-exited (fatal e) = (not_valid e, refl)
    validated-exited (ready d) =
        (unknown_action o.action, rw (validated, other _ _ "test" h refl) (act-exited d))

status-failure : (r : Reason) → 1 ≤ status r
unfolding status
status-failure unknown_query_type = omega arith
status-failure nil_corpora = omega arith
status-failure (not_loaded e) = omega arith
status-failure (no_redis e) = omega arith
status-failure (unknown_action e) = omega arith
status-failure (not_valid (bad_server_info e)) = omega arith
status-failure (not_valid (bad_redis e)) = omega arith
status-failure (not_valid (bad_time_zone e)) = omega arith
status-failure (not_valid (bad_corpora e)) = omega arith
status-failure (not_valid nil_redis) = omega arith

-- The action that translates queries ends the program with a status that is not 0, whatever the
-- type of queries and the input, also when it knows the type; for a type that is neither basic nor
-- advanced the status is 2.
pub main-translate :
    (v : VersionInfo) (o : Outside)
    → o.action ≡ "translate"
    → (r : Reason) × ((main v o).1 ≡ exited r)
      × (1 ≤ status r)
      × ((o.second ≡ "basic") ⊎ ((o.second ≡ "advanced") ⊎ (status r ≡ 2)))
unfolding main start status
main-translate v o h =
    let n = other _ _ "version" h refl in
    let t = same _ _ h in
    let l = loaded-exited o (load_config o.files o.second) h in
    elim (Bool-cases (str_eq o.second "basic")) [
      | inl b ↦
          (l.0, rw (main, n, t, translating, b) l.1, status-failure l.0, inl ((eq_iff _ _).0 b))
      | inr b ↦ elim (Bool-cases (str_eq o.second "advanced")) [
        | inl a ↦ (
          l.0,
          rw (main, n, t, translating, b, a) l.1,
          status-failure l.0,
          inr (inl ((eq_iff _ _).0 a)),
        )
        | inr a ↦ (
          unknown_query_type,
          rw (main, n, t, translating, b, a) refl,
          status-failure unknown_query_type,
          inr (inr refl),
        )
      ]
    ]
