-- ===== src/Result/RoundRobin/Filling.antt =====
-- result/rscrr.go: filling a selector that no `Next` has touched with results of resources that it has.
use text.Mathlib.TextPositions.{eq_refl}
use mquery_fcs.Prelude.{
  ℕ, str_eq, String, Bool, true, false, ◌||◌, some, List, [], ◌∷◌, map, ◌≡◌, refl, ap, ◌∙◌, inl,
  inr, Bool-cases, arith,
}
use mquery_fcs.Result.{ConcResult}
use mquery_fcs.Result.RoundRobin.{
  Item, RoundRobinLineSel, new_item, new_sel, any_started, put_lines, set_rsc_lines,
}
use mquery_fcs.Result.RoundRobin.Setup.{none_started}

module _ {L : Type 0} where
  -- An item of the resource is there.
  unfoldable pub named : String → List (Item L) → Bool
  named n [] = false
  named n (it ∷ its) = str_eq it.name n || named n its

  put_lines-named :
      (n : String) (c : ConcResult L) (its : List (Item L))
      → named n its ≡ true
      → (x : List (Item L)) × (put_lines n c its ≡ some x)
        × (any_started x ≡ any_started its)
        × ((k : String) → named k x ≡ named k its)
  unfolding put_lines any_started named
  put_lines-named n c [] h = cc
  put_lines-named n c (it ∷ its) h = elim (Bool-cases (str_eq it.name n)) [
    | inl t ↦ (record it { lines = c } ∷ its, rw t refl, refl, λ k. refl)
    | inr f ↦
        let r = put_lines-named n c its (rw f at h) in
        (
          it ∷ r.0,
          rw (f, r.1) refl,
          ap (λ b. it.started || b) r.2,
          λ k. ap (λ b. str_eq it.name k || b) (r.3 k),
        )
  ]

  abbrev pub AllNamed : List String → List (Item L) → Type 0
  AllNamed [] its = Unit
  AllNamed (n ∷ ns) its = (named n its ≡ true) × AllNamed ns its

  AllNamed-same :
      (ns : List String) (its x : List (Item L))
      → ((k : String) → named k x ≡ named k its)
      → AllNamed ns its
      → AllNamed ns x
  AllNamed-same [] its x e h = tt
  AllNamed-same (n ∷ ns) its x e h = (e n ∙ h.0, AllNamed-same ns its x e h.1)

  -- No `Next` has touched the selector, and it has the resources.
  pub record IsOpen (ns : List String) (r : RoundRobinLineSel L) : Type 0 where
    pub unstarted : any_started r.items ≡ false
    pub all_named : AllNamed ns r.items

  -- The next of the resources can be filled, and the others behind it.
  pub set_rsc_lines-IsOpen :
      (n : String) (ns : List String) (c : ConcResult L) (r : RoundRobinLineSel L)
      → IsOpen (n ∷ ns) r
      → (s : RoundRobinLineSel L) × (set_rsc_lines n c r ≡ some s) × IsOpen ns s
  unfolding set_rsc_lines
  set_rsc_lines-IsOpen n ns c r o =
      let p = put_lines-named n c r.items o.all_named.0 in
      (
        record r { items = p.0 },
        rw (o.unstarted, p.1) refl,
        record {
          unstarted = p.2 ∙ o.unstarted;
          all_named = AllNamed-same ns r.items p.0 p.3 o.all_named.1;
        },
      )

  behind :
      (n : String) (ns : List String) (it : Item L) (its : List (Item L))
      → AllNamed ns its
      → AllNamed ns (it ∷ its)
  unfolding named
  behind n [] it its h = tt
  behind n (k ∷ ns) it its h = (ground (arith, h.0), behind n ns it its h.1)

  all_named-new : (its : List (Item L)) (ns : List String) → its ≡ map new_item ns → AllNamed ns its
  unfolding named
  all_named-new its [] e = tt
  all_named-new its (n ∷ ns) e = rw e (
    rw (eq_refl n) refl,
    behind n ns (new_item n) (map new_item ns) (all_named-new (map new_item ns) ns refl),
  )

  pub new_sel-IsOpen : (m : ℕ) (ns : List String) → IsOpen ns (new_sel {L = L} m ns)
  unfolding new_sel
  new_sel-IsOpen m ns = record {
    unstarted = none_started L ns;
    all_named = all_named-new _ ns refl;
  }
