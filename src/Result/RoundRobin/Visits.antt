-- ===== src/Result/RoundRobin/Visits.antt =====
-- The states that the selector runs through: before visit number `k` each resource has been visited
-- as often as it comes up in 0, 1, …, k - 1 taken modulo the number of resources.
use mquery_fcs.Prelude.{
  ℕ, zero, suc, ◌+◌, ◌-◌, ◌*◌, ◌/◌, ◌%◌, ◌≤◌, ◌<◌, ◌==◌, ◌≡◌, ◌≢◌, refl, ap, ◌∙◌, sym, ltb,
  le→not-ltb, if◌then◌else◌, true, false, some, List, [], ◌∷◌, length, get_elem?, set, arith,
}
use mathlib.Core.Path.{ap₂}
use native.Mathlib.Nat.{add-zero, zero-add, mod-lt, div-add-mod', mod-add-mod}
use native.Mathlib.Numerals.{add-one}
use mquery_fcs.Prelude.Division.{div-mod_unique}
use mquery_fcs.Result.RoundRobin.{Item, RoundRobinLineSel, visit_item, arrive, advance}

-- How many of the visits 0, …, k - 1 go to resource `i` of `n`.
unfoldable pub visits_to : ℕ → ℕ → ℕ → ℕ
visits_to n i zero = 0
visits_to n i (suc k) = visits_to n i k + (if k % n == i then 1 else 0)

next_round : (q n : ℕ) → suc q * n + 0 ≡ q * n + n
next_round q n = omega arith

next_visit : (q n m : ℕ) → q * n + suc m ≡ suc (q * n + m)
next_visit q n m = omega arith

shift : (i j : ℕ) → i + suc j ≡ suc i + j
shift i j = omega arith

visits_to-rounds :
    (n i q m : ℕ) → i < n → m ≤ n → visits_to n i (q * n + m) ≡ q + (if ltb i m then 1 else 0)
unfolding visits_to
visits_to-rounds n i zero zero h k = ground arith
visits_to-rounds n i (suc q) zero h k =
    rw (next_round q n) (ground (arith, visits_to-rounds n i q n h))
visits_to-rounds n i q (suc m) h k =
    rw (next_visit q n m) (ground (arith, visits_to-rounds n i q m h, (div-mod_unique q n m k).1))

module _ {L : Type 0} where
  -- The first visit starts a resource, each later one moves it by a line.
  abbrev pub visited : ℕ → Item L → Item L
  visited zero it = record it { started = false; curr_line = 0 }
  visited (suc c) it = record it { started = true; curr_line = c }

  unfoldable pub marked : (ℕ → ℕ) → ℕ → List (Item L) → List (Item L)
  marked c i [] = []
  marked c i (it ∷ its) = visited (c i) it ∷ marked c (suc i) its

  pub length-marked :
      (c : ℕ → ℕ) (i : ℕ) (its : List (Item L)) → length (marked c i its) ≡ length its
  unfolding marked
  length-marked c i [] = refl
  length-marked c i (it ∷ its) = ap suc (length-marked c (suc i) its)

  pub get_elem?-marked :
      (c : ℕ → ℕ) (i j : ℕ) (its : List (Item L)) (it : Item L)
      → get_elem? its j ≡ some it
      → get_elem? (marked c i its) j ≡ some (visited (c (i + j)) it)
  unfolding marked
  get_elem?-marked c i j [] it h = cc
  get_elem?-marked c i zero (x ∷ its) it h = rw add-zero cc
  get_elem?-marked c i (suc j) (x ∷ its) it h =
      rw (shift i j) (get_elem?-marked c (suc i) j its it h)

  marked-cong :
      (c d : ℕ → ℕ) (i : ℕ) (its : List (Item L))
      → ((x : ℕ) → i ≤ x → c x ≡ d x)
      → marked c i its ≡ marked d i its
  unfolding marked
  marked-cong c d i [] e = refl
  marked-cong c d i (it ∷ its) e =
      ap₂ ◌∷◌ (ap (λ k. visited k it) (e i (omega arith)))
        (marked-cong c d (suc i) its (λ x l. e x (omega arith)))

  set-marked :
      (c d : ℕ → ℕ) (i j : ℕ) (its : List (Item L)) (it : Item L)
      → get_elem? its j ≡ some it
      → ((x : ℕ) → x ≢ i + j → d x ≡ c x)
      → set (marked c i its) j (visited (d (i + j)) it) ≡ marked d i its
  unfolding marked
  set-marked c d i j [] it h e = refl
  set-marked c d i zero (x ∷ its) it h e =
      rw add-zero (ap₂ ◌∷◌ (cc) (marked-cong c d (suc i) its (λ y l. sym (e y (omega arith)))))
  set-marked c d i (suc j) (x ∷ its) it h e =
      ap₂ ◌∷◌ (ap (λ k. visited k x) (sym (e i (omega arith))))
        (rw (shift i j) (set-marked c d (suc i) j its it h (λ y ne. e y (λ q. ne (q ∙ shift i j)))))

  -- The selector over `base` before visit number `k`.
  unfoldable pub state_at : List (Item L) → ℕ → ℕ → RoundRobinLineSel L
  state_at base m k = record {
    items = marked (λ i. visits_to (length base) i k) 0 base;
    curr_idx = (k - 1) % length base;
    max_lines = m;
    next_output_line_idx = k;
  }

  pub advance_step :
      (j : ℕ) (r : RoundRobinLineSel L) (it : Item L)
      → get_elem? r.items ((r.curr_idx + 1) % length r.items) ≡ some it
      → r.next_output_line_idx < r.max_lines
      → advance (suc j) r
        ≡ (if (visit_item it).1 then some (true, arrive r it) else advance j (arrive r it))
  unfolding advance
  advance_step j r it h l =
      rw (le→not-ltb r.max_lines (r.next_output_line_idx + 1) (omega arith), h, advance)

  pub visit_item-visited :
      (c : ℕ) (it : Item L)
      → ((visit_item (visited c it)).0 ≡ visited (suc c) it)
        × ((visit_item (visited c it)).1 ≡ ltb c (length it.lines.lines))
  visit_item-visited zero it = (refl, refl)
  visit_item-visited (suc c) it = (rw add-one, rw add-one)

suc-sub-one : (k : ℕ) → k ≡ suc k - 1
suc-sub-one k = omega arith

other_visit : (n k x : ℕ) → x ≢ k % n → visits_to n x (suc k) ≡ visits_to n x k
unfolding visits_to
other_visit n k x h = ground arith

module _ {L : Type 0} (base : List (Item L)) (m k : ℕ) (0<n : 0 < length base) where
  -- Visit number `k` finds resource `k % n` after `k / n` visits.
  pub visits_to-now : visits_to (length base) (k % length base) k ≡ k / length base
  visits_to-now =
      let n = length base in
      let e : k / n * n + k % n ≡ k = div-add-mod' k n in
      ground (
        arith,
        visits_to-rounds n (k % n) (k / n) (k % n) (mod-lt k 0<n),
        ap (visits_to n (k % n)) e,
      )

  module _ (b : Item L) (here : get_elem? base (k % length base) ≡ some b) where
    pub item_now :
        get_elem? (state_at base m k).items (k % length base) ≡ some (visited (k / length base) b)
    unfolding state_at
    item_now =
        get_elem?-marked _ 0 (k % length base) base b here
        ∙ rw (zero-add (k % length base), visits_to-now)

    visits_to-next : visits_to (length base) (0 + k % length base) (suc k) ≡ suc (k / length base)
    unfolding visits_to
    visits_to-next =
        let n = length base in
        ground (arith, visits_to-now, ap (λ j. visits_to n j k) (zero-add (k % n)))

    -- Visiting it leads to the state before visit number `k + 1`.
    pub items_next :
        set (state_at base m k).items (k % length base) (visited (suc (k / length base)) b)
        ≡ (state_at base m (suc k)).items
    unfolding state_at
    items_next =
        let n = length base in
        let c : ℕ → ℕ = λ i. visits_to n i k in
        let d : ℕ → ℕ = λ i. visits_to n i (suc k) in
        ap (λ v. set (marked c 0 base) (k % n) (visited v b)) (sym visits_to-next)
        ∙ set-marked c d 0 (k % n) base b here (λ x ne. other_visit n k x (λ q. ne (rw zero-add q)))

    -- There the selector stands on the item just visited.
    pub current_next :
        get_elem? (state_at base m (suc k)).items (state_at base m (suc k)).curr_idx
        ≡ some (visited (suc (k / length base)) b)
    unfolding state_at
    current_next =
        let n = length base in
        ap (λ t. get_elem? (marked (λ i. visits_to n i (suc k)) 0 base) (t % n))
          (sym (suc-sub-one k))
        ∙ get_elem?-marked _ 0 (k % n) base b here
        ∙ ap (λ v. some (visited v b)) visits_to-next

    pub index_next :
        0 < k
        → ((state_at base m k).curr_idx + 1) % length (state_at base m k).items ≡ k % length base
    unfolding state_at
    index_next l =
        let pred_suc : k - 1 + 1 ≡ k = omega arith in
        rw length-marked (mod-add-mod (k - 1) (length base) 1 ∙ ap (λ t. t % length base) pred_suc)

    pub arrive_next :
        0 < k → arrive (state_at base m k) (visited (k / length base) b) ≡ state_at base m (suc k)
    unfolding state_at
    arrive_next l i = record {
      items =
          (ap₂ (λ j it. set (state_at base m k).items j it) (index_next l)
                (visit_item-visited (k / length base) b).0
              ∙ items_next)
            i;
      curr_idx = (index_next l ∙ ap (λ t. t % length base) (suc-sub-one k)) i;
      max_lines = m;
      next_output_line_idx = add-one k i;
    }
