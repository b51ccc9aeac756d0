-- ===== src/Backend/Reachable/Verdict.antt =====
-- About the answers of `check_targets_reachable_from` of crates/lib/src/backend/mod.rs.
use eidetica.Base.{
  ℕ, ◌≤◌, ◌<◌, String, List, [], ◌∷◌, true, false, ◌&&◌, ◌||◌, Option, none, some, str_eq, eq_refl,
  ◌≡◌, refl, sym, subst, ap, ◌∙◌, inl, inr, Bool-cases, arith,
}
use eidetica.Base.Outcome.{Outcome, ok, err}
use eidetica.Base.Sort.{any-sort_by, dedup, dedup_after}
use eidetica.Entry.{Entry, is_empty_list}
use eidetica.Auth.Delegation.{Reachability, reachable, unreachable, indeterminate}
use eidetica.Entry.Order.{IdOrder}
use eidetica.Backend.Error.{ReadError, Ran}
use eidetica.Backend.Storage.{is_in, get_entry, in_tree}
use eidetica.Backend.Storage.Read.{main_parents, tree_height}
use eidetica.Backend.Storage.Read.Part.{Part, at_tip, at_parent, nothing}
use eidetica.Backend.Reachable.{
  Walking, absent, own, held, held_as, max_height, no_walking, add_targets, add_tips, fuel_for,
  verdict, climb_from, seed_from, check_targets_reachable_from,
}
use eidetica.Backend.Reachable.Search.{climb_ends}
use eidetica.Backend.Reachable.Invariant.{is_own, Inv, Stopped, Stops, climb-Stops}
use eidetica.Backend.Reachable.Seed.{
  Foreign, Targeted, AfterTargets, add_targets-Floored, AfterTips, add_tips-Seeded,
}

is_in-dedup_after :
    (v id : String) (ids : List String) → is_in v (dedup_after id ids) ≡ true → is_in v ids ≡ true
is_in-dedup_after v id [] h = h
is_in-dedup_after v id (next ∷ ids) h = ground (arith, is_in-dedup_after v next ids)

is_in-dedup : (v : String) (ids : List String) → is_in v (dedup ids) ≡ true → is_in v ids ≡ true
is_in-dedup v [] h = h
is_in-dedup v (id ∷ ids) h = ground (arith, is_in-dedup_after v id ids)

empty_nil : (ids : List String) → is_empty_list ids ≡ true → ids ≡ []
empty_nil [] h = refl
empty_nil (id ∷ ids) h = absurd (cc)

empty_in : (v : String) (ids : List String) → is_empty_list ids ≡ true → is_in v ids ≡ false
empty_in v ids h = rw (empty_nil ids h) refl

module _ (id_of : Entry → String) (tree : String) (es : List Entry) where
  -- each entry of the tree is higher than its parents
  abbrev pub Rising : Type 0
  Rising =
      (u v : String) (d e : Entry)
      → held id_of tree es u ≡ own d
      → is_in v (main_parents d) ≡ true
      → held id_of tree es v ≡ own e
      → tree_height e < tree_height d

  module _ (tips targets : List String) where
    abbrev pub Ancestral : String → Type 0
    Ancestral v = Part id_of (in_tree id_of tree) main_parents es tips v

    -- what each answer means
    abbrev pub Means : Reachability → Type 0
    Means reachable = (v : String) → is_in v targets ≡ true → Ancestral v
    Means unreachable = Rising → (v : String) × (is_in v targets ≡ true) × ¬ Ancestral v
    Means (indeterminate missing) =
        (v : String) → is_in v missing ≡ true → held id_of tree es v ≡ absent

    abbrev pub Says : Ran Reachability → Type 0
    Says none = ¬ Unit {0}
    Says (some (err e)) = Foreign id_of tree es e
    Says (some (ok r)) = Means r

    stored-own :
        (o : Option Entry) (d : Entry)
        → o ≡ some d
        → in_tree id_of tree d ≡ true
        → held_as id_of tree es o ≡ own d
    stored-own o d h b = rw (h, b) refl

    Ancestral-entry :
        (u : String)
        → Ancestral u
        → (e : Entry) × (get_entry id_of u es ≡ some e) × (in_tree id_of tree e ≡ true)
    Ancestral-entry u (at_tip {e = e} t there b) = (e, there, b)
    Ancestral-entry u (at_parent {e = e} p there_d m there b) = (e, there, b)

    Ancestral-own :
        (u : String) (d : Entry)
        → Ancestral u
        → get_entry id_of u es ≡ some d
        → held id_of tree es u ≡ own d
    unfolding held
    Ancestral-own u d p there_d =
        let (e, there, b) = Ancestral-entry u p in
        let equal : e ≡ d = (let both : some e ≡ some d = sym there ∙ there_d in cc) in
        stored-own (get_entry id_of u es) d there_d
          (subst (λ x. in_tree id_of tree x ≡ true) equal b)

    module _ (floor : ℕ) where
      -- with an empty stack, what the tips reach at the floor or above was visited
      reached_visited :
          (w : Walking)
          → Rising
          → Inv id_of tree es tips targets floor w []
          → ((v : String)
              → is_in v tips ≡ true
              → is_own (held id_of tree es v) ≡ true
              → is_in v w.visited ≡ true)
          → {v : String} → Ancestral v
          → (e : Entry) → held id_of tree es v ≡ own e
          → floor ≤ tree_height e
          → is_in v w.visited ≡ true
      reached_visited w rising inv seeded {v} (at_tip t there b) e h f = seeded v t (ap is_own h)
      reached_visited w rising inv seeded {v} (at_parent {u} {d = d} p there_d m there b) e h f =
          let own_d = Ancestral-own u d p there_d in
          let higher = rising u v d e own_d m h in
          let seen = reached_visited w rising inv seeded p d own_d (omega arith) in
          ground (arith, inv.closed u v d seen own_d (omega arith) m)

      abbrev Low : Type 0
      Low =
          (v : String) (e : Entry)
          → is_in v targets ≡ true
          → held id_of tree es v ≡ own e
          → floor ≤ tree_height e

      first_unmet :
          (ids : List String) → is_empty_list ids ≡ false → (v : String) × (is_in v ids ≡ true)
      first_unmet [] h = absurd (cc)
      first_unmet (v ∷ ids) h = (v, rw (eq_refl v) refl)

      abbrev AllSeeded : Walking → Type 0
      AllSeeded w =
          (v : String)
          → is_in v tips ≡ true
          → is_own (held id_of tree es v) ≡ true
          → is_in v w.visited ≡ true

      Means-reachable :
          (w : Walking)
          → Inv id_of tree es tips targets floor w w.stack
          → is_empty_list w.unmet ≡ true
          → Means reachable
      Means-reachable w inv y v t =
          let met : (is_in v w.visited && is_own (held id_of tree es v)) ≡ true =
            ground (arith, inv.all_in v t, empty_in v w.unmet y) in
          inv.visited_known v (ground arith) (ground arith)

      Means-unreachable :
          (w : Walking)
          → Low
          → Inv id_of tree es tips targets floor w w.stack
          → is_empty_list w.unmet ≡ false
          → is_empty_list w.stack ≡ true
          → AllSeeded w
          → Means unreachable
      Means-unreachable w low inv n over seeded rising =
          let (v, m) = first_unmet w.unmet n in
          let at_end =
            subst (Inv id_of tree es tips targets floor w) (empty_nil w.stack over) inv in
          (
            v,
            inv.unmet_target v m,
            λ anc.
                let (e, there, b) = Ancestral-entry v anc in
                let own_e = Ancestral-own v e anc there in
                let seen =
                  reached_visited w rising at_end seeded anc e own_e
                    (low v e (inv.unmet_target v m) own_e) in
                let met : (is_in v w.visited && is_own (held id_of tree es v)) ≡ true =
                  rw (seen, own_e) refl in
                cc (inv.unmet_not v m),
          )

      verdict-Means :
          (order : IdOrder) (w : Walking)
          → Low
          → Inv id_of tree es tips targets floor w w.stack
          → (is_empty_list w.unmet || is_empty_list w.stack) ≡ true
          → AllSeeded w
          → Means (verdict order w)
      verdict-Means order w low inv over seeded = elim (Bool-cases (is_empty_list w.unmet)) [
        | inl y ↦ rw y (Means-reachable w inv y)
        | inr n ↦ elim (Bool-cases (is_empty_list w.missing)) [
          | inl none_missing ↦
              rw (n, none_missing) (Means-unreachable w low inv n (ground arith) seeded)
          | inr some_missing ↦
              rw (n, some_missing)
                (λ v m. inv.absent_missing v (
                  sym (any-sort_by order.compare_ids (λ id. str_eq id v) w.missing)
                  ∙ is_in-dedup v _ m))
        ]
      ]

      climb_from-Says :
          (order : IdOrder) (before : Walking) (r : Outcome ReadError Walking)
          → Low
          → AfterTips id_of tree es tips targets floor tips before r
          → Says (climb_from id_of tree es order floor r)
      climb_from-Says order before (err e) low h = h
      climb_from-Says order before (ok w) low h =
          let (last, ends) =
            climb_ends id_of tree es floor (fuel_for id_of tree es w) w.stack w (omega arith) in
          let stopped : Stopped id_of tree es tips targets floor w last =
            subst (Stops id_of tree es tips targets floor w) ends
              (climb-Stops id_of tree es tips targets floor _ w.stack w h.inv) in
          rw ends (
            verdict-Means order last low stopped.inv stopped.over
              (λ v m o. stopped.kept v (h.all_visited v m o)))

    Targeted-Inv :
        (floor : ℕ) (w : Walking)
        → Targeted id_of tree es targets w
        → ((v : String) → is_in v targets ≡ true → is_in v w.unmet ≡ true)
        → Inv id_of tree es tips targets floor w w.stack
    Targeted-Inv floor w h all = record {
      visited_known = λ v m o. absurd (none_visited v m);
      stack_known = λ v m o. absurd (none_stacked v m);
      all_in = λ v t. ground (arith, all v t);
      unmet_target = h.unmet_target;
      unmet_not = λ v m. ground (arith, λ (x : is_in v w.visited ≡ true). none_visited v x);
      absent_missing = h.absent_missing;
      closed = λ u v d m there above p. absurd (none_visited u m);
    }
      where
        none_visited : (v : String) → ¬ (is_in v w.visited ≡ true)
        none_visited v m = cc (subst (λ ids. is_in v ids ≡ true) h.not_visited m)

        none_stacked : (v : String) → ¬ (is_in v w.stack ≡ true)
        none_stacked v m = cc (subst (λ ids. is_in v ids ≡ true) h.not_stacked m)

    seed_from-Says :
        (order : IdOrder) (r : Outcome ReadError (ℕ × Walking))
        → AfterTargets id_of tree es targets targets (max_height, no_walking) r
        → Says (seed_from id_of tree es order tips r)
    seed_from-Says order (err e) h = h
    seed_from-Says order (ok (floor, w)) h =
        climb_from-Says floor order w (add_tips id_of tree es floor tips w)
          (λ v e t o. h.below v e t o)
          (add_tips-Seeded id_of tree es tips targets floor tips w (λ v m. m)
            (Targeted-Inv floor w h.targeted h.added))

  no_tips : (targets : List String) → is_empty_list targets ≡ false → Means [] targets unreachable
  no_tips [] h rising = absurd (cc)
  no_tips (v ∷ targets) h rising =
      (v, rw (eq_refl v) refl, λ p. nothing id_of (in_tree id_of tree) main_parents es p)

  walked :
      (order : IdOrder) (tips targets : List String)
      → Says tips targets (
          seed_from id_of tree es order tips
            (add_targets id_of tree es targets (max_height, no_walking)))
  walked order tips targets =
      seed_from-Says tips targets order (add_targets id_of tree es targets (max_height, no_walking))
        (add_targets-Floored id_of tree es targets targets max_height no_walking (λ v m. m)
          (record {
            unmet_target = λ v m. absurd (cc);
            absent_missing = λ v m. absurd (cc);
            not_visited = refl;
            not_stacked = refl;
          }))

  -- `check_targets_reachable_from` ends. If it answers Reachable, every target is a stored entry of
  -- the tree that a tip reaches by parents, through stored entries of the tree. If it answers
  -- Unreachable, some target is not, provided that each stored entry of the tree is higher than its
  -- parents there. If it answers Indeterminate, each id that it lists is not stored. If it fails,
  -- it does so with EntryNotInTree, at a stored entry of another tree.
  pub check_targets_reachable_from-Says :
      (order : IdOrder) (tips targets : List String)
      → Says tips targets (check_targets_reachable_from id_of tree es order tips targets)
  unfolding check_targets_reachable_from
  check_targets_reachable_from-Says order tips targets = elim (Bool-cases (is_empty_list tips)) [
    | inl no_tip ↦ elim (Bool-cases (is_empty_list targets)) [
      | inl no_target ↦ rw (no_tip, no_target) (walked order tips targets)
      | inr some_target ↦
          rw (no_tip, some_target)
            (subst (λ ts. Means ts targets unreachable) (sym (empty_nil tips no_tip))
              (no_tips targets some_target))
    ]
    | inr some_tip ↦ rw some_tip (walked order tips targets)
  ]
