-- ===== src/Backend/Traversal/Paths/Between.antt =====
-- About `get_path_from_to` of crates/lib/src/backend/database/in_memory/traversal.rs.
use eidetica.Base.{
  String, List, [], ◌∷◌, Bool, true, false, not, ◌&&◌, Option, none, some, keep, map, if◌then◌else◌,
  str_eq, eq_refl, eq_iff, ◌≡◌, ◌↔◌, refl, subst, ap, ◌∙◌, Bool-cases, inl, inr, arith,
}
use eidetica.Base.Outcome.{Outcome, ok, err, Outcome-cases}
use eidetica.Base.Sort.{sort_by, dedup, has-dedup, not_after, Sorted, any-sort_by, Sorted-sort_by}
use eidetica.Entry.{Entry, in_subtree, subtree_parents}
use eidetica.Entry.Order.{IdOrder}
use eidetica.Backend.Error.{ReadError, entry_not_found}
use eidetica.Backend.Storage.{InMemoryInner, is_in, get_entry, in_tree, parents_in}
use eidetica.Backend.Storage.Read.Part.{get_entry-none}
use eidetica.Backend.Traversal.Paths.{
  compare_heights, parents_of_entry, get_sorted_store_parents, step_to, look_between, in_path_order,
  get_path_from_to,
}
use eidetica.Backend.Walk.{Look, halt, see, Walked, queued_of, found_of, is_see, is_drop}
use eidetica.Backend.Walk.Ends.{run_ends}
use eidetica.Backend.Walk.Rule.{values_at, Gathered, run-Gathered, AfterWalk}
use eidetica.Backend.Walk.Reach.{
  at_start, at_named, Reached, complete, Inv, Kept, Halts, run-Kept, is_in-append,
}

module _ (id_of : Entry → String) (order : IdOrder) (tree name from : String)
    (es : List Entry) where
  -- the parents in the store of an entry of the store in the tree
  unfoldable pub names_within : Option Entry → List String
  unfolding in_tree in_subtree subtree_parents
  names_within none = []
  names_within (some e) =
      if in_tree id_of tree e && in_subtree name e then parents_in (subtree_parents name e) else []

  -- The targets but for the start, their parents in the store, and so on, without the start.
  pub data Between (targets : List String) : String → Type 0 where
    at_target : {v : String} → is_in v targets ≡ true → str_eq v from ≡ false → Between targets v
    at_parent :
        {u v : String}
        → Between targets u
        → is_in v (names_within (get_entry id_of u es)) ≡ true
        → str_eq v from ≡ false
        → Between targets v

  abbrev look : String → Look ReadError String
  look = look_between id_of order tree name from es

  queued_step :
      (u v : String) (o : Option Entry)
      → is_in v (queued_of (step_to u (parents_of_entry id_of order tree name u es o)))
        ≡ is_in v (names_within o)
  unfolding names_within
  queued_step u v none = refl
  queued_step u v (some e) = elim (Bool-cases (in_tree id_of tree e && in_subtree name e)) [
    | inl y ↦ rw y (
        any-sort_by (compare_heights id_of order name es) (λ w. str_eq w v)
          (parents_in (subtree_parents name e)))
    | inr n ↦ rw n refl
  ]

  queued-look :
      (u v : String)
      → is_in v (queued_of (look u))
        ≡ (not (str_eq u from) && is_in v (names_within (get_entry id_of u es)))
  unfolding look_between get_sorted_store_parents
  queued-look u v = elim (Bool-cases (str_eq u from)) [
    | inl y ↦ rw y refl
    | inr n ↦ rw n (queued_step u v (get_entry id_of u es))
  ]

  found_step :
      (u : String) (m : Outcome ReadError (List String))
      → is_see (step_to u m) ≡ true
      → found_of (step_to u m) ≡ u ∷ []
  found_step u (ok ids) h = refl
  found_step u (err e) h = absurd (cc)

  found-look :
      (u v : String)
      → is_see (look u) ≡ true
      → is_in v (found_of (look u)) ≡ (str_eq u v && not (str_eq v from))
  unfolding look_between
  found-look u v h = elim (Bool-cases (str_eq u from)) [
    | inl y ↦ rw y (ground (arith, eq_iff u v))
    | inr n ↦
        let only = found_step u (get_sorted_store_parents id_of order tree u name es) (rw n at h) in
        rw (n, only) (ground (arith, eq_iff u v))
  ]

  in-values :
      (v : String) (seen : List String)
      → ((u : String) → is_in u seen ≡ true → is_see (look u) ≡ true)
      → is_in v (values_at true look seen) ≡ (is_in v seen && not (str_eq v from))
  in-values v [] h = refl
  in-values v (u ∷ seen) h =
      is_in-append v (values_at true look seen) (found_of (look u))
      ∙ ground (
        arith,
        in-values v seen (λ w m. h w (ground arith)),
        found-look u v (h u (rw (eq_refl u) refl)),
      )

  in-targets :
      (v : String) (ids : List String)
      → is_in v (keep (λ to. not (str_eq to from)) ids) ≡ (is_in v ids && not (str_eq v from))
  in-targets v [] = refl
  in-targets v (id ∷ ids) = ground (arith, in-targets v ids, eq_iff id v)

  abbrev starts : List String → List String
  starts targets = keep (λ to. not (str_eq to from)) targets

  -- what is reached from an id was not the start
  from-queued :
      (u v : String)
      → is_in v (queued_of (look u)) ≡ true
      → (str_eq u from ≡ false) × (is_in v (names_within (get_entry id_of u es)) ≡ true)
  from-queued u v h = (ground (arith, queued-look u v), ground (arith, queued-look u v))

  to-Between :
      (targets : List String) (v : String)
      → Reached true look (starts targets) [] v
      → str_eq v from ≡ false
      → Between targets v
  to-Between targets v (at_start t b) n = at_target (ground (arith, in-targets v targets)) n
  to-Between targets v (at_named {u} r m b) n =
      let (other, parent) = from-queued u v m in at_parent (to-Between targets u r other) parent n

  Between-other : (targets : List String) {v : String} → Between targets v → str_eq v from ≡ false
  Between-other targets (at_target t n) = n
  Between-other targets (at_parent b m n) = n

  of-Between :
      (targets : List String) {v : String}
      → Between targets v
      → Reached true look (starts targets) [] v
  of-Between targets {v} (at_target t n) = at_start (in-targets v targets ∙ rw (t, n) refl) refl
  of-Between targets {v} (at_parent {u} b m n) =
      at_named (of-Between targets b) (queued-look u v ∙ rw (Between-other targets b, m) refl) refl

  names-look : (v : String) → is_in v (map id_of es) ≡ false → queued_of (look v) ≡ []
  unfolding look_between get_sorted_store_parents
  names-look v h =
      rw (get_entry-none id_of v es h)
        (elim (Bool-cases (str_eq v from)) [ inl y ↦ rw y refl | inr n ↦ rw n refl ])

  -- the loop halts only at an id that is not stored
  abbrev Missing : String → ReadError → Type 0
  Missing v x = (str_eq v from ≡ false) × (get_entry id_of v es ≡ none) × (x ≡ entry_not_found v)

  halted :
      (v : String) (x : ReadError) (b : Bool) (o : Option Entry)
      → (if b then see [] [] else step_to v (parents_of_entry id_of order tree name v es o))
        ≡ halt x
      → (b ≡ false) × (o ≡ none) × (x ≡ entry_not_found v)
  halted v x true o h = absurd (cc)
  halted v x false none h = (refl, refl, cc)
  halted v x false (some e) h = elim (Bool-cases (in_tree id_of tree e && in_subtree name e)) [
    | inl y ↦ absurd (cc (rw y at h))
    | inr n ↦ absurd (cc (rw n at h))
  ]

  halts_at : (v : String) (x : ReadError) → look v ≡ halt x → Missing v x
  unfolding look_between get_sorted_store_parents
  halts_at v x h = halted v x (str_eq v from) (get_entry id_of v es) h

  is_stored :
      (v : String)
      → is_see (look v) ≡ true
      → str_eq v from ≡ false
      → ¬ (get_entry id_of v es ≡ none)
  unfolding look_between get_sorted_store_parents
  is_stored v h n gone = absurd (cc (rw (n, gone) at h))

  step-kept : (v : String) (m : Outcome ReadError (List String)) → is_drop (step_to v m) ≡ false
  step-kept v (ok ids) = refl
  step-kept v (err e) = refl

  never_drops : (v : String) → is_drop (look v) ≡ false
  unfolding look_between
  never_drops v = ground (arith, step-kept v (get_sorted_store_parents id_of order tree v name es))

  -- the way from the start to the targets
  pub record IsPath (targets path : List String) : Type 0 where
    pub members : (v : String) → (is_in v path ≡ true) ↔ Between targets v
    pub stored : (v : String) → Between targets v → ¬ (get_entry id_of v es ≡ none)
    pub in_order : Sorted (compare_heights id_of order name es) path

  compare_heights-total :
      (a b : String)
      → not_after (compare_heights id_of order name es a b) ≡ false
      → not_after (compare_heights id_of order name es b a) ≡ true
  unfolding compare_heights
  compare_heights-total a b h = ground (arith, order.total a b)

  compare_heights_trans :
      (a b c : String)
      → not_after (compare_heights id_of order name es a b) ≡ true
      → not_after (compare_heights id_of order name es b c) ≡ true
      → not_after (compare_heights id_of order name es a c) ≡ true
  unfolding compare_heights
  compare_heights_trans a b c h g = ground (arith, order.trans a b c)

  in-path_order :
      (v : String) (ids : List String)
      → is_in v (in_path_order id_of order name es ids) ≡ is_in v ids
  in-path_order v ids =
      any-sort_by (compare_heights id_of order name es) (λ w. str_eq w v) _
      ∙ has-dedup v (sort_by order.compare_ids ids)
      ∙ any-sort_by order.compare_ids (λ w. str_eq w v) ids

  processed :
      (targets : List String) (w : Walked String)
      → Inv true look (starts targets) [] [] w.seen
      → (v : String) → Between targets v
      → is_in v w.seen ≡ true
  processed targets w inv v b =
      let all = complete true look (starts targets) [] w.seen v inv (of-Between targets b) in
      ground (arith, never_drops v)

  IsPath-walked :
      (targets : List String) (w : Walked String)
      → Inv true look (starts targets) [] [] w.seen
      → Gathered true look [] w
      → IsPath targets (in_path_order id_of order name es w.found)
  IsPath-walked targets w inv g = record {
    members = λ v.
        let same : is_in v (in_path_order id_of order name es w.found)
            ≡ (is_in v w.seen && not (str_eq v from)) =
          in-path_order v w.found
          ∙ ap (is_in v) g.1
          ∙ in-values v w.seen (λ u m. inv.seen_see u m refl) in
        (
          λ m. to-Between targets v (inv.sound v (ground arith) refl) (ground arith),
          λ b. same ∙ rw (processed targets w inv v b, Between-other targets b) refl,
        );
    stored = λ v b.
        is_stored v (inv.seen_see v (processed targets w inv v b) refl) (Between-other targets b);
    in_order =
        Sorted-sort_by (compare_heights id_of order name es) compare_heights-total
          compare_heights_trans (dedup (sort_by order.compare_ids w.found));
  }

module _ (id_of : Entry → String) (order : IdOrder) where
  -- what the call says of the entries between
  abbrev pub PathSays :
      String → String → String → List Entry → List String → Outcome ReadError (List String) → Type 0
  PathSays tree name from es targets (ok path) = IsPath id_of order tree name from es targets path
  PathSays tree name from es targets (err e) =
      (v : String) × Between id_of order tree name from es targets v
      × (get_entry id_of v es ≡ none)
      × (e ≡ entry_not_found v)

  nothing :
      {tree name from : String} {es : List Entry} {v : String}
      → ¬ Between id_of order tree name from es [] v
  nothing (at_target t n) = cc
  nothing (at_parent b m n) = nothing b

  -- `get_path_from_to` ends for any graph, start and targets. It answers with the targets but for
  -- the start, their parents in the store and so on, where the ways stop at the start, which is left
  -- out, and with no others, in the order of their heights in the store and then of their ids; then
  -- all of these are stored. Or it answers that an entry is not found, which is one of these ids and
  -- is not stored.
  pub get_path_from_to-Says :
      (tree name from : String) (targets : List String) (s : InMemoryInner)
      → (r : Outcome ReadError (List String)) × (get_path_from_to id_of order tree name from targets
            s
          ≡ some r)
        × PathSays tree name from s.entries targets r
  unfolding get_path_from_to
  get_path_from_to-Says tree name from [] s = (
    ok [],
    refl,
    record {
      members = λ v. (λ m. absurd (cc), λ b. absurd (nothing b));
      stored = λ v b. absurd (nothing b);
      in_order = tt;
    },
  )
  get_path_from_to-Says tree name from (id ∷ ids) s =
      let targets = id ∷ ids in
      let es = s.entries in
      let see_at = look id_of order tree name from es in
      let begin = starts id_of order tree name from es targets in
      let (r, e) =
        run_ends true see_at (map id_of es) begin [] (names-look id_of order tree name from es) in
      let H = Kept true see_at begin [] in
      let X = Halts true see_at begin [] in
      let held = run-Kept true see_at begin [] (map id_of es) in
      elim (Outcome-cases r) [
        | inl (w, q) ↦ (
          ok (in_path_order id_of order name es w.found),
          rw (e, q) refl,
          IsPath-walked id_of order tree name from es targets w
              (subst (AfterWalk true see_at H X) (e ∙ ap some q) held)
              (subst (AfterWalk true see_at (Gathered true see_at) (λ x. Unit)) (e ∙ ap some q)
                (run-Gathered true see_at (map id_of es) begin)),
        )
        | inr (x, q) ↦
            let (v, r, l) = subst (AfterWalk true see_at H X) (e ∙ ap some q) held in
            let (n, gone, same) = halts_at id_of order tree name from es v x l in
            (
              err x,
              rw (e, q) refl,
              (v, to-Between id_of order tree name from es targets v r n, gone, same),
            )
      ]
