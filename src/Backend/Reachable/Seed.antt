-- ===== src/Backend/Reachable/Seed.antt =====
-- About the loops of `check_targets_reachable_from` of crates/lib/src/backend/mod.rs that come before
-- the walk.
use eidetica.Base.{
  ℕ, ◌≤◌, String, List, [], ◌∷◌, ◌++◌, Bool, true, false, ◌||◌, str_eq, eq_refl, eq_iff, ◌≡◌, refl,
  sym, subst, ap, ◌∙◌, inl, inr, Bool-cases, arith,
}
use eidetica.Base.Outcome.{Outcome, ok, err, ◌>>=◌}
use eidetica.Entry.{Entry}
use eidetica.Backend.Error.{ReadError, entry_not_in_tree}
use eidetica.Backend.Storage.{is_in}
use eidetica.Backend.Storage.Read.{tree_height}
use eidetica.Backend.Storage.Read.Part.{at_tip}
use eidetica.Backend.Reachable.{
  Walking, Held, absent, foreign, own, insert_id, held, enter, min_height, add_target, add_targets,
  add_tip, add_tips,
}
use eidetica.Backend.Reachable.Invariant.{
  is_own, Inv, Known, step-Inv, push-Inv, add-absent, own-of_is, held-own,
}

is_in-insert :
    (v id : String) (ids : List String) → is_in v (insert_id id ids) ≡ (str_eq id v || is_in v ids)
is_in-insert v id ids = ground (arith, eq_iff id v, ap (λ u. is_in u ids))

module _ (id_of : Entry → String) (tree : String) (es : List Entry) where
  -- a loop that fails does so at an entry of another tree
  abbrev pub Foreign : ReadError → Type 0
  Foreign e = (id : String) × (e ≡ entry_not_in_tree id tree) × (held id_of tree es id ≡ foreign)

  module _ (targets : List String) where
    pub record Targeted (w : Walking) : Type 0 where
      pub unmet_target : (v : String) → is_in v w.unmet ≡ true → is_in v targets ≡ true
      pub absent_missing : (v : String) → is_in v w.missing ≡ true → held id_of tree es v ≡ absent
      pub not_visited : w.visited ≡ []
      pub not_stacked : w.stack ≡ []

    -- the floor is not above any of the given entries of the tree, and all of the given ids are unmet
    pub record Floored (ids : List String) (before after : ℕ × Walking) : Type 0 where
      pub targeted : Targeted after.1
      pub lower : after.0 ≤ before.0
      pub added : (v : String) → is_in v ids ≡ true → is_in v (after.1).unmet ≡ true
      pub kept : (v : String) → is_in v (before.1).unmet ≡ true → is_in v (after.1).unmet ≡ true
      pub below :
          (v : String) (e : Entry)
          → is_in v ids ≡ true
          → held id_of tree es v ≡ own e
          → after.0 ≤ tree_height e

    abbrev pub AfterTargets : List String → ℕ × Walking → Outcome ReadError (ℕ × Walking) → Type 0
    AfterTargets ids c (err e) = Foreign e
    AfterTargets ids c (ok next) = Floored ids c next

    insert-Targeted :
        (id : String) (w : Walking) (missing : List String)
        → is_in id targets ≡ true
        → ((v : String) → is_in v missing ≡ true → held id_of tree es v ≡ absent)
        → Targeted w
        → Targeted (record w { unmet = insert_id id w.unmet; missing = missing })
    insert-Targeted id w missing t all h = record {
      unmet_target = λ v m. ground (
        arith,
        is_in-insert v id w.unmet,
        h.unmet_target v,
        ap (λ u. is_in u targets),
        eq_iff id v,
      );
      absent_missing = all;
      not_visited = h.not_visited;
      not_stacked = h.not_stacked;
    }

    -- one target, then the others
    cons-Floored :
        (id : String) (ids : List String) (f : ℕ) (w : Walking) (next : ℕ × Walking)
        (r : Outcome ReadError (ℕ × Walking))
        → (next.1).unmet ≡ insert_id id w.unmet
        → next.0 ≤ f
        → ((e : Entry) → held id_of tree es id ≡ own e → next.0 ≤ tree_height e)
        → AfterTargets ids next r
        → AfterTargets (id ∷ ids) (f, w) r
    cons-Floored id ids f w next (err e) u l b h = h
    cons-Floored id ids f w next (ok last) u l b h = record {
      targeted = h.targeted;
      lower = omega (arith, h.lower);
      added = λ v m. elim (Bool-cases (is_in v ids)) [
        | inl y ↦ h.added v y
        | inr n ↦ h.kept v (ap (is_in v) u ∙ is_in-insert v id w.unmet ∙ ground arith)
      ];
      kept = λ v m. h.kept v (ap (is_in v) u ∙ is_in-insert v id w.unmet ∙ ground arith);
      below = λ v e m o. elim (Bool-cases (is_in v ids)) [
        | inl y ↦ h.below v e y o
        | inr n ↦
            let same : id ≡ v = (eq_iff id v).0 (ground arith) in
            omega (arith, h.lower, b e (ap (held id_of tree es) same ∙ o))
      ];
    }

    add-one :
        (id : String) (ids : List String) (f : ℕ) (w : Walking)
        (others : ℕ × Walking → Outcome ReadError (ℕ × Walking)) (h : Held)
        → held id_of tree es id ≡ h
        → is_in id targets ≡ true
        → Targeted w
        → ((next : ℕ × Walking) → Targeted next.1 → AfterTargets ids next (others next))
        → AfterTargets (id ∷ ids) (f, w) (add_target id_of tree es id h (f, w) >>= others)
    add-one id ids f w others absent eh t g rest =
        let next = record w { unmet = insert_id id w.unmet; missing = w.missing ++ (id ∷ []) } in
        cons-Floored id ids f w (f, next) (others (f, next)) refl (omega arith) (λ e o. absurd (cc))
          (rest (f, next)
            (insert-Targeted id w (w.missing ++ (id ∷ [])) t
              (add-absent id_of tree es [] [] 0 id w.missing eh g.absent_missing) g))
    add-one id ids f w others foreign eh t g rest = (id, refl, eh)
    add-one id ids f w others (own e) eh t g rest =
        let next = record w { unmet = insert_id id w.unmet } in
        cons-Floored id ids f w (min_height f (tree_height e), next)
          (others (min_height f (tree_height e), next)) refl (ground arith)
          (λ d o.
            let equal : e ≡ d = (let both : own e ≡ own d = sym eh ∙ o in cc) in
            subst (λ x. min_height f (tree_height e) ≤ tree_height x) equal (ground arith))
          (rest (min_height f (tree_height e), next)
            (insert-Targeted id w w.missing t g.absent_missing g))

    pub add_targets-Floored :
        (ids : List String) (f : ℕ) (w : Walking)
        → ((v : String) → is_in v ids ≡ true → is_in v targets ≡ true)
        → Targeted w
        → AfterTargets ids (f, w) (add_targets id_of tree es ids (f, w))
    unfolding add_targets
    add_targets-Floored [] f w sub h = record {
      targeted = h;
      lower = omega arith;
      added = λ v m. absurd (cc);
      kept = λ v m. m;
      below = λ v e m o. absurd (cc);
    }
    add_targets-Floored (id ∷ ids) f w sub h =
        add-one id ids f w (add_targets id_of tree es ids) (held id_of tree es id) refl
          (sub id (rw (eq_refl id) refl)) h
          (λ next g. add_targets-Floored ids next.0 next.1 (λ v m. sub v (ground arith)) g)

  module _ (tips targets : List String) (floor : ℕ) where
    abbrev I : Walking → List String → Type 0
    I = Inv id_of tree es tips targets floor

    -- after the loop over the tips, those of the tree are visited
    pub record Seeded (ids : List String) (before after : Walking) : Type 0 where
      pub inv : I after after.stack
      pub kept : (v : String) → is_in v before.visited ≡ true → is_in v after.visited ≡ true
      pub all_visited :
          (v : String)
          → is_in v ids ≡ true
          → is_own (held id_of tree es v) ≡ true
          → is_in v after.visited ≡ true

    abbrev pub AfterTips : List String → Walking → Outcome ReadError Walking → Type 0
    AfterTips ids w (err e) = Foreign e
    AfterTips ids w (ok next) = Seeded ids w next

    cons-Seeded :
        (id : String) (ids : List String) (w next : Walking) (r : Outcome ReadError Walking)
        → ((v : String) → is_in v w.visited ≡ true → is_in v next.visited ≡ true)
        → (is_own (held id_of tree es id) ≡ true → is_in id next.visited ≡ true)
        → AfterTips ids next r
        → AfterTips (id ∷ ids) w r
    cons-Seeded id ids w next (err e) m o h = h
    cons-Seeded id ids w next (ok last) m o h = record {
      inv = h.inv;
      kept = λ v b. h.kept v (m v b);
      all_visited = λ v b own_v. elim (Bool-cases (is_in v ids)) [
        | inl y ↦ h.all_visited v y own_v
        | inr n ↦
            let same : id ≡ v = (eq_iff id v).0 (ground arith) in
            h.kept v (
              subst (λ u. is_in u next.visited ≡ true) same
                (o (ap (λ u. is_own (held id_of tree es u)) same ∙ own_v)))
      ];
    }

    tip-Known :
        (id : String)
        → is_in id tips ≡ true
        → is_own (held id_of tree es id) ≡ true
        → Known id_of tree es tips targets floor id
    tip-Known id m o =
        let (e, there) = own-of_is id_of tree es tips targets floor id o in
        let (stored, belongs) = held-own id_of tree es tips targets floor id e there in
        at_tip m stored belongs

    missing-I :
        (w : Walking) (missing : List String)
        → ((v : String) → is_in v missing ≡ true → held id_of tree es v ≡ absent)
        → I w w.stack
        → I (record w { missing = missing }) w.stack
    missing-I w missing all i = record {
      visited_known = i.visited_known;
      stack_known = i.stack_known;
      all_in = i.all_in;
      unmet_target = i.unmet_target;
      unmet_not = i.unmet_not;
      absent_missing = all;
      closed = i.closed;
    }

    seed-one :
        (id : String) (ids : List String) (w : Walking)
        (others : Walking → Outcome ReadError Walking) (h : Held) (b : Bool)
        → held id_of tree es id ≡ h
        → is_in id w.visited ≡ b
        → is_in id tips ≡ true
        → I w w.stack
        → ((next : Walking) → I next next.stack → AfterTips ids next (others next))
        → AfterTips (id ∷ ids) w (add_tip id_of tree es floor id h w >>= others)
    seed-one id ids w others absent b eh eb t i rest =
        let next = record w { missing = w.missing ++ (id ∷ []) } in
        cons-Seeded id ids w next (others next) (λ v m. m) (λ o. absurd (cc (ap is_own eh, o)))
          (rest next (
            missing-I w (w.missing ++ (id ∷ []))
              (add-absent id_of tree es tips targets floor id w.missing eh i.absent_missing) i))
    seed-one id ids w others foreign b eh eb t i rest = (id, refl, eh)
    seed-one id ids w others (own e) true eh eb t i rest =
        rw eb (cons-Seeded id ids w w (others w) (λ v m. m) (λ o. eb) (rest w i))
    seed-one id ids w others (own e) false eh eb t i rest =
        let next = enter floor id e w in
        let pushed =
          push-Inv id_of tree es tips targets floor id w.stack w (λ o. tip-Known id t o) i in
        rw eb (
          cons-Seeded id ids w next (others next) (λ v m. ground arith) (λ o. rw (eq_refl id) refl)
            (rest next
              (step-Inv id_of tree es tips targets floor id w.stack w (own e) false eh eb pushed)))

    pub add_tips-Seeded :
        (ids : List String) (w : Walking)
        → ((v : String) → is_in v ids ≡ true → is_in v tips ≡ true)
        → I w w.stack
        → AfterTips ids w (add_tips id_of tree es floor ids w)
    unfolding add_tips
    add_tips-Seeded [] w sub i = record {
      inv = i;
      kept = λ v m. m;
      all_visited = λ v m o. absurd (cc);
    }
    add_tips-Seeded (id ∷ ids) w sub i =
        seed-one id ids w (add_tips id_of tree es floor ids) (held id_of tree es id) _ refl refl
          (sub id (rw (eq_refl id) refl)) i
          (λ next j. add_tips-Seeded ids next (λ v m. sub v (ground arith)) j)
