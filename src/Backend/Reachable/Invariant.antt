-- ===== src/Backend/Reachable/Invariant.antt =====
-- About the walk of `check_targets_reachable_from` of crates/lib/src/backend/mod.rs: what holds before
-- and after each turn.
use eidetica.Base.{
  ℕ, zero, suc, ◌<◌, String, List, [], ◌∷◌, ◌++◌, Bool, true, false, ◌&&◌, ◌||◌, Option, none, some,
  str_eq, str_eq_comm, eq_refl, eq_iff, ◌≡◌, refl, sym, subst, ap, ◌∙◌, inl, inr, Bool-cases, arith,
}
use eidetica.Entry.{Entry, is_empty_list}
use eidetica.Backend.Storage.{is_in, get_entry, in_tree}
use eidetica.Backend.Storage.Read.{main_parents, tree_height}
use eidetica.Backend.Storage.Read.Part.{Part, at_parent}
use eidetica.Backend.Walk.Reach.{is_in-append}
use eidetica.Backend.Reachable.{
  Walking, Held, absent, foreign, own, held_as, held, expand, enter, step, popped, climb,
}
use eidetica.Backend.Reachable.Search.{is_in-push_all, is_in-remove}

abbrev pub is_own : Held → Bool
is_own absent = false
is_own foreign = false
is_own (own e) = true

module _ (id_of : Entry → String) (tree : String) (es : List Entry) (tips targets : List String)
    (floor : ℕ) where
  abbrev pub held_at : String → Held
  held_at v = held id_of tree es v

  -- the entries of the tree that the tips reach
  abbrev pub Known : String → Type 0
  Known v = Part id_of (in_tree id_of tree) main_parents es tips v

  -- an entry of the tree that was visited
  abbrev pub met_at : Walking → String → Bool
  met_at w v = is_in v w.visited && is_own (held_at v)

  pub record Inv (w : Walking) (stack : List String) : Type 0 where
    pub visited_known :
        (v : String) → is_in v w.visited ≡ true → is_own (held_at v) ≡ true → Known v
    pub stack_known : (v : String) → is_in v stack ≡ true → is_own (held_at v) ≡ true → Known v
    pub all_in : (v : String) → is_in v targets ≡ true → (is_in v w.unmet || met_at w v) ≡ true
    pub unmet_target : (v : String) → is_in v w.unmet ≡ true → is_in v targets ≡ true
    pub unmet_not : (v : String) → is_in v w.unmet ≡ true → met_at w v ≡ false
    pub absent_missing : (v : String) → is_in v w.missing ≡ true → held_at v ≡ absent
    pub closed :
        (u v : String) (d : Entry)
        → is_in u w.visited ≡ true
        → held_at u ≡ own d
        → floor < tree_height d
        → is_in v (main_parents d) ≡ true
        → (is_in v w.visited || is_in v stack) ≡ true

  own-held_as :
      (o : Option Entry) (e : Entry)
      → held_as id_of tree es o ≡ own e
      → (o ≡ some e) × (in_tree id_of tree e ≡ true)
  own-held_as none e h = absurd (cc)
  own-held_as (some d) e h = elim (Bool-cases (in_tree id_of tree d)) [
    | inl y ↦
        let same : own d ≡ own e = rw y at h in
        let equal : d ≡ e = cc in (ap some equal, subst (λ x. in_tree id_of tree x ≡ true) equal y)
    | inr n ↦ absurd (cc (rw n at h))
  ]

  is_own-held_as :
      (o : Option Entry)
      → is_own (held_as id_of tree es o) ≡ true
      → (e : Entry) × (held_as id_of tree es o ≡ own e)
  is_own-held_as none h = absurd (cc)
  is_own-held_as (some d) h = (d, ground arith)

  pub held-own :
      (v : String) (e : Entry)
      → held_at v ≡ own e
      → (get_entry id_of v es ≡ some e) × (in_tree id_of tree e ≡ true)
  unfolding held
  held-own v e h = own-held_as (get_entry id_of v es) e h

  pub own-of_is : (v : String) → is_own (held_at v) ≡ true → (e : Entry) × (held_at v ≡ own e)
  unfolding held
  own-of_is v h = is_own-held_as (get_entry id_of v es) h

  Known-parent :
      (u v : String) (d : Entry)
      → Known u
      → held_at u ≡ own d
      → is_in v (main_parents d) ≡ true
      → is_own (held_at v) ≡ true
      → Known v
  Known-parent u v d k h m o =
      let (e, there) = own-of_is v o in
      at_parent k (held-own u d h).0 m (held-own v e there).0 (held-own v e there).1

  is_in-expand :
      (v : String) (e : Entry) (stack : List String)
      → is_in v (expand floor e stack) ≡ true
      → (is_in v (main_parents e) || is_in v stack) ≡ true
  is_in-expand v e stack h = ground (arith, is_in-push_all v (main_parents e) stack)

  expand-is_in :
      (v : String) (e : Entry) (stack : List String)
      → is_in v stack ≡ true
      → is_in v (expand floor e stack) ≡ true
  expand-is_in v e stack h = ground (arith, is_in-push_all v (main_parents e) stack)

  expand-parent :
      (v : String) (e : Entry) (stack : List String)
      → floor < tree_height e
      → is_in v (main_parents e) ≡ true
      → is_in v (expand floor e stack) ≡ true
  expand-parent v e stack h m = ground (arith, is_in-push_all v (main_parents e) stack)

  same_own : (u v : String) → str_eq u v ≡ true → held_at u ≡ held_at v
  same_own u v h = ap held_at ((eq_iff u v).0 h)

  to_same : (u v : String) (P : String → Type 0) → str_eq u v ≡ true → P u → P v
  to_same u v P h p = subst P ((eq_iff u v).0 h) p

  -- an entry of the tree is entered
  enter-Inv :
      (id : String) (rest : List String) (e : Entry) (w : Walking)
      → held_at id ≡ own e
      → Inv w (id ∷ rest)
      → Inv (enter floor id e (popped w rest)) (expand floor e rest)
  enter-Inv id rest e w h inv =
      let k = inv.stack_known id (rw (eq_refl id) refl) (ap is_own h) in
      record {
        visited_known = λ v m o. elim (Bool-cases (str_eq id v)) [
          | inl s ↦ to_same id v Known s k
          | inr n ↦ inv.visited_known v (ground arith) o
        ];
        stack_known = λ v m o. elim (Bool-cases (is_in v rest)) [
          | inl y ↦ inv.stack_known v (ground arith) o
          | inr n ↦ Known-parent id v e k h (ground (arith, is_in-expand v e rest m)) o
        ];
        all_in = λ v m. ground (
          arith,
          inv.all_in v m,
          is_in-remove v id w.unmet,
          str_eq_comm id v,
          same_own id v,
          ap is_own h,
        );
        unmet_target = λ v m. inv.unmet_target v (ground (arith, is_in-remove v id w.unmet));
        unmet_not =
            λ v m. ground (arith, inv.unmet_not v, is_in-remove v id w.unmet, str_eq_comm id v);
        absent_missing = inv.absent_missing;
        closed = λ u v d m there above p. elim (Bool-cases (str_eq id u)) [
          | inl s ↦
              let equal : d ≡ e =
                let both : own d ≡ own e = sym there ∙ sym (same_own id u s) ∙ h in cc in
              ground (
                arith,
                expand-parent v e rest,
                subst (λ x. floor < tree_height x) equal above,
                subst (λ x. is_in v (main_parents x) ≡ true) equal p,
              )
          | inr n ↦
              ground (arith, inv.closed u v d (ground arith) there above p, expand-is_in v e rest)
        ];
      }

  -- an id that is absent or foreign is visited
  visit-Inv :
      (id : String) (rest : List String) (w : Walking) (missing : List String)
      → is_own (held_at id) ≡ false
      → ((v : String) → is_in v missing ≡ true → held_at v ≡ absent)
      → Inv w (id ∷ rest)
      → Inv (record w { visited = id ∷ w.visited; missing = missing; stack = rest }) rest
  visit-Inv id rest w missing n absent_all inv = record {
    visited_known = λ v m o. inv.visited_known v (ground (arith, same_own id v)) o;
    stack_known = λ v m o. inv.stack_known v (ground arith) o;
    all_in = λ v m. ground (arith, inv.all_in v m);
    unmet_target = inv.unmet_target;
    unmet_not = λ v m. ground (arith, inv.unmet_not v m, same_own id v);
    absent_missing = absent_all;
    closed =
        λ u v d m there above p. ground (arith, inv.closed u v d, same_own id u, ap is_own there);
  }

  pub add-absent :
      (id : String) (missing : List String)
      → held_at id ≡ absent
      → ((v : String) → is_in v missing ≡ true → held_at v ≡ absent)
      → (v : String) → is_in v (missing ++ (id ∷ [])) ≡ true
      → held_at v ≡ absent
  add-absent id missing h all v m = elim (Bool-cases (is_in v missing)) [
    | inl y ↦ all v y
    | inr n ↦ sym (same_own id v (ground (arith, is_in-append v missing (id ∷ [])))) ∙ h
  ]

  -- popping an id that was visited before
  pop-Inv :
      (id : String) (rest : List String) (w : Walking)
      → Inv w (id ∷ rest)
      → is_in id w.visited ≡ true
      → Inv (popped w rest) rest
  pop-Inv id rest w inv seen = record {
    visited_known = inv.visited_known;
    stack_known = λ v m o. inv.stack_known v (ground arith) o;
    all_in = inv.all_in;
    unmet_target = inv.unmet_target;
    unmet_not = inv.unmet_not;
    absent_missing = inv.absent_missing;
    closed = λ u v d m there above p. ground (arith, inv.closed u v d m there above p, eq_iff id v);
  }

  -- a known id may be put on the stack
  pub push-Inv :
      (id : String) (stack : List String) (w : Walking)
      → (is_own (held_at id) ≡ true → Known id)
      → Inv w stack
      → Inv w (id ∷ stack)
  push-Inv id stack w k inv = record {
    visited_known = inv.visited_known;
    stack_known = λ v m o. elim (Bool-cases (str_eq id v)) [
      | inl s ↦ to_same id v Known s (k (ap is_own (same_own id v s) ∙ o))
      | inr n ↦ inv.stack_known v (ground arith) o
    ];
    all_in = inv.all_in;
    unmet_target = inv.unmet_target;
    unmet_not = inv.unmet_not;
    absent_missing = inv.absent_missing;
    closed = λ u v d m there above p. ground (arith, inv.closed u v d m there above p);
  }

  pub step-Inv :
      (id : String) (rest : List String) (w : Walking) (h : Held) (b : Bool)
      → held_at id ≡ h
      → is_in id w.visited ≡ b
      → Inv w (id ∷ rest)
      → Inv (step floor id h b (popped w rest)) (step floor id h b (popped w rest)).stack
  step-Inv id rest w h true eh eb inv = pop-Inv id rest w inv eb
  step-Inv id rest w absent false eh eb inv =
      visit-Inv id rest w (w.missing ++ (id ∷ [])) (ap is_own eh)
        (add-absent id w.missing eh inv.absent_missing) inv
  step-Inv id rest w foreign false eh eb inv =
      visit-Inv id rest w w.missing (ap is_own eh) inv.absent_missing inv
  step-Inv id rest w (own e) false eh eb inv = enter-Inv id rest e w eh inv

  -- nothing that was visited is forgotten
  step-visited :
      (id : String) (rest : List String) (w : Walking) (h : Held) (b : Bool) (v : String)
      → is_in v w.visited ≡ true
      → is_in v (step floor id h b (popped w rest)).visited ≡ true
  step-visited id rest w h true v m = m
  step-visited id rest w absent false v m = ground arith
  step-visited id rest w foreign false v m = ground arith
  step-visited id rest w (own e) false v m = ground arith

  -- what holds where the walk stops
  pub record Stopped (before w : Walking) : Type 0 where
    pub kept : (v : String) → is_in v before.visited ≡ true → is_in v w.visited ≡ true
    pub inv : Inv w w.stack
    pub over : (is_empty_list w.unmet || is_empty_list w.stack) ≡ true

  abbrev pub Stops : Walking → Option Walking → Type 0
  Stops before none = Unit
  Stops before (some w) = Stopped before w

  retell : (w : Walking) (stack : List String) → Inv w stack → Inv (popped w stack) stack
  retell w stack i = record {
    visited_known = i.visited_known;
    stack_known = i.stack_known;
    all_in = i.all_in;
    unmet_target = i.unmet_target;
    unmet_not = i.unmet_not;
    absent_missing = i.absent_missing;
    closed = i.closed;
  }

  earlier :
      (a b : Walking) (r : Option Walking)
      → ((v : String) → is_in v a.visited ≡ true → is_in v b.visited ≡ true)
      → Stops b r
      → Stops a r
  earlier a b none m s = tt
  earlier a b (some w) m s = record { kept = λ v h. s.kept v (m v h); inv = s.inv; over = s.over }

  pub climb-Stops :
      (fuel : ℕ) (stack : List String) (w : Walking)
      → Inv w stack
      → Stops w (climb id_of tree es floor fuel stack w)
  unfolding climb
  climb-Stops fuel [] w i = record { kept = λ v h. h; inv = retell w [] i; over = ground arith }
  climb-Stops zero (id ∷ rest) w i = elim (Bool-cases (is_empty_list w.unmet)) [
    | inl y ↦ rw y (record { kept = λ v h. h; inv = retell w (id ∷ rest) i; over = ground arith })
    | inr n ↦ rw n tt
  ]
  climb-Stops (suc fuel) (id ∷ rest) w i =
      let next = step floor id (held_at id) (is_in id w.visited) (popped w rest) in
      let others = climb-Stops fuel next.stack next (step-Inv id rest w _ _ refl refl i) in
      elim (Bool-cases (is_empty_list w.unmet)) [
        | inl y ↦
            rw y (record { kept = λ v h. h; inv = retell w (id ∷ rest) i; over = ground arith })
        | inr n ↦ rw n (earlier w next _ (step-visited id rest w _ _) others)
      ]
