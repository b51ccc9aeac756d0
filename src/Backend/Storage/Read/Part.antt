-- ===== src/Backend/Storage/Read/Part.antt =====
-- About the loop that `get_tree_from_tips` and `store_at` run, of
-- crates/lib/src/backend/database/in_memory/storage.rs.
use eidetica.Base.{
  String, List, [], ◌∷◌, ◌++◌, Bool, true, false, ◌&&◌, ◌||◌, Option, none, some, map, ◌≡◌, refl,
  sym, subst, ap, ◌∙◌, ◌↔◌, str_eq, eq_refl, eq_iff, Bool-cases, inl, inr, arith,
}
use eidetica.Base.Outcome.{ok, Outcome-cases}
use eidetica.Entry.{Entry}
use eidetica.Backend.Error.{ReadError}
use eidetica.Backend.Storage.{is_in, get_entry, contains}
use eidetica.Backend.Storage.Read.{look_up, look_in, collect, held_tips, tip_belongs}
use eidetica.Backend.Walk.{Look, halt, see, Walked, run, queued_of, found_of, is_see, is_drop}
use eidetica.Backend.Walk.Ends.{run_ends}
use eidetica.Backend.Walk.Rule.{values_at, Gathered, run-Gathered, AfterWalk}
use eidetica.Backend.Walk.Reach.{
  at_start, at_named, Reached, Inv, Kept, Halts, run-Kept, complete-see,
}

module _ (id_of : Entry → String) where
  -- looking for what is there
  get_entry-id :
      (v : String) (xs : List Entry) (e : Entry)
      → get_entry id_of v xs ≡ some e
      → str_eq (id_of e) v ≡ true
  unfolding get_entry
  get_entry-id v [] e h = absurd (cc)
  get_entry-id v (x ∷ xs) e h = elim (Bool-cases (str_eq (id_of x) v)) [
    | inl y ↦ ground arith
    | inr n ↦ get_entry-id v xs e (rw n at h)
  ]

  pub get_entry-none :
      (v : String) (xs : List Entry) → is_in v (map id_of xs) ≡ false → get_entry id_of v xs ≡ none
  unfolding get_entry
  get_entry-none v [] h = refl
  get_entry-none v (x ∷ xs) h = ground (arith, get_entry-none v xs)

  contains-append :
      (v : String) (xs ys : List Entry)
      → contains id_of v (xs ++ ys) ≡ (contains id_of v xs || contains id_of v ys)
  unfolding contains
  contains-append v [] ys = refl
  contains-append v (x ∷ xs) ys = ground (arith, contains-append v xs ys)

module _ (id_of : Entry → String) (belongs : Entry → Bool) (parents : Entry → List String)
    (es : List Entry) where
  -- The entries that belong, among the tips and among the parents of such entries.
  pub data Part (tips : List String) : String → Type 0 where
    at_tip :
        {v : String} {e : Entry}
        → is_in v tips ≡ true
        → get_entry id_of v es ≡ some e
        → belongs e ≡ true
        → Part tips v
    at_parent :
        {u v : String} {d e : Entry}
        → Part tips u
        → get_entry id_of u es ≡ some d
        → is_in v (parents d) ≡ true
        → get_entry id_of v es ≡ some e
        → belongs e ≡ true
        → Part tips v

  abbrev look : String → Look ReadError Entry
  look = look_in id_of belongs parents es

  -- an entry that is seen is there and belongs
  see-look_up :
      (o : Option Entry)
      → is_see (look_up id_of belongs parents o) ≡ true
      → (e : Entry) × (o ≡ some e) × (belongs e ≡ true)
  see-look_up none h = absurd (cc)
  see-look_up (some e) h = (e, refl, ground arith)

  look_up-see :
      (o : Option Entry) (e : Entry)
      → o ≡ some e
      → belongs e ≡ true
      → look_up id_of belongs parents o ≡ see (parents e) (e ∷ [])
  look_up-see o e h b = rw (h, b) refl

  drop_or_see :
      (o : Option Entry)
      → is_drop (look_up id_of belongs parents o) ≡ false
      → is_see (look_up id_of belongs parents o) ≡ true
  drop_or_see none h = absurd (cc)
  drop_or_see (some e) h = ground arith

  queued-see :
      (o : Option Entry) (v : String)
      → is_in v (queued_of (look_up id_of belongs parents o)) ≡ true
      → is_see (look_up id_of belongs parents o) ≡ true
  queued-see none v h = absurd (cc)
  queued-see (some e) v h = ground arith

  queued_lem :
      (o : Option Entry) (d : Entry)
      → o ≡ some d
      → is_see (look_up id_of belongs parents o) ≡ true
      → queued_of (look_up id_of belongs parents o) ≡ parents d
  queued_lem o d h s = rw h (shown d (rw h at s))
    where
      shown :
          (d : Entry)
          → is_see (look_up id_of belongs parents (some d)) ≡ true
          → queued_of (look_up id_of belongs parents (some d)) ≡ parents d
      shown d s = ground arith

  abbrev R : List String → String → Type 0
  R tips = Reached true look tips []

  to-Part : (tips : List String) (v : String) → R tips v → is_see (look v) ≡ true → Part tips v
  to-Part tips v (at_start t b) h =
      let (e, there, own) = see-look_up (get_entry id_of v es) h in at_tip t there own
  to-Part tips v (at_named {u} r q b) h =
      let seen = queued-see (get_entry id_of u es) v q in
      let (d, there_d, own_d) = see-look_up (get_entry id_of u es) seen in
      let (e, there, own) = see-look_up (get_entry id_of v es) h in
      at_parent (to-Part tips u r seen) there_d
        (subst (λ (ids : List String). is_in v ids ≡ true) (queued_lem _ d there_d seen) q) there
        own

  of-Part : (tips : List String) (v : String) → Part tips v → R tips v × (is_see (look v) ≡ true)
  of-Part tips v (at_tip t there own) = (at_start t refl, ap is_see (look_up-see _ _ there own))
  of-Part tips v (at_parent {u} {d = d} p there_d m there own) = (
    at_named (of-Part tips u p).0 (rw (queued_lem _ d there_d (of-Part tips u p).1) m) refl,
    ap is_see (look_up-see _ _ there own),
  )

  contains-look_up :
      (v u : String) (o : Option Entry)
      → ((e : Entry) → o ≡ some e → str_eq (id_of e) u ≡ true)
      → is_see (look_up id_of belongs parents o) ≡ true
      → contains id_of v (found_of (look_up id_of belongs parents o)) ≡ str_eq u v
  unfolding contains
  contains-look_up v u none own h = absurd (cc)
  contains-look_up v u (some e) own h =
      let same : str_eq (id_of e) v ≡ str_eq u v =
        ap (λ w. str_eq w v) ((eq_iff (id_of e) u).0 (own e refl)) in
      ground arith

  contains-found :
      (v u : String) → is_see (look u) ≡ true → contains id_of v (found_of (look u)) ≡ str_eq u v
  contains-found v u h = contains-look_up v u (get_entry id_of u es) (get_entry-id id_of u es) h

  contains-values :
      (v : String) (seen : List String)
      → ((u : String) → is_in u seen ≡ true → is_see (look u) ≡ true)
      → contains id_of v (values_at true look seen) ≡ is_in v seen
  contains-values v [] h = unfold contains in refl
  contains-values v (u ∷ seen) h =
      contains-append id_of v (values_at true look seen) (found_of (look u))
      ∙ ground (
        arith,
        contains-values v seen (λ w m. h w (ground arith)),
        contains-found v u (h u (rw (eq_refl u) refl)),
      )

  never_halts : (o : Option Entry) (e : ReadError) → ¬ (look_up id_of belongs parents o ≡ halt e)
  never_halts none e h = cc
  never_halts (some d) e h = ground arith

  names-look : (v : String) → is_in v (map id_of es) ≡ false → queued_of (look v) ≡ []
  names-look v h =
      ap (λ o. queued_of (look_up id_of belongs parents o)) (get_entry-none id_of v es h)

  contains-Part :
      (tips : List String) (w : Walked Entry)
      → Inv true look tips [] [] w.seen
      → Gathered true look [] w
      → (v : String) → (contains id_of v w.found ≡ true) ↔ Part tips v
  contains-Part tips w inv g v =
      let same : contains id_of v w.found ≡ is_in v w.seen =
        ap (contains id_of v) g.1 ∙ contains-values v w.seen (λ u m. inv.seen_see u m refl) in
      (
        λ m.
            let s : is_in v w.seen ≡ true = sym same ∙ m in
            to-Part tips v (inv.sound v s refl) (inv.seen_see v s refl),
        λ p.
            let (r, s) = of-Part tips v p in same ∙ complete-see true look tips [] w.seen v inv r s,
      )

  -- the loop ends, and finds the entries of that part
  pub collect-Part :
      (tips : List String)
      → (w : Walked Entry) × (collect id_of belongs parents es tips ≡ some (ok w))
        × ((v : String) → (contains id_of v w.found ≡ true) ↔ Part tips v)
  unfolding collect
  collect-Part tips =
      let (r, e) = run_ends true look (map id_of es) tips [] names-look in
      elim (Outcome-cases r) [
        | inl (w, q) ↦
            let ends : run true look (map id_of es) tips [] ≡ some (ok w) = e ∙ ap some q in
            (
              w,
              ends,
              contains-Part tips w
                  (subst (AfterWalk true look (Kept true look tips []) (Halts true look tips []))
                    ends (run-Kept true look tips [] (map id_of es)))
                  (subst (AfterWalk true look (Gathered true look) (λ e. Unit)) ends
                    (run-Gathered true look (map id_of es) tips)),
            )
        | inr (x, q) ↦
            let halted : Halts true look tips [] x =
              (subst (AfterWalk true look (Kept true look tips []) (Halts true look tips []))
                (e ∙ ap some q) (run-Kept true look tips [] (map id_of es))) in
            absurd (never_halts _ x halted.2)
      ]

  pub nothing : {v : String} → ¬ Part [] v
  nothing (at_tip t there own) = cc
  nothing (at_parent p there_d m there own) = nothing p

  -- no tips, no entries
  pub none-Part : (v : String) → (contains id_of v [] ≡ true) ↔ Part [] v
  unfolding contains
  none-Part v = (λ m. absurd (cc), λ p. absurd (nothing p))

  held-tip :
      (tips : List String) (v : String)
      → is_in v (held_tips id_of belongs es tips)
        ≡ (is_in v tips && tip_belongs belongs (get_entry id_of v es))
  held-tip [] v = refl
  held-tip (tip ∷ tips) v =
      ground (arith, held-tip tips v, ap (λ w. get_entry id_of w es), eq_iff tip v)

  -- tips that do not belong add nothing
  held-Part :
      (tips : List String) {v : String} → Part (held_tips id_of belongs es tips) v → Part tips v
  held-Part tips {v} (at_tip t there own) = at_tip (ground (arith, held-tip tips v)) there own
  held-Part tips (at_parent p there_d m there own) =
      at_parent (held-Part tips p) there_d m there own

  Part-held :
      (tips : List String) {v : String} → Part tips v → Part (held_tips id_of belongs es tips) v
  Part-held tips {v} (at_tip t there own) =
      at_tip (held-tip tips v ∙ rw (t, there, own) refl) there own
  Part-held tips (at_parent p there_d m there own) =
      at_parent (Part-held tips p) there_d m there own

  pub held_iff :
      (tips : List String) (v : String) → Part (held_tips id_of belongs es tips) v ↔ Part tips v
  held_iff tips v = (held-Part tips, Part-held tips)
