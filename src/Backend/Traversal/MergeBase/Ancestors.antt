-- ===== src/Backend/Traversal/MergeBase/Ancestors.antt =====
-- About `collect_ancestors` of
-- crates/lib/src/backend/database/in_memory/traversal.rs.
use eidetica.Base.{
  String, List, [], ◌∷◌, true, false, Option, none, some, eq_refl, eq_iff, map, ◌≡◌, refl, subst,
  ap, ◌∙◌, ◌↔◌, inl, inr, arith,
}
use eidetica.Base.Outcome.{Outcome, ok, err, Outcome-cases}
use eidetica.Entry.{Entry, EntryError, subtree_parents}
use eidetica.Backend.Error.{ReadError}
use eidetica.Backend.Storage.{is_in, get_entry, parents_in}
use eidetica.Backend.Storage.Read.Part.{get_entry-none}
use eidetica.Backend.Traversal.MergeBase.{look_ancestor, parents_or_none, collect_ancestors}
use eidetica.Backend.Traversal.MergeBase.Climb.{parents_at, parents_of}
use eidetica.Backend.Walk.{Look, halt, queued_of, is_see}
use eidetica.Backend.Walk.Ends.{run_ends}
use eidetica.Backend.Walk.Rule.{AfterWalk}
use eidetica.Backend.Walk.Reach.{at_start, at_named, Reached, Kept, Halts, run-Kept, complete-see}

queued-ancestor :
    (name : String) (o : Option Entry) → queued_of (look_ancestor name o) ≡ parents_at name o
unfolding look_ancestor parents_at
queued-ancestor name none = refl
queued-ancestor name (some e) = queued-none (subtree_parents name e)
  where
    queued-none :
        (m : Outcome EntryError (List String))
        → queued_of (parents_or_none {F = ReadError} m) ≡ parents_in m
    queued-none (ok ids) = refl
    queued-none (err x) = refl

see-ancestor : (name : String) (o : Option Entry) → is_see (look_ancestor name o) ≡ true
unfolding look_ancestor
see-ancestor name none = refl
see-ancestor name (some e) = see-none (subtree_parents name e)
  where
    see-none :
        (m : Outcome EntryError (List String)) → is_see (parents_or_none {F = ReadError} m) ≡ true
    see-none (ok ids) = refl
    see-none (err x) = refl

never_halts : (name : String) (o : Option Entry) (e : ReadError) → ¬ (look_ancestor name o ≡ halt e)
never_halts name o e h = absurd (cc (see-ancestor name o, ap is_see h))

module _ (id_of : Entry → String) (name : String) (es : List Entry) where
  -- an entry, its parents in the store, their parents, and so on
  pub data Ancestor (id : String) : String → Type 0 where
    self : Ancestor id id
    older :
        {u v : String} → Ancestor id u → is_in v (parents_of id_of name es u) ≡ true → Ancestor id v

  abbrev look : String → Look ReadError String
  look v = look_ancestor name (get_entry id_of v es)

  names-look : (v : String) → is_in v (map id_of es) ≡ false → queued_of (look v) ≡ []
  unfolding parents_at
  names-look v h =
      queued-ancestor name (get_entry id_of v es)
      ∙ ap (parents_at name) (get_entry-none id_of v es h)

  to-Ancestor : (id v : String) → Reached false look (id ∷ []) [] v → Ancestor id v
  to-Ancestor id v (at_start t b) = subst (Ancestor id) ((eq_iff id v).0 (ground arith)) self
  to-Ancestor id v (at_named {u} r m b) =
      older (to-Ancestor id u r) (rw (← queued-ancestor name (get_entry id_of u es)) m)

  of-Ancestor : (id : String) {v : String} → Ancestor id v → Reached false look (id ∷ []) [] v
  of-Ancestor id self = at_start (rw (eq_refl id) refl) refl
  of-Ancestor id (older {u} a m) =
      at_named (of-Ancestor id a) (rw (queued-ancestor name (get_entry id_of u es)) m) refl

  -- `collect_ancestors` ends without an error, and an id is in its answer if and only if it is the
  -- entry, or is reached from it by parents in the store.
  pub collect_ancestors-Ancestor :
      (id : String)
      → (set : List String) × (collect_ancestors id_of name es id ≡ some (ok set))
        × ((v : String) → (is_in v set ≡ true) ↔ Ancestor id v)
  unfolding collect_ancestors
  collect_ancestors-Ancestor id =
      let (r, ends) = run_ends false look (map id_of es) (id ∷ []) [] names-look in
      let H = Kept false look (id ∷ []) [] in
      let X = Halts false look (id ∷ []) [] in
      let held = run-Kept false look (id ∷ []) [] (map id_of es) in
      elim (Outcome-cases r) [
        | inl (w, q) ↦
            let inv = subst (AfterWalk false look H X) (ends ∙ ap some q) held in
            (
              w.seen,
              rw (ends, q) refl,
              λ v. (
                λ m. to-Ancestor id v (inv.sound v m refl),
                λ a.
                    complete-see false look (id ∷ []) [] w.seen v inv (of-Ancestor id a)
                      (see-ancestor name (get_entry id_of v es)),
              ),
            )
        | inr (x, q) ↦
            let (v, r, l) = subst (AfterWalk false look H X) (ends ∙ ap some q) held in
            absurd (never_halts name (get_entry id_of v es) x l)
      ]
