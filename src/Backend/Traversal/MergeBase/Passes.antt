-- ===== src/Backend/Traversal/MergeBase/Passes.antt =====
-- About `all_paths_pass_through` of
-- crates/lib/src/backend/database/in_memory/traversal.rs.
use eidetica.Base.{
  String, List, [], ◌∷◌, true, false, some, str_eq, str_eq_comm, eq_refl, map, ◌≡◌, refl, sym,
  subst, ap, ◌∙◌, ◌⊎◌, Bool-cases, inl, inr, arith,
}
use eidetica.Base.Outcome.{Outcome-cases}
use eidetica.Entry.{Entry}
use eidetica.Backend.Storage.{is_in, get_entry}
use eidetica.Backend.Storage.Read.Part.{get_entry-none}
use eidetica.Backend.Traversal.MergeBase.{look_bypass, all_paths_pass_through}
use eidetica.Backend.Traversal.MergeBase.Climb.{
  parents_at, queued-bypass, see-bypass, is_top, Climb, stop, Climb-head, Climb-passes, Climb-from,
  same_in,
}
use eidetica.Backend.Walk.{Look, halt, queued_of, is_see}
use eidetica.Backend.Walk.Ends.{run_ends}
use eidetica.Backend.Walk.Rule.{AfterWalk}
use eidetica.Backend.Walk.Reach.{at_start, Reached, Kept, Halts, run-Kept, unblocked}

module _ (id_of : Entry → String) (name : String) (es : List Entry) where
  -- every way up from one entry passes through another
  abbrev pub AllPass : String → String → Type 0
  AllPass id candidate =
      (path : List String) → Climb id_of name es id path → is_in candidate path ≡ true

  -- some way up from one entry avoids another
  abbrev pub Bypass : String → String → Type 0
  Bypass id candidate =
      (path : List String) × Climb id_of name es id path × (is_in candidate path ≡ false)

  abbrev look : String → Look (Unit {0}) String
  look v = look_bypass name (get_entry id_of v es)

  names-look : (v : String) → is_in v (map id_of es) ≡ false → queued_of (look v) ≡ []
  unfolding parents_at
  names-look v h =
      queued-bypass name (get_entry id_of v es) ∙ ap (parents_at name) (get_entry-none id_of v es h)

  halt-Bypass :
      (id candidate v : String) (x : Unit {0})
      → Reached false look (id ∷ []) (candidate ∷ []) v
      → look v ≡ halt x
      → Bypass id candidate
  halt-Bypass id candidate v x r l =
      let top : is_top id_of name es v ≡ true =
        ground (arith, see-bypass name (get_entry id_of v es), ap is_see l) in
      Climb-from id_of name es id candidate r (stop top) (
        ground
          (arith, unblocked false look (id ∷ []) (candidate ∷ []) v r, str_eq_comm v candidate))

  -- `all_paths_pass_through` ends, also in a graph with a cycle. It answers true where every way up
  -- from the entry to one without parents in the store passes through the candidate, and false
  -- where some way up avoids it.
  pub all_paths_pass_through-Decides :
      (id candidate : String)
      → ((all_paths_pass_through id_of name es id candidate ≡ some true) × AllPass id candidate)
        ⊎ ((all_paths_pass_through id_of name es id candidate ≡ some false) × Bypass id candidate)
  unfolding all_paths_pass_through
  all_paths_pass_through-Decides id candidate = elim (Bool-cases (str_eq id candidate)) [
    | inl e ↦ inl (
      rw e refl,
      λ path c.
          sym (same_in id_of name es id candidate path e) ∙ Climb-head id_of name es id path c,
    )
    | inr e ↦
        let (r, ends) = run_ends false look (map id_of es) (id ∷ []) (candidate ∷ []) names-look in
        let H = Kept false look (id ∷ []) (candidate ∷ []) in
        let X = Halts false look (id ∷ []) (candidate ∷ []) in
        let held = run-Kept false look (id ∷ []) (candidate ∷ []) (map id_of es) in
        let start : Reached false look (id ∷ []) (candidate ∷ []) id =
          at_start (rw (eq_refl id) refl) (rw (str_eq_comm candidate id, e) refl) in
        elim (Outcome-cases r) [
          | inl (w, q) ↦ inl (
            rw (e, ends, q) refl,
            λ path c.
                Climb-passes id_of name es id candidate w.seen
                  (subst (AfterWalk false look H X) (ends ∙ ap some q) held) start c,
          )
          | inr (x, q) ↦ inr (
            rw (e, ends, q) refl,
            let (v, r, l) = subst (AfterWalk false look H X) (ends ∙ ap some q) held in
                halt-Bypass id candidate v x r l,
          )
        ]
  ]
