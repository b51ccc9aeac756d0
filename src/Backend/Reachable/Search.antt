-- ===== src/Backend/Reachable/Search.antt =====
-- About the walk of `check_targets_reachable_from` of crates/lib/src/backend/mod.rs: it ends, and what
-- is visited.
use eidetica.Base.{
  ℕ, zero, suc, ◌+◌, ◌≤◌, String, List, [], ◌∷◌, Bool, true, false, not, ◌&&◌, ◌||◌, some, length,
  str_eq, eq_iff, map, ◌≡◌, refl, ap, inl, inr, Bool-cases, arith,
}
use eidetica.Entry.{Entry, is_empty_list}
use eidetica.Backend.Storage.{is_in}
use eidetica.Backend.Storage.Read.{main_parents}
use eidetica.Backend.Storage.Read.Part.{get_entry-none}
use eidetica.Backend.Walk.{weight}
use eidetica.Backend.Walk.Ends.{weight-queued, weight-le}
use eidetica.Backend.Reachable.{
  Walking, Held, absent, foreign, own, remove_id, push_all, held, expand, step, popped, climb,
  parents_held, look_parents,
}

length-push_all :
    (ids stack : List String) → length (push_all ids stack) ≡ length ids + length stack
length-push_all [] stack = omega arith
length-push_all (id ∷ ids) stack = omega (arith, length-push_all ids (id ∷ stack))

pub is_in-push_all :
    (v : String) (ids stack : List String)
    → is_in v (push_all ids stack) ≡ (is_in v ids || is_in v stack)
is_in-push_all v [] stack = refl
is_in-push_all v (id ∷ ids) stack = ground (arith, is_in-push_all v ids (id ∷ stack))

pub is_in-remove :
    (v id : String) (ids : List String)
    → is_in v (remove_id id ids) ≡ (is_in v ids && not (str_eq v id))
is_in-remove v id [] = refl
is_in-remove v id (x ∷ ids) =
    ground (arith, is_in-remove v id ids, ap (λ u. str_eq u id), eq_iff x v)

module _ (id_of : Entry → String) (tree : String) (es : List Entry) where
  abbrev ids_of : List String
  ids_of = map id_of es

  abbrev left : List String → ℕ
  left visited = weight false (look_parents id_of tree es) visited ids_of

  no_parents : (id : String) → is_in id ids_of ≡ false → parents_held (held id_of tree es id) ≡ []
  unfolding held
  no_parents id h = rw (get_entry-none id_of id es h) refl

  length-expand :
      (floor : ℕ) (e : Entry) (stack : List String)
      → length (expand floor e stack) ≤ length (main_parents e) + length stack
  length-expand floor e stack = ground (arith, length-push_all (main_parents e) stack)

  step-lt :
      (floor : ℕ) (id : String) (rest : List String) (w : Walking) (h : Held) (b : Bool)
      → held id_of tree es id ≡ h
      → is_in id w.visited ≡ b
      → length (step floor id h b (popped w rest)).stack
          + left (step floor id h b (popped w rest)).visited
        ≤ length rest + left w.visited
  step-lt floor id rest w h true eh eb = omega arith
  step-lt floor id rest w absent false eh eb =
      omega (arith, weight-le false (look_parents id_of tree es) id w.visited ids_of)
  step-lt floor id rest w foreign false eh eb =
      omega (arith, weight-le false (look_parents id_of tree es) id w.visited ids_of)
  step-lt floor id rest w (own e) false eh eb = omega (
    arith,
    weight-queued false (look_parents id_of tree es) ids_of id w.visited (no_parents id) eb,
    length-expand floor e rest,
    ap (λ h. length (parents_held h)) eh,
  )

  pub climb_ends :
      (floor fuel : ℕ) (stack : List String) (w : Walking)
      → length stack + left w.visited ≤ fuel
      → (t : Walking) × (climb id_of tree es floor fuel stack w ≡ some t)
  unfolding climb
  climb_ends floor fuel [] w h = (popped w [], refl)
  climb_ends floor zero (id ∷ rest) w h = absurd (omega arith)
  climb_ends floor (suc fuel) (id ∷ rest) w h =
      let next = step floor id (held id_of tree es id) (is_in id w.visited) (popped w rest) in
      let less = step-lt floor id rest w (held id_of tree es id) (is_in id w.visited) refl refl in
      let (t, ends) = climb_ends floor fuel next.stack next (omega arith) in
      elim (Bool-cases (is_empty_list w.unmet)) [
        | inl y ↦ (popped w (id ∷ rest), rw y refl)
        | inr n ↦ (t, rw n ends)
      ]
