-- ===== src/Backend/Traversal/Paths/Rooted.antt =====
-- About `build_path_from_root` of crates/lib/src/backend/database/in_memory/traversal.rs.
use eidetica.Base.{
  ℕ, zero, suc, ◌+◌, ◌≤◌, String, List, [], ◌∷◌, true, false, Option, none, some, length, map,
  if◌then◌else◌, str_eq, eq_refl, eq_iff, ◌≡◌, ◌⊎◌, refl, Bool-cases, inl, inr, arith,
}
use eidetica.Base.Outcome.{Outcome, ok, err}
use eidetica.Entry.{Entry, is_root}
use eidetica.Backend.Error.{ReadError, entry_not_found, cycle_detected}
use eidetica.Backend.Storage.{is_in, get_entry}
use eidetica.Backend.Storage.Read.Part.{get_entry-none}
use eidetica.Backend.Traversal.Paths.{
  path_parents, first_of, after_entry, after_get, path_step, path_loop, build_path_from_root,
}

-- how many of the ids were not visited
abbrev unvisited : List String → List String → ℕ
unvisited seen [] = 0
unvisited seen (id ∷ ids) = (if is_in id seen then 0 else 1) + unvisited seen ids

unvisited-all : (id_of : Entry → String) (es : List Entry) → unvisited [] (map id_of es) ≡ length es
unvisited-all id_of [] = refl
unvisited-all id_of (e ∷ es) = ground (arith, unvisited-all id_of es)

unvisited-le : (v : String) (seen ids : List String) → unvisited (v ∷ seen) ids ≤ unvisited seen ids
unvisited-le v seen [] = omega arith
unvisited-le v seen (id ∷ ids) = ground (arith, unvisited-le v seen ids)

unvisited-visit :
    (v : String) (seen ids : List String)
    → is_in v ids ≡ true
    → is_in v seen ≡ false
    → suc (unvisited (v ∷ seen) ids) ≤ unvisited seen ids
unvisited-visit v seen [] h n = absurd (cc)
unvisited-visit v seen (id ∷ ids) h n = elim (Bool-cases (str_eq id v)) [
  | inl e ↦
      let same = (eq_iff id v).0 e in
      rw (same, eq_refl v, n) (omega (arith, unvisited-le v seen ids))
  | inr e ↦ ground (arith, unvisited-visit v seen ids (rw e at h) n)
]

module _ (id_of : Entry → String) (tree name : String) (es : List Entry) where
  -- a stored entry where the way up ends: the root, an entry that is one, or one without parents
  unfoldable pub EndsAt : String → Type 0
  unfolding get_entry is_root path_parents
  EndsAt v =
      (e : Entry) × (get_entry id_of v es ≡ some e)
      × ((str_eq v tree ≡ true) ⊎ ((is_root e ≡ true) ⊎ (path_parents name e ≡ [])))

  -- a stored entry where it does not, and the first of its parents
  unfoldable pub FirstParent : String → String → Type 0
  unfolding get_entry is_root path_parents
  FirstParent v p =
      (e : Entry) × (ps : List String) × (get_entry id_of v es ≡ some e)
      × (str_eq v tree ≡ false)
      × (is_root e ≡ false)
      × (path_parents name e ≡ p ∷ ps)

  -- a way of first parents up from the target, the last one at the head
  pub data Chain (target : String) : List String → Type 0 where
    here : Chain target (target ∷ [])
    up :
        {v p : String} {path : List String}
        → Chain target (v ∷ path)
        → FirstParent v p
        → Chain target (p ∷ (v ∷ path))

  -- each id of the path differs from the later ones
  abbrev pub NoneTwice : List String → Type 0
  NoneTwice [] = Unit
  NoneTwice (v ∷ vs) = (is_in v vs ≡ false) × NoneTwice vs

  abbrev pub RootSays : String → Outcome ReadError (List String) → Type 0
  RootSays target (ok path) =
      (v : String) × (rest : List String) × (path ≡ v ∷ rest)
      × Chain target (v ∷ rest)
      × NoneTwice (v ∷ rest)
      × EndsAt v
  RootSays target (err e) =
      (v : String) × (rest : List String) × Chain target (v ∷ rest)
      × (((e ≡ cycle_detected v) × (is_in v rest ≡ true))
          ⊎ ((e ≡ entry_not_found v) × (get_entry id_of v es ≡ none)))

  -- what a turn comes to
  abbrev StepSays : String → List String → Outcome ReadError (Option String) → Type 0
  StepSays v rest (err e) =
      ((e ≡ cycle_detected v) × (is_in v rest ≡ true))
      ⊎ ((e ≡ entry_not_found v) × (get_entry id_of v es ≡ none))
  StepSays v rest (ok none) = (is_in v rest ≡ false) × EndsAt v
  StepSays v rest (ok (some p)) = (is_in v rest ≡ false) × FirstParent v p

  StepSays-first :
      (v : String) (rest : List String) (e : Entry) (ids : List String)
      → is_in v rest ≡ false
      → get_entry id_of v es ≡ some e
      → str_eq v tree ≡ false
      → is_root e ≡ false
      → path_parents name e ≡ ids
      → StepSays v rest (ok (first_of ids))
  StepSays-first v rest e [] n there o r q = (n, unfold EndsAt in (e, there, inr (inr q)))
  StepSays-first v rest e (p ∷ ps) n there o r q =
      (n, unfold FirstParent in (e, ps, there, o, r, q))

  StepSays-entry :
      (v : String) (rest : List String) (e : Entry)
      → is_in v rest ≡ false
      → get_entry id_of v es ≡ some e
      → StepSays v rest (ok (after_entry tree name v e))
  unfolding after_entry
  StepSays-entry v rest e n there = elim (Bool-cases (str_eq v tree)) [
    | inl y ↦ rw y (n, unfold EndsAt in (e, there, inl y))
    | inr o ↦ elim (Bool-cases (is_root e)) [
      | inl y ↦ rw (o, y) (n, unfold EndsAt in (e, there, inr (inl y)))
      | inr r ↦ rw (o, r) (StepSays-first v rest e (path_parents name e) n there o r refl)
    ]
  ]

  StepSays-get :
      (v : String) (rest : List String) (o : Option Entry)
      → is_in v rest ≡ false
      → get_entry id_of v es ≡ o
      → StepSays v rest (after_get tree name v o)
  unfolding after_get
  StepSays-get v rest none n there = inr (refl, there)
  StepSays-get v rest (some e) n there = StepSays-entry v rest e n there

  step-Says :
      (v : String) (rest : List String) → StepSays v rest (path_step id_of tree name es v rest)
  unfolding path_step
  step-Says v rest = elim (Bool-cases (is_in v rest)) [
    | inl y ↦ rw y (inl (refl, y))
    | inr n ↦ rw n (StepSays-get v rest (get_entry id_of v es) n refl)
  ]

  -- an id with another after it is stored
  FirstParent-stored : (v p : String) → FirstParent v p → is_in v (map id_of es) ≡ true
  unfolding FirstParent
  FirstParent-stored v p (e, ps, there, o, r, q) = elim (Bool-cases (is_in v (map id_of es))) [
    | inl y ↦ y
    | inr n ↦ absurd (cc (there, get_entry-none id_of v es n))
  ]

  abbrev Reaches : String → ℕ → String → List String → Type 0
  Reaches target fuel v rest =
      (r : Outcome ReadError (List String)) × (path_loop id_of tree name es fuel v rest ≡ some r)
      × RootSays target r

  -- one turn, from what the further turns come to
  turn-Says :
      (target : String) (fuel : ℕ) (v : String) (rest : List String)
      → Chain target (v ∷ rest)
      → NoneTwice rest
      → suc (unvisited rest (map id_of es)) ≤ suc fuel
      → ((p : String)
          → Chain target (p ∷ (v ∷ rest))
          → NoneTwice (v ∷ rest)
          → suc (unvisited (v ∷ rest) (map id_of es)) ≤ fuel
          → Reaches target fuel p (v ∷ rest))
      → (m : Outcome ReadError (Option String)) → path_step id_of tree name es v rest ≡ m
      → StepSays v rest m
      → Reaches target (suc fuel) v rest
  unfolding path_loop
  turn-Says target fuel v rest c d h again (err e) q says =
      (err e, rw (path_loop, q) refl, (v, rest, c, says))
  turn-Says target fuel v rest c d h again (ok none) q (n, ends) =
      (ok (v ∷ rest), rw (path_loop, q) refl, (v, rest, refl, c, (n, d), ends))
  turn-Says target fuel v rest c d h again (ok (some p)) q (n, parent) =
      let less = unvisited-visit v rest (map id_of es) (FirstParent-stored v p parent) n in
      let (r, e, says) = again p (up c parent) (n, d) (omega arith) in
      (r, rw (path_loop, q) e, says)

  loop-Says :
      (target : String) (fuel : ℕ) (v : String) (rest : List String)
      → Chain target (v ∷ rest)
      → NoneTwice rest
      → suc (unvisited rest (map id_of es)) ≤ fuel
      → Reaches target fuel v rest
  loop-Says target zero v rest c d h = absurd (omega arith)
  loop-Says target (suc fuel) v rest c d h =
      turn-Says target fuel v rest c d h (λ p. loop-Says target fuel p (v ∷ rest))
        (path_step id_of tree name es v rest) refl (step-Says v rest)

  -- `build_path_from_root` ends for any graph and target. Either it answers with a path without
  -- repeats, in which each entry is the first parent of the next one and the last one is the target,
  -- and which starts at a stored entry that is the root of the tree, or is a root, or has no parents.
  -- Or the way of first parents comes to an id that it came to before, which is the cycle that the
  -- answer names, or to one that is not stored, which the answer names as not found.
  pub build_path_from_root-Says :
      (target : String)
      → (r : Outcome ReadError (List String)) × (build_path_from_root id_of tree name es target
          ≡ some r)
        × RootSays target r
  unfolding build_path_from_root
  build_path_from_root-Says target =
      loop-Says target (suc (length es)) target [] here tt (omega (arith, unvisited-all id_of es))
