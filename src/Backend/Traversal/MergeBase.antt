-- ===== src/Backend/Traversal/MergeBase.antt =====
-- The common part of every way up from some entries: `find_merge_base`, `collect_ancestors`,
-- `get_subtree_height` and `all_paths_pass_through` of
-- crates/lib/src/backend/database/in_memory/traversal.rs.
pub mod Climb
pub mod Passes
pub mod Ancestors
pub mod Lowest
use Prim.Native.Nat.{Ordering, compare}
use eidetica.Base.{
  ℕ, String, List, [], ◌∷◌, Bool, true, false, not, Option, none, some, if◌then◌else◌, str_eq, keep,
  map,
}
use eidetica.Base.Outcome.{Outcome, ok, err, ok_or, map_err, ◌>>=◌, ◌>>◌}
use eidetica.Base.Sort.{sort_by}
use eidetica.Entry.{Entry, subtree_parents, subtree_height, is_empty_list}
use eidetica.Entry.Validate.{validate}
use eidetica.Backend.Storage.{InMemoryInner, is_in, get_entry, in_tree}
use eidetica.Backend.Error.{
  ReadError, entry_not_found, entry_not_in_tree, empty_entry_list, no_common_ancestor,
  entry_validation_failed, Ran, ◌>>?◌,
}
use eidetica.Backend.Walk.{Look, halt, see, Walked, run}

-- `Result::unwrap_or_else` on the height of a store
abbrev pub height_or_else {ℓ} : {E : Type ℓ} → ℕ → Outcome E ℕ → ℕ
height_or_else h (ok own) = own
height_or_else h (err e) = h

-- `sort_by_key(|b| Reverse(b.1))`
abbrev pub highest_first : String × ℕ → String × ℕ → Ordering
highest_first a b = compare b.1 a.1

-- `retain` by each of the further sets
abbrev pub retain_common : List (List String) → List String → List String
retain_common [] common = common
retain_common (ids ∷ sets) common = retain_common sets (keep (λ id. is_in id ids) common)

abbrev pub common_of : List (List String) → List String
common_of [] = []
common_of (ids ∷ sets) = retain_common sets ids

abbrev pub seen_ids : Ran (Walked String) → Ran (List String)
seen_ids r = r >>? λ w. some (ok w.seen)

-- A missing entry and one that takes no part in the store have no parents there.
abbrev pub parents_or_none {ℓ κ} :
    {E : Type ℓ} {F : Type κ} → Outcome E (List String) → Look F String
parents_or_none (ok ids) = see ids []
parents_or_none (err x) = see [] []

unfoldable pub look_ancestor : String → Option Entry → Look ReadError String
unfolding subtree_parents
look_ancestor name none = see [] []
look_ancestor name (some e) = parents_or_none (subtree_parents name e)

-- The way ends at an entry with no parents in the store, or that takes no part in it.
abbrev pub parents_or_stop {ℓ} : {E : Type ℓ} → Outcome E (List String) → Look (Unit {0}) String
parents_or_stop (ok []) = halt tt
parents_or_stop (ok (id ∷ ids)) = see (id ∷ ids) []
parents_or_stop (err x) = halt tt

unfoldable pub look_bypass : String → Option Entry → Look (Unit {0}) String
unfolding subtree_parents
look_bypass name none = see [] []
look_bypass name (some e) = parents_or_stop (subtree_parents name e)

abbrev pub no_bypass : Option (Outcome (Unit {0}) (Walked String)) → Option Bool
no_bypass none = none
no_bypass (some (ok w)) = some true
no_bypass (some (err _)) = some false

-- the first candidate that all pass through
abbrev pub decide : String → Ran String → Option Bool → Ran String
decide candidate others none = none
decide candidate others (some true) = some (ok candidate)
decide candidate others (some false) = others

abbrev pub both_pass : Option Bool → Option Bool → Option Bool
both_pass none others = none
both_pass (some true) others = others
both_pass (some false) others = some false

abbrev pub run_after : Outcome ReadError (Unit {0}) → Ran String → Ran String
run_after (ok _) r = r
run_after (err e) r = some (err e)

module _ (id_of : Entry → String) where
  unfoldable pub collect_ancestors : String → List Entry → String → Ran (List String)
  unfolding run get_entry look_ancestor
  collect_ancestors name es id =
      seen_ids
        (run false (λ v. look_ancestor name (get_entry id_of v es)) (map id_of es) (id ∷ []) [])

  unfoldable pub all_paths_pass_through : String → List Entry → String → String → Option Bool
  unfolding run get_entry look_bypass
  all_paths_pass_through name es id candidate =
      let climbed =
        run false (λ v. look_bypass name (get_entry id_of v es)) (map id_of es) (id ∷ [])
          (candidate ∷ []) in
      if str_eq id candidate then some true else no_bypass climbed

  unfoldable pub height_at : String → Option Entry → ℕ
  unfolding subtree_height
  height_at name none = 0
  height_at name (some e) = height_or_else (e.tree).height (subtree_height name e)

  unfoldable pub get_subtree_height : String → List Entry → String → ℕ
  unfolding get_entry height_at
  get_subtree_height name es id = height_at name (get_entry id_of id es)

  -- the loop that checks the given entries
  unfoldable pub verify_entries : String → List Entry → List String → Outcome ReadError (Unit {0})
  unfolding get_entry in_tree validate
  verify_entries tree es [] = ok tt
  verify_entries tree es (id ∷ ids) = do
    e ← ok_or (entry_not_found id) (get_entry id_of id es)
    map_err (entry_validation_failed id) (validate e)
    (if in_tree id_of tree e then ok tt else err (entry_not_in_tree id tree))
    verify_entries tree es ids

  unfoldable pub ancestor_sets : String → List Entry → List String → Ran (List (List String))
  unfolding collect_ancestors
  ancestor_sets name es [] = some (ok [])
  ancestor_sets name es (id ∷ ids) =
      let rest = ancestor_sets name es ids in
      collect_ancestors name es id >>? λ set. rest >>? λ sets. some (ok (set ∷ sets))

  -- the loop over the entries, which stops at the first that has a way around the candidate
  unfoldable pub all_pass : String → List Entry → List String → String → Option Bool
  unfolding all_paths_pass_through
  all_pass name es [] candidate = some true
  all_pass name es (id ∷ ids) candidate =
      let rest = all_pass name es ids candidate in
      both_pass (all_paths_pass_through name es id candidate) rest

  -- the loop over the candidates
  unfoldable pub first_base : String → List Entry → List String → List (String × ℕ) → Ran String
  unfolding all_pass
  first_base name es ids [] = some (err (no_common_ancestor ids))
  first_base name es ids ((candidate, height) ∷ candidates) =
      let others = first_base name es ids candidates in
      decide candidate others (all_pass name es ids candidate)

  abbrev pub candidates_of : String → List Entry → List String → List (String × ℕ)
  candidates_of name es ids =
      sort_by highest_first (map (λ id. (id, get_subtree_height name es id)) ids)

  abbrev pub base_among : String → List Entry → List String → List String → Ran String
  base_among name es ids common =
      if is_empty_list common
      then some (err (no_common_ancestor ids))
      else first_base name es ids (candidates_of name es common)

  -- A set of ids is walked through in the order of the list that stands for it.
  unfoldable pub find_merge_base : String → String → List String → InMemoryInner → Ran String
  unfolding verify_entries ancestor_sets first_base get_subtree_height
  find_merge_base tree name [] s = some (err (empty_entry_list "find_merge_base"))
  find_merge_base tree name (id ∷ []) s = some (ok id)
  find_merge_base tree name (id ∷ (next ∷ ids)) s =
      let all = id ∷ (next ∷ ids) in
      run_after (verify_entries tree s.entries all) (
        ancestor_sets name s.entries all >>? λ sets. base_among name s.entries all (common_of sets))
