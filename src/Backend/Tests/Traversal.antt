-- ===== src/Backend/Tests/Traversal.antt =====
-- The theorems on the traversals at two writers of one store, who both start from one entry.
use eidetica.Base.{ℕ, String, List, [], ◌∷◌, none, some, ◌≡◌, refl, str_eq, if◌then◌else◌}
use eidetica.Base.Outcome.{Outcome, ok, err}
use eidetica.Entry.{Entry, in_subtree, is_root, subtree_parents, subtree_height}
use eidetica.Backend.Assoc.{find}
use eidetica.Auth.Delegation.{reachable}
use eidetica.Backend.Storage.{
  InMemoryInner, get_entry, in_tree, in_store, is_in, subtree_tips_of, tree_tips_of, is_tip,
}
use eidetica.Backend.Storage.Read.{
  check_tips, get_tree_from_tips, store_at, tree_height, store_height, main_parents, store_parents,
}
use eidetica.Backend.Storage.Read.Part.{Part}
use eidetica.Backend.Storage.Read.Laws.{IsRead, get_tree_from_tips-IsRead, store_at-IsRead}
use eidetica.Backend.Storage.Tips.{put_all}
use eidetica.Backend.Walk.{Look, see, run, walk}
use eidetica.Backend.Reachable.{check_targets_reachable_from, add_targets, add_tips, climb, held}
use eidetica.Backend.Reachable.Verdict.{Says, check_targets_reachable_from-Says}
use eidetica.Backend.Traversal.MergeBase.{
  all_paths_pass_through, collect_ancestors, verify_entries, ancestor_sets, first_base,
  get_subtree_height, all_pass, look_ancestor, look_bypass, height_at, find_merge_base,
}
use eidetica.Backend.Traversal.MergeBase.Lowest.{Lowest, find_merge_base-Lowest}
use eidetica.Backend.Error.{ReadError, entry_not_found, cycle_detected}
use eidetica.Backend.Traversal.Paths.{
  build_path_from_root, path_loop, path_step, after_get, after_entry, path_parents,
  get_path_from_to, look_between, get_sorted_store_parents, compare_heights, height_or_zero,
}
use eidetica.Backend.Traversal.Paths.Rooted.{RootSays, build_path_from_root-Says}
use eidetica.Backend.Traversal.Paths.Between.{PathSays, get_path_from_to-Says}
use eidetica.Backend.Traversal.Snapshot.{snapshot, store_snapshot, store_snapshot_at}
use eidetica.Backend.Traversal.Snapshot.Tips.{snapshot-tips}
use eidetica.Backend.Traversal.Snapshot.Stores.{put_all-store_snapshot, snapshot-store_snapshot}
use eidetica.Backend.Traversal.Snapshot.Scope.{is_scope_tip, store_snapshot_at-scope}
use eidetica.Entry.Validate.{validate}
use eidetica.Backend.Tests.{id_of, root, unsigned}
use eidetica.Entry.Order.Texts.{text_order}

abbrev note : String → List String → List String → ℕ → Entry
note id parents notes height = record {
  tree = record { root = some "R"; parents = parents; metadata = some id; height = height };
  subtrees = record { name = "notes"; parents = notes; payload = some "{}"; height = none } ∷ [];
  sig = record { sig = none; key = unsigned };
}

abbrev forked : List Entry
forked =
    note "Q" ("N" ∷ []) ("N" ∷ []) 2
    ∷ note "L" ("N" ∷ []) ("N" ∷ []) 2
    ∷ note "N" ("R" ∷ []) [] 1
    ∷ root
    ∷ []

abbrev stored : InMemoryInner
stored = record { entries = forked; verification_status = []; tips = [] }

get_tree_from_tips-IsRead_example :
    (es : List Entry) × (get_tree_from_tips id_of text_order "R" ("L" ∷ []) stored ≡ some (ok es))
    × IsRead id_of text_order tree_height
        (Part id_of (in_tree id_of "R") main_parents forked ("L" ∷ []))
        es
get_tree_from_tips-IsRead_example =
    get_tree_from_tips-IsRead id_of text_order "R" ("L" ∷ []) stored
      (unfold check_tips get_entry in_tree in refl)

store_at-IsRead_example :
    (es : List Entry) × (store_at id_of text_order "R" "notes" ("L" ∷ ("Q" ∷ [])) stored
      ≡ some (ok es))
    × IsRead id_of text_order
        (store_height "notes")
        (Part id_of (in_store id_of "R" "notes") (store_parents "notes") forked ("L" ∷ ("Q" ∷ [])))
        es
store_at-IsRead_example = store_at-IsRead id_of text_order "R" "notes" ("L" ∷ ("Q" ∷ [])) stored

find_merge_base-Lowest_example :
    Lowest id_of "notes" forked
      ("L" ∷ ("Q" ∷ []))
      (find_merge_base id_of "R" "notes" ("L" ∷ ("Q" ∷ [])) stored)
find_merge_base-Lowest_example =
    find_merge_base-Lowest id_of "R" "notes" "L" "Q" [] stored
      (unfold verify_entries get_entry in_tree validate in refl)

check_targets_reachable_from-Says_example :
    Says id_of "R" forked
      ("L" ∷ [])
      ("N" ∷ [])
      (check_targets_reachable_from id_of "R" forked text_order ("L" ∷ []) ("N" ∷ []))
check_targets_reachable_from-Says_example =
    check_targets_reachable_from-Says id_of "R" forked text_order ("L" ∷ []) ("N" ∷ [])

snapshot-tips_example : (snapshot id_of "R" stored).0 ≡ tree_tips_of id_of "R" forked
snapshot-tips_example = snapshot-tips id_of "R" stored (λ c h. absurd (unfold find in cc h))

snapshot-store_snapshot_example :
    (snapshot id_of "R" (store_snapshot id_of "R" "notes" stored).1).0 ≡ []
snapshot-store_snapshot_example =
    snapshot-store_snapshot id_of "R" "notes" stored (unfold find in refl)

put_all-store_snapshot_example :
    (store_snapshot id_of "R" "notes" (put_all id_of forked)).0
    ≡ subtree_tips_of id_of "R" "notes" (put_all id_of forked).entries
put_all-store_snapshot_example =
    put_all-store_snapshot id_of "R" "notes" forked (refl, (refl, (refl, (refl, tt))))

store_snapshot_at-scope_example :
    (es : List Entry) × (tips : List String) × ((store_snapshot_at id_of text_order "R" "notes"
        ("L" ∷ [])
        stored).0
      ≡ some (ok tips))
    × IsRead id_of text_order tree_height
        (Part id_of (in_tree id_of "R") main_parents forked ("L" ∷ []))
        es
    × ((v : String) → is_in v tips ≡ is_scope_tip id_of "notes" es v)
store_snapshot_at-scope_example =
    store_snapshot_at-scope id_of text_order "R" "notes" "L" [] stored
      (unfold check_tips get_entry in_tree in refl)
      (unfold snapshot find is_tip in_tree is_root in_subtree in refl)

-- a look-up that sends one id on to another
abbrev onward : String → Look (Unit {0}) String
onward id = see (if str_eq id "a" then "b" ∷ [] else []) []

merge_base-forked : find_merge_base id_of "R" "notes" ("L" ∷ ("Q" ∷ [])) stored ≡ some (ok "N")
unfolding find_merge_base verify_entries ancestor_sets first_base get_subtree_height
    collect_ancestors all_pass all_paths_pass_through get_entry in_tree validate run walk
    look_ancestor look_bypass height_at subtree_parents subtree_height in_subtree
merge_base-forked = refl

reachable-forked :
    check_targets_reachable_from id_of "R" forked text_order ("L" ∷ []) ("N" ∷ [])
    ≡ some (ok reachable)
unfolding check_targets_reachable_from add_targets add_tips climb held get_entry in_tree
reachable-forked = refl

get_path_from_to-Says_example :
    (r : Outcome ReadError (List String)) × (get_path_from_to id_of text_order "R" "notes" "N"
        ("L" ∷ ("Q" ∷ []))
        stored
      ≡ some r)
    × PathSays id_of text_order "R" "notes" "N" forked ("L" ∷ ("Q" ∷ [])) r
get_path_from_to-Says_example =
    get_path_from_to-Says id_of text_order "R" "notes" "N" ("L" ∷ ("Q" ∷ [])) stored

-- what the call answers there
path_of_two :
    get_path_from_to id_of text_order "R" "notes" "N" ("Q" ∷ ("L" ∷ [])) stored
    ≡ some (ok ("L" ∷ ("Q" ∷ [])))
unfolding get_path_from_to run walk look_between get_sorted_store_parents get_entry in_tree
    in_subtree subtree_parents subtree_height compare_heights height_or_zero
path_of_two = refl

-- an id that is not stored
path_of_lost :
    get_path_from_to id_of text_order "R" "notes" "N" ("Q" ∷ ("Z" ∷ [])) stored
    ≡ some (err (entry_not_found "Z"))
unfolding get_path_from_to run walk look_between get_sorted_store_parents get_entry in_tree
    in_subtree subtree_parents subtree_height compare_heights height_or_zero
path_of_lost = refl

build_path_from_root-Says_example :
    (r : Outcome ReadError (List String)) × (build_path_from_root id_of "R" "notes" forked "L"
      ≡ some r)
    × RootSays id_of "R" "notes" forked "L" r
build_path_from_root-Says_example = build_path_from_root-Says id_of "R" "notes" forked "L"

-- a path in the store, whose first entry has no parents there
path_of_left : build_path_from_root id_of "R" "notes" forked "L" ≡ some (ok ("N" ∷ ("L" ∷ [])))
unfolding build_path_from_root path_loop path_step after_get after_entry path_parents get_entry
    is_root in_subtree subtree_parents
path_of_left = refl

-- an entry that is its own parent
path_of_loop :
    build_path_from_root id_of "R" "" (note "S" ("S" ∷ []) [] 1 ∷ []) "S"
    ≡ some (err (cycle_detected "S"))
unfolding build_path_from_root path_loop path_step after_get after_entry path_parents get_entry
    is_root in_subtree subtree_parents
path_of_loop = refl

-- the answer has an entry that lies on no way between the two
path_past :
    get_path_from_to id_of text_order "R" "notes" "Q" ("L" ∷ []) stored
    ≡ some (ok ("N" ∷ ("L" ∷ [])))
unfolding get_path_from_to run walk look_between get_sorted_store_parents get_entry in_tree
    in_subtree subtree_parents subtree_height compare_heights height_or_zero
path_past = refl
