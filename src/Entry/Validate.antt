-- ===== src/Entry/Validate.antt =====
-- `Entry::validate` of crates/lib/src/entry/mod.rs: the structure of an entry, as far as it can be told
-- without other entries. An `ID` that holds no CID is the empty text.
use eidetica.Base.{
  String, List, [], ◌∷◌, Bool, true, false, not, ◌&&◌, ◌||◌, Option, none, some, if◌then◌else◌,
  str_eq, any, ◌≡◌, refl, arith,
}
use eidetica.Base.Outcome.{Outcome, ok, err, ◌>>◌}
use eidetica.Entry.{Entry, SubTreeNode, in_subtree, is_none, is_empty_list, root_marker}

-- The reasons of `EntryValidationFailed`, and `IdError::InvalidFormat` with its context.
pub data InvalidEntry : Type 0 where
  root_with_parents no_main_parents empty_main_parent empty_store_name : InvalidEntry
  empty_store_parent : String → InvalidEntry
  invalid_id : String → InvalidEntry

abbrev pub Validated : Type 0
Validated = Outcome InvalidEntry (Unit {0})

abbrev is_empty_id : String → Bool
is_empty_id id = str_eq id ""

abbrev fails_if : Bool → InvalidEntry → Validated
fails_if b e = if b then err e else ok tt

unfoldable pub validate_id_format : String → String → Validated
validate_id_format id context = fails_if (is_empty_id id) (invalid_id context)

abbrev validate_root : Option String → Validated
validate_root none = ok tt
validate_root (some id) = unfold validate_id_format in validate_id_format id "tree root ID"

-- the loop over the parents in a store
abbrev validate_store_parents : String → List String → Validated
validate_store_parents name [] = ok tt
validate_store_parents name (id ∷ ids) =
    let rest = validate_store_parents name ids in
    fails_if (is_empty_id id) (empty_store_parent name)
    >> (validate_id_format id "subtree parent ID" >> rest)

-- the loop over the stores, which passes over the marker of a root
abbrev validate_stores : List SubTreeNode → Validated
validate_stores [] = ok tt
validate_stores (node ∷ nodes) =
    let rest = validate_stores nodes in
    fails_if (str_eq node.name "") empty_store_name
    >> (if str_eq node.name root_marker
        then rest
        else validate_store_parents node.name node.parents >> rest)

abbrev validate_main_parents : List String → Validated
validate_main_parents [] = ok tt
validate_main_parents (id ∷ ids) =
    let rest = validate_main_parents ids in
    fails_if (is_empty_id id) empty_main_parent
    >> (validate_id_format id "main tree parent ID" >> rest)

unfoldable pub validate : Entry → Validated
unfolding validate_id_format in_subtree
validate e =
    let marked = in_subtree root_marker e in
    let is_root_entry = marked && (is_empty_list (e.tree).parents && is_none (e.tree).root) in
    fails_if (marked && not (is_empty_list (e.tree).parents)) root_with_parents
    >> (validate_root (e.tree).root
        >> (validate_stores e.subtrees
            >> (if is_root_entry
                then ok tt
                else fails_if (is_empty_list (e.tree).parents) no_main_parents
                  >> validate_main_parents (e.tree).parents)))

-- no id of a list is empty
abbrev pub all_ids : List String → Bool
all_ids ids = not (any is_empty_id ids)

abbrev pub root_well : Option String → Bool
root_well none = true
root_well (some id) = not (is_empty_id id)

abbrev pub store_well : SubTreeNode → Bool
store_well node =
    not (str_eq node.name "") && (str_eq node.name root_marker || all_ids node.parents)

-- the independent description: a root with its marker and no parents, or an entry with parents
abbrev pub well_formed : Entry → Bool
well_formed e =
    root_well (e.tree).root
    && (not (any (λ node. not (store_well node)) e.subtrees)
        && (if in_subtree root_marker e
            then is_empty_list (e.tree).parents && is_none (e.tree).root
            else not (is_empty_list (e.tree).parents) && all_ids (e.tree).parents))

abbrev pub passes : Validated → Bool
passes (ok _) = true
passes (err e) = false

passes-then : (m k : Validated) → passes (m >> k) ≡ (passes m && passes k)
passes-then (ok _) k = refl
passes-then (err e) k = refl

passes-fails_if : (b : Bool) (e : InvalidEntry) → passes (fails_if b e) ≡ not b
passes-fails_if true e = refl
passes-fails_if false e = refl

passes-main : (ids : List String) → passes (validate_main_parents ids) ≡ all_ids ids
unfolding validate_id_format
passes-main [] = refl
passes-main (id ∷ ids) = ground (arith, passes-main ids)

passes-store :
    (name : String) (ids : List String) → passes (validate_store_parents name ids) ≡ all_ids ids
unfolding validate_id_format
passes-store name [] = refl
passes-store name (id ∷ ids) = ground (arith, passes-store name ids)

passes-stores :
    (nodes : List SubTreeNode)
    → passes (validate_stores nodes) ≡ not (any (λ node. not (store_well node)) nodes)
passes-stores [] = refl
passes-stores (node ∷ nodes) = ground (
  arith,
  passes-stores nodes,
  passes-store node.name node.parents,
  passes-then (validate_store_parents node.name node.parents) (validate_stores nodes),
)

passes-root : (root : Option String) → passes (validate_root root) ≡ root_well root
passes-root none = refl
passes-root (some id) = unfold validate_id_format in ground arith

-- `validate` accepts an entry if and only if its root is not the empty id, each of its subtrees has
-- a name and, unless it is the marker of a root, no empty parent, and either it has that marker, no
-- parents and no root, or it has parents, none of them empty, and not the marker.
pub validate-passes : (e : Entry) → passes (validate e) ≡ well_formed e
unfolding validate
validate-passes e =
    let stores = validate_stores e.subtrees in
    let parents = validate_main_parents (e.tree).parents in
    ground
      (arith, passes-root (e.tree).root, passes-stores e.subtrees, passes-main (e.tree).parents)
