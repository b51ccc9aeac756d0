-- ===== src/Entry/Builder.antt =====
-- `EntryBuilder` of crates/lib/src/entry/builder.rs. Each setter has two forms with one body, by value
-- and in place.
pub mod Canonical
pub mod Fields
use Prim.Native.Nat.{Ordering}
use eidetica.Base.{
  ℕ, String, List, [], ◌∷◌, ◌++◌, Bool, true, false, not, Option, none, some, if◌then◌else◌, str_eq,
  keep, map, any, compare_text,
}
use eidetica.Base.Outcome.{Outcome, ok, err, ok_or, map_err, ◌>>=◌, ◌>>◌}
use eidetica.Base.Sort.{sort_by, dedup}
use eidetica.Auth.Key.{SigInfo}
use eidetica.Entry.{
  Entry, EntryError, TreeNode, SubTreeNode, store_key_not_found, find_node, root_marker,
}
use eidetica.Entry.Validate.{InvalidEntry, validate}

pub record EntryBuilder : Type 0 where
  pub tree : TreeNode
  pub subtrees : List SubTreeNode
  pub sig : SigInfo

-- what can go wrong: `EntryError::InvalidIndexData`, or the built entry is not valid
pub data BuildError : Type 0 where
  invalid_index_data : BuildError
  invalid_entry : InvalidEntry → BuildError

abbrev pub present : String → Option String
present root = if str_eq root "" then none else some root

abbrev pub empty_node : String → SubTreeNode
empty_node name = record { name = name; parents = []; payload = none; height = none }

-- The first node of a name is changed, or a new one is pushed and changed.
unfoldable pub on_node : String → (SubTreeNode → SubTreeNode) → List SubTreeNode → List SubTreeNode
on_node name f [] = f (empty_node name) ∷ []
on_node name f (node ∷ nodes) =
    let rest = on_node name f nodes in if str_eq node.name name then f node ∷ nodes else node ∷ rest

unfoldable pub new : SigInfo → String → EntryBuilder
new unsigned root = record {
  tree = record { root = present root; parents = []; metadata = none; height = 0 };
  subtrees = [];
  sig = unsigned;
}

unfoldable pub set_sig : SigInfo → EntryBuilder → EntryBuilder
set_sig sig b = record b { sig = sig }

unfoldable pub subtrees : EntryBuilder → List String
subtrees b = map SubTreeNode.name b.subtrees

unfoldable pub data_in : String → EntryBuilder → Outcome EntryError String
data_in name b = do
  node ← ok_or (store_key_not_found name) (find_node name b.subtrees)
  ok_or (store_key_not_found name) node.payload

unfoldable pub parents_in_subtree : String → EntryBuilder → Outcome EntryError (List String)
parents_in_subtree name b = do
  node ← ok_or (store_key_not_found name) (find_node name b.subtrees)
  ok node.parents

unfoldable pub set_subtree_data : String → String → EntryBuilder → EntryBuilder
unfolding on_node
set_subtree_data name bytes b = record b {
  subtrees = on_node name (λ node. record node { payload = some bytes }) b.subtrees;
}

unfoldable pub set_subtree_parents : String → List String → EntryBuilder → EntryBuilder
unfolding on_node
set_subtree_parents name ids b = record b {
  subtrees = on_node name (λ node. record node { parents = ids }) b.subtrees;
}

unfoldable pub add_subtree_parent : String → String → EntryBuilder → EntryBuilder
unfolding on_node
add_subtree_parent name id b = record b {
  subtrees = on_node name (λ node. record node { parents = node.parents ++ (id ∷ []) }) b.subtrees;
}

unfoldable pub set_subtree_height : String → Option ℕ → EntryBuilder → EntryBuilder
unfolding on_node
set_subtree_height name h b = record b {
  subtrees = on_node name (λ node. record node { height = h }) b.subtrees;
}

unfoldable pub set_root : String → EntryBuilder → EntryBuilder
set_root root b = record b { tree = record b.tree { root = present root } }

unfoldable pub set_parents : List String → EntryBuilder → EntryBuilder
set_parents ids b = record b { tree = record b.tree { parents = ids } }

unfoldable pub add_parent : String → EntryBuilder → EntryBuilder
add_parent id b = record b { tree = record b.tree { parents = b.tree.parents ++ (id ∷ []) } }

unfoldable pub set_metadata : String → EntryBuilder → EntryBuilder
set_metadata bytes b = record b { tree = record b.tree { metadata = some bytes } }

unfoldable pub set_height : ℕ → EntryBuilder → EntryBuilder
set_height h b = record b { tree = record b.tree { height = h } }

-- The entropy of a new root is drawn at random, and printed into its metadata.
unfoldable pub new_top_level : SigInfo → String → EntryBuilder
unfolding new set_subtree_data set_metadata
new_top_level unsigned entropy =
    set_metadata entropy (set_subtree_data root_marker "" (new unsigned ""))

-- `_index` is read as a document by serde_json, which gives the document's keys.
abbrev pub index_keys :
    (String → Option (List String)) → Option SubTreeNode → Outcome BuildError (List String)
index_keys keys none = ok []
index_keys keys (some node) = elim node.payload [
  | none ↦ ok []
  | some bytes ↦ ok_or invalid_index_data (keys bytes)
]

unfoldable pub get_index_referenced_subtrees :
    (String → Option (List String)) → EntryBuilder → Outcome BuildError (List String)
get_index_referenced_subtrees keys b = index_keys keys (find_node "_index" b.subtrees)

abbrev pub stays : List String → SubTreeNode → Bool
stays names node = elim node.payload [
  | none ↦ any (λ name. str_eq name node.name) names
  | some bytes ↦ not (str_eq bytes "")
]

unfoldable pub remove_empty_subtrees :
    (String → Option (List String)) → EntryBuilder → Outcome BuildError EntryBuilder
unfolding get_index_referenced_subtrees
remove_empty_subtrees keys b = do
  names ← get_index_referenced_subtrees keys b
  ok (record b { subtrees = keep (stays names) b.subtrees })

abbrev pub compare_names : SubTreeNode → SubTreeNode → Ordering
compare_names a b = compare_text a.name b.name

module _ (compare_ids : String → String → Ordering) where
  abbrev pub canonical : List String → List String
  canonical ids = dedup (sort_by compare_ids ids)

  abbrev pub canonical_node : SubTreeNode → SubTreeNode
  canonical_node node = record node { parents = canonical node.parents }

  -- the entry, before it is validated
  abbrev pub assemble : EntryBuilder → Entry
  assemble b = record {
    tree = record b.tree { parents = canonical b.tree.parents };
    subtrees = sort_by compare_names (map canonical_node b.subtrees);
    sig = b.sig;
  }

  unfoldable pub build : EntryBuilder → Outcome BuildError Entry
  unfolding validate
  build b = do map_err invalid_entry (validate (assemble b)); ok (assemble b)
