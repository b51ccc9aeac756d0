-- ===== src/Entry.antt =====
-- `Entry` of crates/lib/src/entry/mod.rs: one node of the Merkle DAG. An id is the text of its CID, and
-- the payload bytes of a subtree are kept as a text.
pub mod Validate
pub mod Builder
pub mod Order
mod Tests
use eidetica.Base.{
  ℕ, String, List, [], ◌∷◌, Bool, true, false, not, ◌&&◌, Option, none, some, if◌then◌else◌, str_eq,
  any, map,
}
use eidetica.Base.Outcome.{Outcome, ok, ok_or, ◌>>=◌}
use eidetica.Auth.Key.{SigInfo, is_some}

pub record TreeNode : Type 0 where
  pub root : Option String
  pub parents : List String
  pub metadata : Option String
  pub height : ℕ

pub record SubTreeNode : Type 0 where
  pub name : String
  pub parents : List String
  pub payload : Option String
  pub height : Option ℕ

-- The format version is 0 in every entry that the code can read or build.
pub record Entry : Type 0 where
  pub tree : TreeNode
  pub subtrees : List SubTreeNode
  pub sig : SigInfo

-- `StoreError::KeyNotFound`
pub data EntryError : Type 0 where
  store_key_not_found : String → EntryError

-- `constants::ROOT` and `constants::SETTINGS`
abbrev pub root_marker : String
root_marker = "_root"

abbrev pub settings : String
settings = "_settings"

abbrev pub is_none {ℓ} : {A : Type ℓ} → Option A → Bool
is_none o = not (is_some o)

abbrev pub is_empty_list {ℓ} : {A : Type ℓ} → List A → Bool
is_empty_list [] = true
is_empty_list (x ∷ xs) = false

unfoldable pub in_subtree : String → Entry → Bool
in_subtree name e = any (λ node. str_eq (SubTreeNode.name node) name) e.subtrees

unfoldable pub is_root : Entry → Bool
unfolding in_subtree
is_root e = in_subtree root_marker e && is_empty_list (e.tree).parents && is_none (e.tree).root

unfoldable pub subtrees_of : Entry → List String
subtrees_of e = map SubTreeNode.name e.subtrees

abbrev pub find_node : String → List SubTreeNode → Option SubTreeNode
find_node name [] = none
find_node name (n ∷ ns) = if str_eq n.name name then some n else find_node name ns

unfoldable pub data_of : String → Entry → Outcome EntryError String
data_of name e = do
  node ← ok_or (store_key_not_found name) (find_node name e.subtrees)
  ok_or (store_key_not_found name) node.payload

unfoldable pub subtree_parents : String → Entry → Outcome EntryError (List String)
subtree_parents name e = do
  node ← ok_or (store_key_not_found name) (find_node name e.subtrees)
  ok node.parents

abbrev pub height_or : ℕ → Option ℕ → ℕ
height_or h none = h
height_or h (some own) = own

unfoldable pub subtree_height : String → Entry → Outcome EntryError ℕ
subtree_height name e = do
  node ← ok_or (store_key_not_found name) (find_node name e.subtrees)
  ok (height_or (e.tree).height node.height)
