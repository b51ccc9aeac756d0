-- ===== src/Backend/Storage.antt =====
-- Storing entries and tracking tips: crates/lib/src/backend/database/in_memory/storage.rs, with the
-- data of mod.rs. The instance's metadata and secrets, and the cache of CRDT states, are not touched
-- by what is modelled here.
pub mod Tips
pub mod Read
pub mod Status
use eidetica.Base.{
  String, List, [], ◌∷◌, Bool, true, false, not, ◌&&◌, ◌||◌, Option, none, some, if◌then◌else◌,
  str_eq, any, keep, map,
}
use eidetica.Base.Outcome.{Outcome, ok, err, ok_or, to_option}
use eidetica.Entry.{Entry, EntryError, in_subtree, is_root, subtrees_of, subtree_parents}
use eidetica.Backend.Assoc.{find, change, or_default}

pub data VerificationStatus : Type 0 where
  verified unverified failed : VerificationStatus

-- A `HashSet<ID>` is the list of its ids.
pub record TreeTipsCache : Type 0 where
  pub tree_tips : List String
  pub subtree_tips : List (String × List String)

-- The entries are the values of a `HashMap` whose keys are their ids.
pub record InMemoryInner : Type 0 where
  pub entries : List Entry
  pub verification_status : List (String × VerificationStatus)
  pub tips : List (String × TreeTipsCache)

-- the two variants of `BackendError` that this code answers with
pub data BackendError : Type 0 where
  entry_not_found : String → BackendError
  verification_status_not_found : String → BackendError

abbrev pub empty_inner : InMemoryInner
empty_inner = record { entries = []; verification_status = []; tips = [] }

abbrev pub empty_cache : TreeTipsCache
empty_cache = record { tree_tips = []; subtree_tips = [] }

abbrev pub is_in : String → List String → Bool
is_in id ids = any (λ other. str_eq other id) ids

abbrev pub root_or : String → Option String → String
root_or id none = id
root_or id (some root) = root

abbrev pub root_is : String → Option String → Bool
root_is tree none = false
root_is tree (some root) = str_eq root tree

-- The parents in a subtree, of an entry that takes part in it.
abbrev pub parents_in : Outcome EntryError (List String) → List String
parents_in (ok ids) = ids
parents_in (err e) = []

abbrev pub set_tree_tips : List String → TreeTipsCache → TreeTipsCache
set_tree_tips ids c = record c { tree_tips = ids }

-- The id of an entry is the CID of its bytes, made by the crates cid and serde_ipld_dagcbor.
module _ (id_of : Entry → String) where
  -- `Entry::in_tree`
  unfoldable pub in_tree : String → Entry → Bool
  in_tree tree e = root_is tree (e.tree).root || str_eq (id_of e) tree

  unfoldable pub get_entry : String → List Entry → Option Entry
  get_entry id [] = none
  get_entry id (e ∷ es) = let rest = get_entry id es in if str_eq (id_of e) id then some e else rest

  unfoldable pub contains : String → List Entry → Bool
  contains id es = any (λ e. str_eq (id_of e) id) es

  -- the ids of the entries that none of the others names as a parent
  unfoldable pub without_child : (Entry → List String) → List Entry → List String
  without_child parents es =
      map id_of (keep (λ e. not (any (λ other. is_in (id_of e) (parents other)) es)) es)

  unfoldable pub tree_tips_of : String → List Entry → List String
  unfolding in_tree without_child
  tree_tips_of tree es = without_child (λ e. (e.tree).parents) (keep (in_tree tree) es)

  unfoldable pub in_store : String → String → Entry → Bool
  unfolding in_tree
  in_store tree name e = in_tree tree e && is_in name (subtrees_of e)

  unfoldable pub subtree_tips_of : String → String → List Entry → List String
  unfolding in_store without_child subtree_parents
  subtree_tips_of tree name es =
      without_child (λ e. parents_in (subtree_parents name e)) (keep (in_store tree name) es)

  unfoldable pub update_tips_for_tree :
      List Entry → String → List (String × TreeTipsCache) → List (String × TreeTipsCache)
  unfolding change
  update_tips_for_tree es tree tips =
      change tree empty_cache (set_tree_tips (tree_tips_of tree es)) tips

  -- the loop over the subtrees of the new entry
  unfoldable pub update_subtrees :
      List Entry → String → List String → List (String × List String) → List (String × List String)
  unfolding change
  update_subtrees es tree [] cache = cache
  update_subtrees es tree (name ∷ names) cache =
      update_subtrees es tree names (change name [] (λ old. subtree_tips_of tree name es) cache)

  abbrev pub set_subtree_tips : List Entry → String → List String → TreeTipsCache → TreeTipsCache
  set_subtree_tips es tree names c = record c {
    subtree_tips = update_subtrees es tree names c.subtree_tips;
  }

  -- The tree an entry belongs to: its root's, or its own.
  unfoldable pub tree_of : Entry → String
  tree_of e = root_or (id_of e) (e.tree).root

  abbrev pub update_own_tree :
      List Entry → Entry → List (String × TreeTipsCache) → List (String × TreeTipsCache)
  update_own_tree es e tips = if is_root e then update_tips_for_tree es (id_of e) tips else tips

  unfoldable pub put_new : Entry → InMemoryInner → InMemoryInner
  unfolding update_tips_for_tree tree_of update_subtrees
  put_new e s =
      let es = e ∷ s.entries in
      let tree = tree_of e in
      let tips = update_own_tree es e (update_tips_for_tree es tree s.tips) in
      record {
        entries = es;
        verification_status = change (id_of e) unverified (λ old. unverified) s.verification_status;
        tips = change tree empty_cache (set_subtree_tips es tree (subtrees_of e)) tips;
      }

  unfoldable pub put : Entry → InMemoryInner → InMemoryInner
  unfolding put_new contains
  put e s = if contains (id_of e) s.entries then s else put_new e s

  -- `is_tip` asks every entry of the tree.
  unfoldable pub is_tip : List Entry → String → String → Bool
  unfolding in_tree
  is_tip es tree id = not (any (λ e. in_tree tree e && is_in id (e.tree).parents) es)

unfoldable pub get_verification_status :
    String → InMemoryInner → Outcome BackendError VerificationStatus
unfolding find
get_verification_status id s =
    ok_or (verification_status_not_found id) (find id s.verification_status)

abbrev pub set_status_of :
    String
    → VerificationStatus
    → InMemoryInner
    → Option VerificationStatus
    → Outcome BackendError (Unit {0}) × InMemoryInner
set_status_of id status s none = (err (entry_not_found id), s)
set_status_of id status s (some old) = (
  ok tt,
  record s { verification_status = change id status (λ previous. status) s.verification_status },
)

unfoldable pub update_verification_status :
    String → VerificationStatus → InMemoryInner → Outcome BackendError (Unit {0}) × InMemoryInner
unfolding find change
update_verification_status id status s = set_status_of id status s (find id s.verification_status)
