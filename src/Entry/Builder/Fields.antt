-- ===== src/Entry/Builder/Fields.antt =====
-- About what the setters of crates/lib/src/entry/builder.rs change, and what `build` answers with.
use Prim.Native.Nat.{Ordering}
use eidetica.Base.{
  String, List, [], ◌∷◌, ◌++◌, Bool, true, false, Option, none, some, if◌then◌else◌, str_eq, eq_iff,
  ◌≡◌, refl, ap, ◌∙◌, Bool-cases, inl, inr, arith,
}
use eidetica.Base.Outcome.{Outcome, ok, err, map_err, ◌>>◌}
use eidetica.Entry.{EntryError, SubTreeNode, find_node}
use eidetica.Entry.Validate.{Validated, passes, well_formed, validate-passes}
use eidetica.Entry.Builder.{
  invalid_entry, EntryBuilder, empty_node, on_node, parents_in_subtree, add_subtree_parent,
  assemble, build,
}

abbrev pub node_or : SubTreeNode → Option SubTreeNode → SubTreeNode
node_or n none = n
node_or n (some m) = m

same_find :
    (a b : String) (nodes : List SubTreeNode)
    → str_eq a b ≡ true
    → find_node a nodes ≡ find_node b nodes
same_find a b nodes h = ap (λ n. find_node n nodes) ((eq_iff a b).0 h)

same_name : (a b c : String) → str_eq a b ≡ true → str_eq a c ≡ str_eq b c
same_name a b c h = ap (λ n. str_eq n c) ((eq_iff a b).0 h)

same_right : (a b c : String) → str_eq b c ≡ true → str_eq a b ≡ str_eq a c
same_right a b c h = ap (λ n. str_eq a n) ((eq_iff b c).0 h)

-- a changed node is found under its name, and the others as before
pub find_node-on_node :
    (name other : String) (f : SubTreeNode → SubTreeNode) (nodes : List SubTreeNode)
    → ((n : SubTreeNode) → (f n).name ≡ n.name)
    → find_node other (on_node name f nodes) ≡ (
        if str_eq name other
        then some (f (node_or (empty_node name) (find_node other nodes)))
        else find_node other nodes)
unfolding on_node
find_node-on_node name other f [] keeps =
    ap (λ n. if str_eq n other then some (f (empty_node name)) else none) (keeps (empty_node name))
find_node-on_node name other f (node ∷ nodes) keeps = elim (Bool-cases (str_eq node.name name)) [
  | inl e ↦
      rw e (ground (arith, ap (λ n. str_eq n other) (keeps node), same_name node.name name other e))
  | inr n ↦
      rw n (
        ground (arith, find_node-on_node name other f nodes keeps, same_right node.name name other))
]

abbrev parents_or : List String → Outcome EntryError (List String) → List String
parents_or ids (ok own) = own
parents_or ids (err e) = ids

add_subtree_parent_lem :
    (name other id : String) (b : EntryBuilder)
    → parents_in_subtree other (add_subtree_parent name id b) ≡ (
        if str_eq name other
        then ok (parents_or [] (parents_in_subtree other b) ++ (id ∷ []))
        else parents_in_subtree other b)
unfolding parents_in_subtree add_subtree_parent
add_subtree_parent_lem name other id b = ground (
  arith,
  find_node-on_node name other (λ node. record node { parents = node.parents ++ (id ∷ []) })
      b.subtrees (λ n. refl),
)

abbrev pub built : {A : Type 0} {E : Type 0} → Outcome E A → Bool
built (ok a) = true
built (err e) = false

-- `build` answers with an entry if and only if the entry with its parents sorted and rid of
-- repetitions, and its subtrees sorted by name, is well formed in the sense of `validate`.
build-well_formed :
    (compare_ids : String → String → Ordering) (b : EntryBuilder)
    → built (build compare_ids b) ≡ well_formed (assemble compare_ids b)
unfolding build
build-well_formed compare_ids b = passes-built _ _ ∙ validate-passes (assemble compare_ids b)
  where
    passes-built :
        {A : Type 0} (m : Validated) (a : A) → built (map_err invalid_entry m >> ok a) ≡ passes m
    passes-built (ok _) a = refl
    passes-built (err e) a = refl
