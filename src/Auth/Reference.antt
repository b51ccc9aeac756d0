-- ===== src/Auth/Reference.antt =====
-- References to delegated trees as the settings hold them: crates/lib/src/auth/types/delegation.rs, and
-- `get_delegated_tree` of crates/lib/src/auth/settings.rs.
use Prim.Native.String.{◌++◌ as str_append}
use eidetica.Base.{
  ℕ, String, List, [], ◌∷◌, Option, none, some, if◌then◌else◌, ltb, str_eq, parse_usize,
}
use eidetica.Base.Outcome.{Outcome, ok, err, ok_or, map_err, ◌>>=◌}
use eidetica.Crdt.Key.{by_name}
use eidetica.Crdt.Value.{Value, doc, Entries, end, entry, Doc, as_text}
use eidetica.Crdt.Doc.{get, get_text}
use eidetica.Auth.Bounds.{PermissionBounds}
use eidetica.Auth.Codec.{
  CrdtError, element_not_found, deserialization_failed, bounds_from_doc, get_doc,
}
use eidetica.Auth.Error.{invalid_auth_configuration, delegation_not_found, Checked}
use eidetica.Auth.Settings.{AuthSettings}

pub record TreeReference : Type 0 where
  pub root : String
  pub tips : List String

pub record DelegatedTreeRef : Type 0 where
  pub permission_bounds : PermissionBounds
  pub tree : TreeReference

-- a tip with its index, put before the first with a higher one
unfoldable pub insert_indexed : ℕ × String → List (ℕ × String) → List (ℕ × String)
insert_indexed x [] = x ∷ []
insert_indexed x (y ∷ ys) =
    let rest = insert_indexed x ys in if ltb y.0 x.0 then y ∷ rest else x ∷ y ∷ ys

abbrev pub with_index : Option ℕ → Option String → List (ℕ × String) → List (ℕ × String)
with_index (some i) (some s) rest = insert_indexed (i, s) rest
with_index _ _ rest = rest

-- the texts under numeric keys, sorted by the number
unfoldable pub indexed_texts : Entries by_name → List (ℕ × String)
unfolding insert_indexed parse_usize
indexed_texts end = []
indexed_texts (entry k v rest) = with_index (parse_usize k) (as_text v) (indexed_texts rest)

-- `ID::parse` reads a CID with the crate cid and answers with its canonical text.
module _ (parse_cid : String → Option String) where
  unfoldable pub parse_id : String → Outcome CrdtError String
  parse_id s = if str_eq s "" then ok "" else ok_or deserialization_failed (parse_cid s)

  unfoldable pub parse_ids : List (ℕ × String) → Outcome CrdtError (List String)
  unfolding parse_id
  parse_ids [] = ok []
  parse_ids ((i, s) ∷ rest) = do id ← parse_id s; ids ← parse_ids rest; ok (id ∷ ids)

  abbrev tips_of : Option Doc → Outcome CrdtError (List String)
  tips_of none = ok []
  tips_of (some d) = parse_ids (indexed_texts d.children)

  unfoldable pub tree_from_doc : Doc → Outcome CrdtError TreeReference
  unfolding get_doc get_text parse_id parse_ids indexed_texts
  tree_from_doc d = do
    root_str ← ok_or (element_not_found "root") (get_text "root" d)
    root ← parse_id root_str
    tips ← tips_of (get_doc "tips" d)
    ok (record { root = root; tips = tips })

  unfoldable pub reference_from_doc : Doc → Outcome CrdtError DelegatedTreeRef
  unfolding get_doc tree_from_doc
  reference_from_doc d = do
    bounds_doc ← ok_or (element_not_found "permission_bounds") (get_doc "permission_bounds" d)
    bounds ← bounds_from_doc bounds_doc
    tree_doc ← ok_or (element_not_found "tree") (get_doc "tree" d)
    tree ← tree_from_doc tree_doc
    ok (record { permission_bounds = bounds; tree = tree })

  abbrev read_reference : String → Option Value → Checked DelegatedTreeRef
  read_reference root none = err (delegation_not_found root)
  read_reference root (some (doc a m)) =
      map_err (λ e. invalid_auth_configuration)
        (reference_from_doc (record { atomic = a; children = m }))
  read_reference root (some _) = err invalid_auth_configuration

  unfoldable pub get_delegated_tree : String → AuthSettings → Checked DelegatedTreeRef
  unfolding get reference_from_doc
  get_delegated_tree root s = read_reference root (get (str_append "delegations." root) s.inner)
