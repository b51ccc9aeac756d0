-- ===== src/Auth/Delegation.antt =====
-- Resolving a delegation path: crates/lib/src/auth/validation/delegation.rs.
pub mod Laws
use eidetica.Base.{
  ℕ, String, List, [], ◌∷◌, Bool, true, false, Option, none, some, if◌then◌else◌, ltb, length, map,
}
use eidetica.Base.Outcome.{Outcome, ok, err, ok_or, map_err, ◌>>=◌, ◌>>◌}
use eidetica.Auth.Permission.{Permission, min_perm, max_perm}
use eidetica.Auth.Bounds.{PermissionBounds, clamp_permission}
use eidetica.Auth.Key.{KeyHint, DelegationStep, ResolvedAuth, hint_type}
use eidetica.Auth.Error.{
  AuthError, key_not_found, invalid_auth_configuration, empty_delegation_path,
  invalid_delegation_step, delegation_path_too_long, delegation_tips_too_many,
  delegated_tree_load_failed, invalid_delegation_tips, delegated_tree_unsynced, Checked,
}
use eidetica.Auth.Settings.{AuthSettings}
use eidetica.Auth.Settings.Resolve.{resolve_hint}
use eidetica.Auth.Reference.{DelegatedTreeRef, get_delegated_tree}

-- `Reachability` of crates/lib/src/backend/mod.rs
pub data Reachability : Type 0 where
  reachable unreachable : Reachability
  indeterminate : List String → Reachability

-- What the resolver asks of the instance and of the crates below it: reading keys and ids, opening a
-- tree by its root, comparing claimed tips with a floor, and the settings as of some tips, which are
-- read through a transaction that is never committed.
pub record Trees : Type 0 where
  pub decodes : String → Bool
  pub parse_cid : String → Option String
  pub opens : String → Bool
  pub check_targets_reachable_from : String → List String → List String → Option Reachability
  pub new_transaction_at : String → List String → Bool
  pub get_settings : String → List String → Checked (Unit {0})
  pub auth_snapshot : String → List String → Option AuthSettings

abbrev pub max_delegation_steps : ℕ
max_delegation_steps = 10

abbrev pub max_delegation_tips : ℕ
max_delegation_tips = 64

abbrev pub guard : AuthError → Bool → Checked (Unit {0})
guard e true = ok tt
guard e false = err e

-- the match on the answer about the floor
abbrev pub floor_verdict : String → List String → Option Reachability → Checked (Unit {0})
floor_verdict root tips none = err (invalid_delegation_tips root tips)
floor_verdict root tips (some reachable) = ok tt
floor_verdict root tips (some unreachable) = err (invalid_delegation_tips root tips)
floor_verdict root tips (some (indeterminate missing)) = err (delegated_tree_unsynced root missing)

abbrev pub combine_min : Option Permission → Option Permission → Option Permission
combine_min (some a) (some b) = some (max_perm a b)
combine_min (some a) none = some a
combine_min none b = b

unfoldable pub combine_bounds : Option PermissionBounds → PermissionBounds → PermissionBounds
unfolding min_perm max_perm
combine_bounds none b = b
combine_bounds (some a) b = record { max = min_perm a.max b.max; min = combine_min a.min b.min }

abbrev pub clamp_match : PermissionBounds → ResolvedAuth → ResolvedAuth
clamp_match b r = record r { effective_permission = clamp_permission r.effective_permission b }

abbrev pub clamp_matches : Option PermissionBounds → List ResolvedAuth → List ResolvedAuth
clamp_matches none ms = ms
clamp_matches (some b) ms = map (clamp_match b) ms

-- the matches, of which there must be one
unfoldable pub some_match : KeyHint → List ResolvedAuth → Checked (List ResolvedAuth)
some_match h [] = err (key_not_found (hint_type h))
some_match h (m ∷ ms) = ok (m ∷ ms)

module _ (trees : Trees) where
  -- the settings of the delegated tree as of the claimed tips
  unfoldable pub pinned_settings : String → List String → Checked AuthSettings
  pinned_settings root tips = do
    guard (invalid_delegation_tips root tips) (trees.new_transaction_at root tips)
    trees.get_settings root tips
    ok_or invalid_auth_configuration (trees.auth_snapshot root tips)

  -- One turn of the loop: the declared reference, and the settings that the next turn looks into.
  unfoldable pub take_step :
      DelegationStep → AuthSettings → Checked (DelegatedTreeRef × AuthSettings)
  unfolding get_delegated_tree pinned_settings
  take_step step s = do
    guard (delegation_tips_too_many step.tree (length step.tips))
        (if ltb max_delegation_tips (length step.tips) then false else true)
    tree_ref ← get_delegated_tree trees.parse_cid step.tree s
    guard (delegated_tree_load_failed (tree_ref.tree).root) (trees.opens (tree_ref.tree).root)
    floor_verdict (tree_ref.tree).root step.tips
        (trees.check_targets_reachable_from (tree_ref.tree).root step.tips (tree_ref.tree).tips)
    next ← pinned_settings (tree_ref.tree).root step.tips
    ok (tree_ref, next)

  -- the loop over the steps, with the bounds accumulated so far
  unfoldable pub take_steps :
      List DelegationStep
      → AuthSettings
      → Option PermissionBounds
      → Checked (AuthSettings × Option PermissionBounds)
  unfolding take_step combine_bounds
  take_steps [] s bounds = ok (s, bounds)
  take_steps (step ∷ steps) s bounds = do
    taken ← take_step step s
    take_steps steps taken.1 (some (combine_bounds bounds (taken.0).permission_bounds))

  unfoldable pub resolve_delegation_path :
      List DelegationStep → KeyHint → AuthSettings → Checked (List ResolvedAuth)
  unfolding take_steps resolve_hint some_match
  resolve_delegation_path [] h s = err empty_delegation_path
  resolve_delegation_path (step ∷ rest) h s = do
    guard (delegation_path_too_long (length (step ∷ rest)))
        (if ltb max_delegation_steps (length (step ∷ rest)) then false else true)
    guard invalid_delegation_step (if h.is_global then false else true)
    reached ← take_steps (step ∷ rest) s none
    found ← resolve_hint trees.decodes h reached.0
    matches ← some_match h found
    ok (clamp_matches reached.1 matches)
