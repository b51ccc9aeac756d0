-- ===== src/Auth/Access.antt =====
-- From resolved candidates to a permission: crates/lib/src/auth/validation/permissions.rs and resolver.rs.
pub mod Laws
use eidetica.Base.{
  ℕ, String, List, [], ◌∷◌, Bool, true, false, not, ◌&&◌, ◌||◌, Option, none, some, if◌then◌else◌,
  leb, map, keep,
}
use eidetica.Base.Outcome.{Outcome, ok, err, ok_or, map_err, ◌>>=◌, ◌>>◌, to_option}
use eidetica.Auth.Permission.{
  Permission, max_perm, can_write, can_admin, Operation, write_data, write_settings,
}
use eidetica.Auth.Key.{
  PublicKey, key_eq, to_prefixed_string, AuthKey, is_active, KeyHint, hint_type, SigKey, direct,
  delegation, ResolvedAuth, grants_access, is_some,
}
use eidetica.Auth.Error.{
  AuthError, key_not_found, signing_key_mismatch, invalid_auth_configuration, database_required,
  delegation_depth_exceeded, Checked,
}
use eidetica.Auth.Settings.{AuthSettings, get_global_key, get_global_permission}
use eidetica.Auth.Settings.Resolve.{resolve_hint}
use eidetica.Auth.Delegation.{Trees, guard, some_match, resolve_delegation_path}

-- whether a candidate counts for a key
unfoldable pub counts_for : PublicKey → ResolvedAuth → Bool
unfolding grants_access
counts_for k r = key_eq r.public_key k && grants_access r

abbrev pub max_with : Permission → Option Permission → Option Permission
max_with p none = some p
max_with p (some q) = some (max_perm p q)

-- `Iterator::max`
unfoldable pub max_of : List Permission → Option Permission
unfolding max_perm
max_of [] = none
max_of (p ∷ ps) = max_with p (max_of ps)

unfoldable pub select_effective_permission : List ResolvedAuth → PublicKey → Option Permission
unfolding counts_for max_of
select_effective_permission candidates k =
    max_of (map ResolvedAuth.effective_permission (keep (counts_for k) candidates))

unfoldable pub check_permissions : ResolvedAuth → Operation → Bool
unfolding can_write can_admin
check_permissions r write_data =
    can_write r.effective_permission || can_admin r.effective_permission
check_permissions r write_settings = can_admin r.effective_permission

abbrev pub max_delegation_depth : ℕ
max_delegation_depth = 10

-- the test against a hint that names another key
abbrev pub claims_other : PublicKey → Option PublicKey → Bool
claims_other k none = false
claims_other k (some claimed) = not (key_eq claimed k)

abbrev pub names_nothing : Option PublicKey → Option String → Bool
names_nothing none none = true
names_nothing _ _ = false

unfoldable pub global_identity : AuthSettings → Checked Permission
unfolding get_global_key is_active
global_identity s = do
  key ← map_err (λ e. invalid_auth_configuration) (get_global_key s)
  guard invalid_auth_configuration (is_active key)
  ok key.permissions

abbrev pub first_some : Option Permission → Option Permission → Option Permission
first_some (some p) o = some p
first_some none o = o

abbrev pub select_from : Checked (List ResolvedAuth) → PublicKey → Option Permission
select_from (ok candidates) k = select_effective_permission candidates k
select_from (err e) k = none

abbrev pub hint_name : PublicKey → Option String → String
hint_name k none = to_prefixed_string k
hint_name k (some n) = n

-- `decodes` tells whether a text is the Base64 of a key. Without an instance no delegated tree can be
-- opened.
module _ (decodes : String → Bool) (instance_of : Option Trees) where
  unfoldable pub resolve_direct_key : KeyHint → AuthSettings → Checked (List ResolvedAuth)
  unfolding resolve_hint some_match
  resolve_direct_key h s = do found ← resolve_hint decodes h s; some_match h found

  unfoldable pub resolve_sig_key_with_depth :
      SigKey → AuthSettings → ℕ → Checked (List ResolvedAuth)
  unfolding resolve_direct_key resolve_delegation_path
  resolve_sig_key_with_depth (direct h) s depth =
      if leb max_delegation_depth depth
      then err (delegation_depth_exceeded max_delegation_depth)
      else resolve_direct_key h s
  resolve_sig_key_with_depth (delegation path h) s depth =
      if leb max_delegation_depth depth
      then err (delegation_depth_exceeded max_delegation_depth)
      else (do trees ← ok_or database_required instance_of; resolve_delegation_path trees path h s)

  unfoldable pub resolve_sig_key : SigKey → AuthSettings → Checked (List ResolvedAuth)
  unfolding resolve_sig_key_with_depth
  resolve_sig_key key s = resolve_sig_key_with_depth key s 0

  -- a key's own grant first, else the wildcard's
  unfoldable pub listed_identity : PublicKey → KeyHint → AuthSettings → Checked Permission
  unfolding resolve_hint select_effective_permission get_global_permission
  listed_identity k h s = do
    guard invalid_auth_configuration (not (names_nothing h.pubkey h.name))
    ok_or (key_not_found (hint_name k h.name))
        (first_some (select_from (resolve_hint decodes h s) k) (get_global_permission s))

  unfoldable pub resolve_identity_permission :
      PublicKey → SigKey → AuthSettings → Checked Permission
  unfolding resolve_sig_key listed_identity global_identity
  resolve_identity_permission k (direct h) s =
      if claims_other k h.pubkey
      then err signing_key_mismatch
      else if h.is_global
      then global_identity s
      else listed_identity k h s
  resolve_identity_permission k (delegation path h) s = do
    candidates ← map_err (λ e. invalid_auth_configuration) (resolve_sig_key (delegation path h) s)
    ok_or signing_key_mismatch (select_effective_permission candidates k)
