-- ===== src/Auth/Validate.antt =====
-- Validating an entry: crates/lib/src/auth/validation/entry.rs.
pub mod Laws
use eidetica.Base.{
  ℕ, String, List, [], ◌∷◌, Bool, true, false, not, ◌&&◌, ◌||◌, Option, none, some, if◌then◌else◌,
  any, str_eq,
}
use eidetica.Base.Outcome.{Outcome, ok, err}
use eidetica.Entry.{Entry, settings, subtrees_of, is_empty_list}
use eidetica.Auth.Permission.{Operation, write_data, write_settings}
use eidetica.Auth.Key.{
  PublicKey, ResolvedAuth, grants_access, malformed_reason, is_unsigned, is_some,
}
use eidetica.Auth.Error.{Checked}
use eidetica.Auth.Settings.{AuthSettings, get_all_keys, get_global_permission}
use eidetica.Auth.Delegation.{Trees}
use eidetica.Auth.Access.{resolve_sig_key, check_permissions}

unfoldable pub has_global_permission : AuthSettings → Bool
unfolding get_global_permission
has_global_permission s = is_some (get_global_permission s)

unfoldable pub has_auth : AuthSettings → Bool
unfolding get_all_keys has_global_permission
has_auth s = not (is_empty_list (get_all_keys s)) || has_global_permission s

unfoldable pub operation_of : Entry → Operation
unfolding subtrees_of
operation_of e =
    if any (λ name. str_eq name settings) (subtrees_of e) then write_settings else write_data

-- `verify` is the check of an entry's signature against a key, done by the crate ed25519_dalek.
module _ (decodes : String → Bool) (instance_of : Option Trees)
    (verify : Entry → PublicKey → Bool) where
  -- the loop over the candidates, which stops at the first that is good enough
  unfoldable pub try_candidates : Entry → Operation → List ResolvedAuth → Bool
  unfolding grants_access check_permissions
  try_candidates e operation [] = false
  try_candidates e operation (r ∷ rs) =
      let others = try_candidates e operation rs in
      if grants_access r
      then (if verify e r.public_key
          then (if check_permissions r operation then true else others)
          else others)
      else others

  abbrev pub try_resolved : Entry → Checked (List ResolvedAuth) → Bool
  try_resolved e (ok rs) = try_candidates e (operation_of e) rs
  try_resolved e (err x) = false

  -- The code answers with `Ok` on every path.
  unfoldable pub validate_entry : Entry → AuthSettings → Bool
  unfolding malformed_reason has_auth is_unsigned operation_of resolve_sig_key try_candidates
  validate_entry e s =
      if is_some (malformed_reason e.sig)
      then false
      else if is_unsigned e.sig
      then not (has_auth s)
      else if has_auth s
      then try_resolved e (resolve_sig_key decodes instance_of (e.sig).key s)
      else false
