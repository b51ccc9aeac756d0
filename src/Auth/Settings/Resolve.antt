-- ===== src/Auth/Settings/Resolve.antt =====
-- Resolving a key hint, and the access methods of a key: the rest of
-- crates/lib/src/auth/settings.rs.
use Prim.Native.Char.{code}
use eidetica.Base.{
  String, List, [], ◌∷◌, ◌++◌, Bool, false, ◌&&◌, Option, none, some, if◌then◌else◌, ◌==◌, str_eq,
}
use eidetica.Base.Outcome.{ok, err, ok_or, map_err, ◌>>=◌}
use eidetica.Auth.Permission.{Permission, gt_perm, le_perm, can_admin}
use eidetica.Auth.Key.{
  PublicKey, AuthKey, is_active, KeyHint, hint_from_pubkey, hint_global, SigKey, direct,
  ResolvedAuth,
}
use eidetica.Auth.Error.{
  key_not_found, invalid_key_format, invalid_auth_configuration, permission_denied, Checked,
}
use eidetica.Auth.Settings.{
  AuthSettings, get_key_by_pubkey, find_keys_by_name, get_global_key, get_global_permission,
}

-- `str::split_once(':')`
unfoldable pub split_once_colon : String → Option (String × String)
split_once_colon String.[] = none
split_once_colon (String.◌∷◌ c s) =
    let rest = split_once_colon s in
    if code c == b':'
    then some ("", s)
    else elim rest [ none ↦ none | some (a, b) ↦ some (String.◌∷◌ c a, b) ]

abbrev pub resolved : PublicKey → AuthKey → ResolvedAuth
resolved k key = record {
  public_key = k;
  effective_permission = key.permissions;
  key_status = key.status;
}

-- Whether a text is the Base64 of a valid Ed25519 key is up to the crates base64ct and
-- ed25519_dalek.
module _ (decodes : String → Bool) where
  abbrev key_of_parts : Option (String × String) → Checked PublicKey
  key_of_parts none = err invalid_key_format
  key_of_parts (some (prefix, key_data)) =
      if str_eq prefix "ed25519" && decodes key_data
      then ok (record { encoded = key_data })
      else err invalid_key_format

  unfoldable pub from_prefixed_string : String → Checked PublicKey
  from_prefixed_string s = key_of_parts (split_once_colon s)

  unfoldable pub resolve_matches : List (String × AuthKey) → Checked (List ResolvedAuth)
  resolve_matches [] = ok []
  resolve_matches ((pubkey, key) ∷ rest) = do
    k ← from_prefixed_string pubkey
    others ← resolve_matches rest
    ok (resolved k key ∷ others)

  abbrev found_by_name : String → List (String × AuthKey) → Checked (List ResolvedAuth)
  found_by_name name [] = err (key_not_found name)
  found_by_name name (m ∷ ms) = resolve_matches (m ∷ ms)

  abbrev resolve_named : Option String → AuthSettings → Checked (List ResolvedAuth)
  resolve_named none s = ok []
  resolve_named (some name) s = found_by_name name (find_keys_by_name name s)

  abbrev resolve_listed :
      Option PublicKey → Option String → AuthSettings → Checked (List ResolvedAuth)
  resolve_listed none name s = resolve_named name s
  resolve_listed (some k) name s = do key ← get_key_by_pubkey k s; ok (resolved k key ∷ [])

  resolve_global : Option PublicKey → AuthSettings → Checked (List ResolvedAuth)
  resolve_global pubkey s = do
    key ← map_err (λ e. invalid_auth_configuration) (get_global_key s)
    k ← ok_or invalid_auth_configuration pubkey
    ok (resolved k key ∷ [])

  unfoldable pub resolve_hint : KeyHint → AuthSettings → Checked (List ResolvedAuth)
  unfolding resolve_global
  resolve_hint h s =
      if h.is_global then resolve_global h.pubkey s else resolve_listed h.pubkey h.name s

-- a stable sort by permission, the highest first
unfoldable pub insert_desc :
    SigKey × Permission → List (SigKey × Permission) → List (SigKey × Permission)
insert_desc x [] = x ∷ []
insert_desc x (y ∷ ys) =
    let rest = insert_desc x ys in if gt_perm y.1 x.1 then y ∷ rest else x ∷ y ∷ ys

unfoldable pub sort_desc : List (SigKey × Permission) → List (SigKey × Permission)
unfolding insert_desc
sort_desc [] = []
sort_desc (x ∷ xs) = insert_desc x (sort_desc xs)

abbrev pub direct_access : PublicKey → Checked AuthKey → List (SigKey × Permission)
direct_access k (ok key) =
    if is_active key then (direct (hint_from_pubkey k), key.permissions) ∷ [] else []
direct_access k (err e) = []

abbrev pub global_access : PublicKey → Option Permission → List (SigKey × Permission)
global_access k none = []
global_access k (some p) = (direct (hint_global k), p) ∷ []

unfoldable pub find_all_sigkeys_for_pubkey : PublicKey → AuthSettings → List (SigKey × Permission)
unfolding sort_desc is_active
find_all_sigkeys_for_pubkey k s =
    sort_desc (direct_access k (get_key_by_pubkey k s) ++ global_access k (get_global_permission s))

abbrev pub first_access : List (SigKey × Permission) → Checked (SigKey × Permission)
first_access [] = err permission_denied
first_access (x ∷ xs) = ok x

unfoldable pub resolve_sig_key_for_operation :
    PublicKey → AuthSettings → Checked (SigKey × Permission)
unfolding find_all_sigkeys_for_pubkey
resolve_sig_key_for_operation k s = first_access (find_all_sigkeys_for_pubkey k s)

unfoldable pub can_create_key : ResolvedAuth → Permission → Bool
unfolding can_admin le_perm
can_create_key signer new =
    if can_admin signer.effective_permission then le_perm new signer.effective_permission else false

unfoldable pub can_modify_key : ResolvedAuth → PublicKey → AuthSettings → Checked Bool
unfolding can_admin le_perm
can_modify_key signer target s =
    if can_admin signer.effective_permission
    then (do
      key ← get_key_by_pubkey target s
      ok (le_perm key.permissions signer.effective_permission))
    else ok false
