-- ===== src/Auth/Settings.antt =====
-- `AuthSettings` of crates/lib/src/auth/settings.rs: a view of the document at `_settings.auth`. Keys
-- stand at `keys.<public key>`, the wildcard grant at `global`.
pub mod Paths
pub mod Resolve
pub mod Choice
pub mod Laws
use Prim.Native.String.{◌++◌ as str_append}
use eidetica.Base.{
  String, List, [], ◌∷◌, Bool, true, false, Option, none, some, if◌then◌else◌, str_eq, keep,
}
use eidetica.Base.Outcome.{Outcome, ok, err, map_err, ◌>>=◌}
use eidetica.Crdt.Key.{by_name}
use eidetica.Crdt.Value.{Value, doc, Entries, end, entry, Doc, to_value}
use eidetica.Crdt.Doc.{get, set}
use eidetica.Auth.Permission.{Permission, KeyStatus, revoked}
use eidetica.Auth.Key.{
  PublicKey, to_prefixed_string, AuthKey, is_active, set_status, set_name, KeyHint,
}
use eidetica.Auth.Codec.{put, key_to_doc, key_from_doc, get_doc}
use eidetica.Auth.Error.{AuthError, key_not_found, key_already_exists, invalid_key_format, Checked}

pub record AuthSettings : Type 0 where
  pub inner : Doc

abbrev pub key_path : PublicKey → String
key_path k = str_append "keys." (to_prefixed_string k)

-- what `get_key_by_str` and `get_global_key` make of what is stored
abbrev pub read_key : String → Option Value → Checked AuthKey
read_key name none = err (key_not_found name)
read_key name (some (doc a m)) =
    map_err (λ e. invalid_key_format) (key_from_doc (record { atomic = a; children = m }))
read_key name (some _) = err invalid_key_format

unfoldable pub get_key_by_str : String → AuthSettings → Checked AuthKey
get_key_by_str pubkey s = read_key pubkey (get (str_append "keys." pubkey) s.inner)

unfoldable pub get_key_by_pubkey : PublicKey → AuthSettings → Checked AuthKey
unfolding get_key_by_str
get_key_by_pubkey k s = get_key_by_str (to_prefixed_string k) s

-- The writes of the key at its path.
unfoldable pub store_key : PublicKey → AuthKey → AuthSettings → AuthSettings
store_key k key s = record { inner = put (key_path k) (to_value (key_to_doc key)) s.inner }

unfoldable pub overwrite_key : PublicKey → AuthKey → AuthSettings → AuthSettings
unfolding store_key
overwrite_key k key s = store_key k key s

-- A method that may fail hands back the settings that it leaves.
unfoldable pub add_key : PublicKey → AuthKey → AuthSettings → Checked (Unit {0}) × AuthSettings
unfolding store_key
add_key k key s = elim (get_key_by_pubkey k s) [
  | ok found ↦ (err (key_already_exists (to_prefixed_string k)), s)
  | err e ↦ (ok tt, store_key k key s)
]

abbrev pub update_key :
    (AuthKey → AuthKey) → PublicKey → AuthSettings → Checked (Unit {0}) × AuthSettings
update_key f k s = elim (get_key_by_pubkey k s) [
  | ok key ↦ (ok tt, store_key k (f key) s)
  | err e ↦ (err e, s)
]

unfoldable pub rename_key :
    PublicKey → Option String → AuthSettings → Checked (Unit {0}) × AuthSettings
unfolding store_key set_name
rename_key k name s = update_key (set_name name) k s

unfoldable pub revoke_key : PublicKey → AuthSettings → Checked (Unit {0}) × AuthSettings
unfolding store_key set_status
revoke_key k s = update_key (set_status revoked) k s

-- the live entries of the "keys" document that hold a key
abbrev pub with_key :
    String → Outcome AuthError AuthKey → List (String × AuthKey) → List (String × AuthKey)
with_key k (ok key) rest = (k, key) ∷ rest
with_key k (err e) rest = rest

unfoldable pub keys_of : Entries by_name → List (String × AuthKey)
keys_of end = []
keys_of (entry k (doc a m) rest) = with_key k (read_key k (some (doc a m))) (keys_of rest)
keys_of (entry k v rest) = keys_of rest

-- `get_all_keys`, in the order of the keys' texts
unfoldable pub get_all_keys : AuthSettings → List (String × AuthKey)
unfolding keys_of
get_all_keys s = elim (get_doc "keys" s.inner) [ none ↦ [] | some d ↦ keys_of d.children ]

abbrev pub has_name : String → Option String → Bool
has_name n none = false
has_name n (some m) = str_eq m n

-- `find_keys_by_name` sorts by public key, the order in which the keys stand here.
unfoldable pub find_keys_by_name : String → AuthSettings → List (String × AuthKey)
unfolding get_all_keys
find_keys_by_name n s = keep (λ entry. has_name n (entry.1).name) (get_all_keys s)

unfoldable pub set_global_permission : AuthKey → AuthSettings → AuthSettings
set_global_permission key s = record { inner = put "global" (to_value (key_to_doc key)) s.inner }

unfoldable pub get_global_key : AuthSettings → Checked AuthKey
get_global_key s = read_key "global" (get "global" s.inner)

abbrev pub active_permission : Checked AuthKey → Option Permission
active_permission (ok key) = if is_active key then some key.permissions else none
active_permission (err e) = none

unfoldable pub get_global_permission : AuthSettings → Option Permission
unfolding get_global_key is_active
get_global_permission s = active_permission (get_global_key s)
