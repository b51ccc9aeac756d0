-- ===== src/Auth/Key.antt =====
-- Keys and key hints: crates/lib/src/auth/types/keys.rs, and the public key of
-- crates/lib/src/auth/crypto.rs.
use Prim.Native.String.{◌++◌ as str_append}
use eidetica.Base.{
  String, List, Bool, true, false, not, ◌&&◌, ◌||◌, Option, none, some, if◌then◌else◌, str_eq,
}
use eidetica.Auth.Permission.{Permission, KeyStatus, active, revoked}

-- An Ed25519 key, by the Base64 text of its 32 bytes.
pub record PublicKey : Type 0 where
  pub encoded : String

abbrev pub key_eq : PublicKey → PublicKey → Bool
key_eq a b = str_eq a.encoded b.encoded

-- `to_prefixed_string`, which is also the key's `Display`
unfoldable pub to_prefixed_string : PublicKey → String
to_prefixed_string k = str_append "ed25519:" k.encoded

pub record AuthKey : Type 0 where
  pub name : Option String
  pub permissions : Permission
  pub status : KeyStatus

abbrev pub is_active_status : KeyStatus → Bool
is_active_status active = true
is_active_status revoked = false

unfoldable pub is_active : AuthKey → Bool
is_active k = is_active_status k.status

-- `AuthKey::active`
unfoldable pub active_key : Option String → Permission → AuthKey
active_key name permissions = record { name = name; permissions = permissions; status = active }

unfoldable pub set_status : KeyStatus → AuthKey → AuthKey
set_status s k = record k { status = s }

unfoldable pub set_permissions : Permission → AuthKey → AuthKey
set_permissions p k = record k { permissions = p }

unfoldable pub set_name : Option String → AuthKey → AuthKey
set_name n k = record k { name = n }

-- A step names a delegated tree by its root's id and the tips that the signer saw.
pub record DelegationStep : Type 0 where
  pub tree : String
  pub tips : List String

pub record KeyHint : Type 0 where
  pub pubkey : Option PublicKey
  pub name : Option String
  pub is_global : Bool

abbrev pub is_some {ℓ} : {A : Type ℓ} → Option A → Bool
is_some none = false
is_some (some a) = true

unfoldable pub hint_from_pubkey : PublicKey → KeyHint
hint_from_pubkey k = record { pubkey = some k; name = none; is_global = false }

unfoldable pub hint_from_name : String → KeyHint
hint_from_name n = record { pubkey = none; name = some n; is_global = false }

unfoldable pub hint_global : PublicKey → KeyHint
hint_global k = record { pubkey = some k; name = none; is_global = true }

unfoldable pub is_set : KeyHint → Bool
is_set h = is_some h.pubkey || is_some h.name || (h.is_global && is_some h.pubkey)

unfoldable pub hint_type : KeyHint → String
hint_type h =
    if h.is_global && is_some h.pubkey
    then "global"
    else if is_some h.pubkey
    then "pubkey"
    else if is_some h.name
    then "name"
    else "none"

pub data SigKey : Type 0 where
  direct : KeyHint → SigKey
  delegation : List DelegationStep → KeyHint → SigKey

unfoldable pub hint_of : SigKey → KeyHint
hint_of (direct h) = h
hint_of (delegation path h) = h

pub record SigInfo : Type 0 where
  pub sig : Option String
  pub key : SigKey

abbrev pub unsigned_key : SigKey → Bool
unsigned_key (direct h) = not (is_set h)
unsigned_key (delegation path h) = false

unfoldable pub is_unsigned : SigInfo → Bool
unfolding is_set
is_unsigned s = unsigned_key s.key && not (is_some s.sig)

pub data Malformed : Type 0 where
  hint_without_signature signature_without_hint delegation_without_signature : Malformed

abbrev pub malformed_key : SigKey → Option String → Option Malformed
malformed_key (direct h) sig =
    if is_set h && not (is_some sig)
    then some hint_without_signature
    else if not (is_set h) && is_some sig
    then some signature_without_hint
    else none
malformed_key (delegation path h) sig =
    if is_some sig then none else some delegation_without_signature

unfoldable pub malformed_reason : SigInfo → Option Malformed
unfolding is_set
malformed_reason s = malformed_key s.key s.sig

pub record ResolvedAuth : Type 0 where
  pub public_key : PublicKey
  pub effective_permission : Permission
  pub key_status : KeyStatus

unfoldable pub grants_access : ResolvedAuth → Bool
grants_access r = is_active_status r.key_status
