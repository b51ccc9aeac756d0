-- ===== src/Auth/Settings/Laws.antt =====
-- About writes to the settings, crates/lib/src/auth/settings.rs.
use eidetica.Base.{String, List, ◌∷◌, true, some, ◌≡◌, ◌≢◌, refl, sym, arith, eq_iff}
use eidetica.Base.Outcome.{ok, err}
use eidetica.Crdt.Path.{contains_dot, is_dot}
use eidetica.Crdt.Value.{to_value}
use eidetica.Crdt.Doc.{get, shown}
use eidetica.Crdt.Doc.Laws.{addressable, get-set, walk, get_raw-set_ne, Apart}
use eidetica.Crdt.Doc.Sibling.{get_raw-set_sibling}
use eidetica.Auth.Permission.{IsU32, revoked}
use eidetica.Auth.Key.{PublicKey, to_prefixed_string, AuthKey}
use eidetica.Auth.Codec.{key_to_doc}
use eidetica.Auth.Codec.RoundTrip.{key-round_trip}
use eidetica.Auth.Error.{AuthError}
use eidetica.Auth.Settings.{
  AuthSettings, key_path, read_key, get_key_by_pubkey, store_key, add_key, update_key, revoke_key,
  get_global_key,
}
use eidetica.Auth.Settings.Paths.{IsBase64, walk-key_path, prefixed_ne, prefixed_no_index}

addressable-walk :
    (key s : String) (rest : List String) → walk key ≡ s ∷ rest → addressable key ≡ true
unfolding walk
addressable-walk key s rest h = ground arith

read-round_trip :
    (name : String) (key : AuthKey)
    → IsU32 key.permissions
    → read_key name (shown (some (to_value (key_to_doc key)))) ≡ ok key
read-round_trip name key h = rw (key-round_trip key h)

global-Apart : (k : PublicKey) → IsBase64 k → Apart (walk (key_path k)) (walk "global")
global-Apart k b =
    rw (walk-key_path k b)
      (unfold walk contains_dot is_dot in ground (arith, eq_iff "keys" "global"))

Apart-global : (k : PublicKey) → IsBase64 k → Apart (walk "global") (walk (key_path k))
Apart-global k b =
    rw (walk-key_path k b)
      (unfold walk contains_dot is_dot in ground (arith, eq_iff "global" "keys"))

module _ (k : PublicKey) (key : AuthKey) (s : AuthSettings) (b : IsBase64 k) where
  pub get_key-store_key_self :
      IsU32 key.permissions → get_key_by_pubkey k (store_key k key s) ≡ ok key
  unfolding get_key_by_pubkey store_key
  get_key-store_key_self h =
      let v = to_value (key_to_doc key) in
      rw ((get-set (key_path k) v s.inner).0, addressable-walk (key_path k) _ _ (walk-key_path k b))
        (read-round_trip (to_prefixed_string k) key h)

  get_key-store_key_ne :
      (j : PublicKey)
      → IsBase64 j
      → j ≢ k
      → get_key_by_pubkey j (store_key k key s) ≡ get_key_by_pubkey j s
  unfolding get_key_by_pubkey store_key get
  get_key-store_key_ne j bj n =
      let v = to_value (key_to_doc key) in
      rw (
        get_raw-set_sibling "keys" (to_prefixed_string k) (to_prefixed_string j) (key_path k)
          (key_path j) v s.inner (walk-key_path k b) (walk-key_path j bj)
          (λ e. prefixed_ne j k n (sym e)) (prefixed_no_index j))

  pub get_global_key-store_key : get_global_key (store_key k key s) ≡ get_global_key s
  unfolding get_global_key store_key get
  get_global_key-store_key =
      rw (
        get_raw-set_ne (key_path k) "global" (to_value (key_to_doc key)) s.inner (global-Apart k b))

  -- `add_key` of a key, of a Base64 text and with a u32 priority, that cannot be read yet stores it:
  -- the key is read back as it was added, and any other key of a Base64 text and the wildcard grant
  -- are as before.
  add_key_fresh :
      (j : PublicKey) (e : AuthError)
      → IsU32 key.permissions
      → get_key_by_pubkey k s ≡ err e
      → IsBase64 j
      → j ≢ k
      → ((add_key k key s).0 ≡ ok tt)
        × (get_key_by_pubkey k (add_key k key s).1 ≡ ok key)
        × (get_key_by_pubkey j (add_key k key s).1 ≡ get_key_by_pubkey j s)
        × (get_global_key (add_key k key s).1 ≡ get_global_key s)
  add_key_fresh j x h e bj n =
      let stored : add_key k key s ≡ (ok tt, store_key k key s) =
        unfold add_key in rw (e, add_key) in
      rw stored
        (refl, get_key-store_key_self h, get_key-store_key_ne j bj n, get_global_key-store_key)

pub revoke_key-store_key :
    (k : PublicKey) (key : AuthKey) (s : AuthSettings)
    → get_key_by_pubkey k s ≡ ok key
    → revoke_key k s ≡ (ok tt, store_key k (record key { status = revoked }) s)
unfolding revoke_key
revoke_key-store_key k key s e = rw (e, update_key)

-- `revoke_key` of a key of a Base64 text that can be read and has a u32 priority: it is read back
-- with its name and permissions and the status Revoked, and any other key of a Base64 text and the
-- wildcard grant are as before.
pub revoke_key_lem :
    (k j : PublicKey) (key : AuthKey) (s : AuthSettings)
    → IsBase64 k
    → IsBase64 j
    → j ≢ k
    → IsU32 key.permissions
    → get_key_by_pubkey k s ≡ ok key
    → ((revoke_key k s).0 ≡ ok tt)
      × (get_key_by_pubkey k (revoke_key k s).1 ≡ ok (record key { status = revoked }))
      × (get_key_by_pubkey j (revoke_key k s).1 ≡ get_key_by_pubkey j s)
      × (get_global_key (revoke_key k s).1 ≡ get_global_key s)
revoke_key_lem k j key s b bj n h e =
    let gone : AuthKey = record key { status = revoked } in
    rw (revoke_key-store_key k key s e) (
      refl,
      get_key-store_key_self k gone s b h,
      get_key-store_key_ne k gone s b j bj n,
      get_global_key-store_key k gone s b,
    )
