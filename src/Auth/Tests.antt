-- ===== src/Auth/Tests.antt =====
-- The theorems on permissions, bounds and settings at concrete keys and settings.
mod Data
mod Delegated
mod Entries
use eidetica.Base.{
  String, List, [], ◌∷◌, Bool, true, false, Option, none, some, ◌≡◌, ◌≢◌, refl, ◌<◌, ◌^◌, eq_iff,
  arith,
}
use Prim.Native.Nat.Ordering.{eq}
use eidetica.Base.Outcome.{Outcome, ok, err}
use eidetica.Crdt.Path.{contains_dot, is_dot, components, split}
use eidetica.Crdt.Container.{lookup, insert}
use eidetica.Crdt.Doc.{new, get}
use eidetica.Auth.Permission.{
  Permission, admin, write, read, KeyStatus, active, revoked, ordering_value, cmp, gt_perm, le_perm,
}
use eidetica.Auth.Permission.Order.{rank}
use eidetica.Auth.Bounds.{
  PermissionBounds, clamp_permission, validate_permission_bounds, can_delegate_with_bounds,
}
use eidetica.Auth.Bounds.Laws.{above_min, can_delegate-clamp}
use eidetica.Auth.Key.{PublicKey, to_prefixed_string, AuthKey, SigKey}
use eidetica.Auth.Codec.{bounds_to_doc, bounds_from_doc, key_to_doc, key_from_doc}
use eidetica.Auth.Codec.RoundTrip.{key-round_trip}
use eidetica.Auth.Error.{AuthError, key_already_exists, key_not_found}
use eidetica.Auth.Settings.{
  AuthSettings, get_key_by_pubkey, store_key, add_key, revoke_key, get_global_key,
  set_global_permission,
}
use eidetica.Auth.Settings.Paths.{IsBase64}
use eidetica.Auth.Settings.Laws.{get_key-store_key_self, revoke_key_lem}
use eidetica.Auth.Tests.Data.{
  laptop, phone, laptop_key, laptop-IsBase64, phone-IsBase64, phone_ne, empty_settings, with_laptop,
  laptop_stored,
}

abbrev team_bounds : PermissionBounds
team_bounds = record { max = write 10; min = some (write 50) }

can_delegate-clamp_example : le_perm (clamp_permission (admin 0) team_bounds) (write 5) ≡ true
can_delegate-clamp_example =
    can_delegate-clamp (write 5) (admin 0) team_bounds
      (unfold can_delegate_with_bounds validate_permission_bounds gt_perm le_perm cmp in refl)

key-round_trip_example : key_from_doc (key_to_doc laptop_key) ≡ ok laptop_key
key-round_trip_example = key-round_trip laptop_key (omega arith)

laptop_missing :
    get_key_by_pubkey laptop empty_settings ≡ err (key_not_found (to_prefixed_string laptop))
unfolding get_key_by_pubkey contains_dot is_dot components split lookup get to_prefixed_string
laptop_missing = refl

revoke_key_lem_example :
    ((revoke_key laptop with_laptop).0 ≡ ok tt)
    × (get_key_by_pubkey laptop (revoke_key laptop with_laptop).1
        ≡ ok (record { name = some "laptop"; permissions = write 10; status = revoked }))
    × (get_key_by_pubkey phone (revoke_key laptop with_laptop).1
        ≡ get_key_by_pubkey phone with_laptop)
    × (get_global_key (revoke_key laptop with_laptop).1 ≡ get_global_key with_laptop)
revoke_key_lem_example =
    revoke_key_lem laptop phone laptop_key with_laptop laptop-IsBase64 phone-IsBase64 phone_ne
      (omega arith) laptop_stored
