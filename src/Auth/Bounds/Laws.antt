-- ===== src/Auth/Bounds/Laws.antt =====
-- About clamping, crates/lib/src/auth/permission.rs.
use eidetica.Base.{◌≡◌, Bool, true, Option, none, some, arith}
use eidetica.Auth.Permission.{Permission, le_perm}
use eidetica.Auth.Bounds.{PermissionBounds, clamp_permission, can_delegate_with_bounds}

abbrev pub above_min : Option Permission → Permission → Bool
above_min none p = true
above_min (some m) p = le_perm m p

-- The clamped permission never passes the maximum, whether or not the bounds are valid, and clamping
-- it once more changes nothing.
pub clamp_permission_bounds :
    (p : Permission) (b : PermissionBounds)
    → (le_perm (clamp_permission p b) b.max ≡ true)
      × (clamp_permission (clamp_permission p b) b ≡ clamp_permission p b)
unfolding clamp_permission le_perm
clamp_permission_bounds p b = ground arith

-- A key that may set up a delegation never hands on more than it has: every permission clamped to
-- bounds that it may set ranks no higher than the key's own.
pub can_delegate-clamp :
    (own p : Permission) (b : PermissionBounds)
    → can_delegate_with_bounds own b ≡ true
    → le_perm (clamp_permission p b) own ≡ true
unfolding clamp_permission le_perm can_delegate_with_bounds
can_delegate-clamp own p b h = ground arith
