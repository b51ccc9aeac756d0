-- ===== src/Auth/Bounds.antt =====
-- `PermissionBounds` of crates/lib/src/auth/types/permissions.rs and the clamping of delegated
-- permissions, crates/lib/src/auth/permission.rs.
pub mod Laws
use eidetica.Base.{Bool, true, false, Option, none, some, if◌then◌else◌}
use eidetica.Auth.Permission.{Permission, read, cmp, gt_perm, le_perm}

pub record PermissionBounds : Type 0 where
  pub max : Permission
  pub min : Option Permission

-- `Default`
abbrev pub default_bounds : PermissionBounds
default_bounds = record { max = read; min = none }

unfoldable pub validate_permission_bounds : PermissionBounds → Bool
unfolding le_perm
validate_permission_bounds b = elim b.min [ none ↦ true | some m ↦ le_perm m b.max ]

abbrev pub raise_to : Permission → Option Permission → Permission
raise_to p none = p
raise_to p (some m) = if gt_perm m p then m else p

unfoldable pub clamp_permission : Permission → PermissionBounds → Permission
unfolding validate_permission_bounds gt_perm
clamp_permission p b =
    if validate_permission_bounds b
    then (if gt_perm p b.max then b.max else raise_to p b.min)
    else if gt_perm p b.max
    then b.max
    else p

unfoldable pub can_delegate_with_bounds : Permission → PermissionBounds → Bool
unfolding validate_permission_bounds gt_perm
can_delegate_with_bounds p b = if gt_perm b.max p then false else validate_permission_bounds b
