-- ===== src/Auth/Permission.antt =====
-- `Permission`, `KeyStatus` and `Operation` of crates/lib/src/auth/types/permissions.rs.
pub mod Order
use Prim.Native.Nat.{compare}
use Prim.Native.Nat.Ordering.{lt, eq, gt}
use eidetica.Base.{
  ℕ, ◌+◌, ◌-◌, ◌*◌, ◌^◌, ◌<◌, Ordering, Bool, true, false, Option, none, some, if◌then◌else◌,
}

-- The number is a priority, a u32: the lower, the higher it ranks.
pub data Permission : Type 0 where
  admin : ℕ → Permission
  write : ℕ → Permission
  read : Permission

pub data KeyStatus : Type 0 where
  active revoked : KeyStatus

pub data Operation : Type 0 where
  write_data write_settings : Operation

-- `u32::MAX`
abbrev pub u32_max : ℕ
u32_max = 2 ^ 32 - 1

-- `ordering_value`, in u64
unfoldable pub ordering_value : Permission → ℕ
ordering_value read = 0
ordering_value (write p) = 1 + u32_max - p
ordering_value (admin p) = 2 + 2 * u32_max - p

-- `Ord::cmp`
unfoldable pub cmp : Permission → Permission → Ordering
unfolding ordering_value
cmp a b = compare (ordering_value a) (ordering_value b)

-- the operators that `Ord` gives
unfoldable pub gt_perm : Permission → Permission → Bool
unfolding cmp
gt_perm a b = elim (cmp a b) [ gt ↦ true | _ ↦ false ]

unfoldable pub le_perm : Permission → Permission → Bool
unfolding cmp
le_perm a b = elim (cmp a b) [ gt ↦ false | _ ↦ true ]

-- `std::cmp::min` takes the first and `std::cmp::max` the second of two equals.
unfoldable pub min_perm : Permission → Permission → Permission
unfolding gt_perm
min_perm a b = if gt_perm a b then b else a

unfoldable pub max_perm : Permission → Permission → Permission
unfolding gt_perm
max_perm a b = if gt_perm a b then a else b

unfoldable pub priority : Permission → Option ℕ
priority read = none
priority (write p) = some p
priority (admin p) = some p

unfoldable pub can_write : Permission → Bool
can_write read = false
can_write _ = true

unfoldable pub can_admin : Permission → Bool
can_admin (admin p) = true
can_admin _ = false

-- `Permission::clamp_to`
unfoldable pub clamp_to : Permission → Permission → Permission
unfolding min_perm
clamp_to a max_permission = min_perm a max_permission

-- a permission that the code can hold: its priority is a u32
abbrev pub IsU32 : Permission → Type 0
IsU32 read = Unit
IsU32 (write p) = p < 2 ^ 32
IsU32 (admin p) = p < 2 ^ 32
