-- ===== src/Auth/Permission/Order.antt =====
-- The order of permissions: by level, and by priority within a level.
use Prim.Native.Nat.{compare}
use eidetica.Base.{ℕ, ◌≡◌, Ordering, true, arith}
use eidetica.Auth.Permission.{Permission, admin, write, read, cmp, gt_perm, le_perm, min_perm}

abbrev pub level : Permission → ℕ
level read = 0
level (write p) = 1
level (admin p) = 2

-- the rank as the documentation has it: every admin is above every writer, every writer above every
-- reader, and within a level the lower priority number is the higher rank
abbrev pub rank : Permission → Permission → Ordering
rank (admin p) (admin q) = compare q p
rank (write p) (write q) = compare q p
rank a b = compare (level a) (level b)

pub le_perm_refl : (p : Permission) → le_perm p p ≡ true
unfolding le_perm cmp
le_perm_refl p = ground arith

pub le_perm_trans :
    (p q r : Permission) → le_perm p q ≡ true → le_perm q r ≡ true → le_perm p r ≡ true
unfolding le_perm cmp
le_perm_trans p q r h k = ground arith

pub min_perm-le :
    (p q : Permission) → (le_perm (min_perm p q) p ≡ true) × (le_perm (min_perm p q) q ≡ true)
unfolding le_perm min_perm gt_perm cmp
min_perm-le p q = ground arith
