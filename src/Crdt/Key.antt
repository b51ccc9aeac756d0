-- ===== src/Crdt/Key.antt =====
-- The two kinds of keyed container in a document: a `Doc`'s children are keyed by text (a
-- `HashMap<String, Value>`), a `List`'s items by position (a `BTreeMap<Position, Value>`).
use Prim.Native.Nat.Ordering.{lt, eq, gt}
use eidetica.Base.{
  ◌≡◌, sym, ap, ◌∙◌, String, Ordering, compare_text, compare_text_refl, eq_of_compare_text,
  gt_of_lt_text, lt_of_gt_text, lt_trans_text, arith,
}
use eidetica.Crdt.Position.{
  Position, compare_position, compare_position_refl, gt_of_lt_position, lt_of_gt_position,
  lt_trans_position, compare_position-eq_left,
}

pub data Keyed : Type 0 where
  by_name by_position : Keyed

abbrev pub Key : Keyed → Type 0
Key by_name = String
Key by_position = Position

abbrev pub compare_key : (c : Keyed) → Key c → Key c → Ordering
compare_key by_name = compare_text
compare_key by_position = compare_position

pub compare_key_refl : (c : Keyed) (a : Key c) → compare_key c a a ≡ eq
compare_key_refl by_name a = compare_text_refl a
compare_key_refl by_position a = compare_position_refl a

pub gt_of_lt-Key : (c : Keyed) (a b : Key c) → compare_key c a b ≡ lt → compare_key c b a ≡ gt
gt_of_lt-Key by_name a b h = gt_of_lt_text a b h
gt_of_lt-Key by_position a b h = gt_of_lt_position a b h

pub lt_of_gt-Key : (c : Keyed) (a b : Key c) → compare_key c a b ≡ gt → compare_key c b a ≡ lt
lt_of_gt-Key by_name a b h = lt_of_gt_text a b h
lt_of_gt-Key by_position a b h = lt_of_gt_position a b h

pub lt_trans_Key :
    (c : Keyed) (x y z : Key c)
    → compare_key c x y ≡ lt
    → compare_key c y z ≡ lt
    → compare_key c x z ≡ lt
lt_trans_Key by_name x y z h k = lt_trans_text x y z h k
lt_trans_Key by_position x y z h k = lt_trans_position x y z h k

-- Keys that compare as equal compare alike with every other key.
pub eq_left-Key :
    (c : Keyed) (x y z : Key c) → compare_key c x y ≡ eq → compare_key c x z ≡ compare_key c y z
eq_left-Key by_name x y z h = ap (λ (t : String). compare_text t z) (eq_of_compare_text x y h)
eq_left-Key by_position x y z h = compare_position-eq_left x y z h

pub eq_symm_Key : (c : Keyed) (x y : Key c) → compare_key c x y ≡ eq → compare_key c y x ≡ eq
eq_symm_Key c x y h = sym (eq_left-Key c x y x h) ∙ compare_key_refl c x

flip : Ordering → Ordering
flip lt = gt
flip eq = eq
flip gt = lt

flip-Key : (c : Keyed) (x y : Key c) → compare_key c y x ≡ flip (compare_key c x y)
unfolding flip
flip-Key c x y = ground (arith, gt_of_lt-Key c x y, eq_symm_Key c x y, lt_of_gt-Key c x y)

pub eq_right-Key :
    (c : Keyed) (x y z : Key c) → compare_key c x y ≡ eq → compare_key c z x ≡ compare_key c z y
eq_right-Key c x y z h = flip-Key c x z ∙ ap flip (eq_left-Key c x y z h) ∙ sym (flip-Key c y z)
