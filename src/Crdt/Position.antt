-- ===== src/Crdt/Position.antt =====
-- `Position` of crates/lib/src/crdt/doc/list.rs: a rational number with an identifier that breaks
-- ties. `Position::new` asserts a positive denominator, so a position keeps the number below it. A
-- `Uuid` is the number that its 128 bits write, by which uuids are compared.
use Prim.Native.Nat.{compare}
use native.Mathlib.Nat.{
  mul-le-mul_left, mul-lt-mul_of_pos_left, lt_of_mul-lt-mul_left, le_of_mul-le-mul_left,
}
use eidetica.Base.{ℕ, suc, ◌+◌, ◌*◌, ◌≤◌, ◌<◌, ◌≡◌, ℤ, pos_part, neg_part, arith, Ordering}

pub record Position : Type 0 where
  pub numerator : ℤ
  pub below_denominator : ℕ
  pub unique_id : ℕ

abbrev pub denominator : Position → ℕ
denominator p = suc p.below_denominator

-- a/b against c/d is a * d against c * b; both sides are shifted by what is negative. The products
-- of an i64 and a u64 fit the i128 in which the code multiplies.
abbrev pub left_side : Position → Position → ℕ
left_side p q = pos_part p.numerator * denominator q + neg_part q.numerator * denominator p

abbrev pub compare_value : Position → Position → Ordering
compare_value p q = compare (left_side p q) (left_side q p)

abbrev pub or_else : Ordering → Ordering → Ordering
or_else Ordering.eq second = second
or_else first _ = first

-- `Ord::cmp`
abbrev pub compare_position : Position → Position → Ordering
compare_position p q = or_else (compare_value p q) (compare p.unique_id q.unique_id)

pub compare_position_refl : (p : Position) → compare_position p p ≡ Ordering.eq
compare_position_refl p = ground arith

pub gt_of_lt_position :
    (p q : Position) → compare_position p q ≡ Ordering.lt → compare_position q p ≡ Ordering.gt
gt_of_lt_position p q h = ground arith

pub lt_of_gt_position :
    (p q : Position) → compare_position p q ≡ Ordering.gt → compare_position q p ≡ Ordering.lt
lt_of_gt_position p q h = ground arith

-- What two comparisons of cross products say of the third, in plain numbers.
module _ (lpq rpq lqr rqr lpr rpr b d f k : ℕ) where
  abbrev Balanced : Type 0
  Balanced =
      (suc d * lpr + k ≡ suc f * lpq + suc b * lqr) × (suc d * rpr + k ≡ suc f * rpq + suc b * rqr)

  chain-le-lt : Balanced → lpq ≤ rpq → lqr < rqr → lpr < rpr
  chain-le-lt e h₁ h₂ = lt_of_mul-lt-mul_left (suc d) (
      omega
        (arith, mul-le-mul_left (suc f) h₁, mul-lt-mul_of_pos_left {k = suc b} h₂ (omega arith)))

  chain-lt-le : Balanced → lpq < rpq → lqr ≤ rqr → lpr < rpr
  chain-lt-le e h₁ h₂ = lt_of_mul-lt-mul_left (suc d) (
      omega
        (arith, mul-lt-mul_of_pos_left {k = suc f} h₁ (omega arith), mul-le-mul_left (suc b) h₂))

  chain-le : Balanced → lpq ≤ rpq → lqr ≤ rqr → lpr ≤ rpr
  chain-le e h₁ h₂ =
      le_of_mul-le-mul_left {k = suc d}
        (omega (arith, mul-le-mul_left (suc f) h₁, mul-le-mul_left (suc b) h₂)) (omega arith)

module _ (p q r : Position) where
  -- the cross products of p and q, and of q and r, over the denominator of the third
  balance : ℕ
  balance = (pos_part q.numerator + neg_part q.numerator) * (denominator p * denominator r)

  cross :
      Balanced
        (left_side p q)
        (left_side q p)
        (left_side q r)
        (left_side r q)
        (left_side p r)
        (left_side r p)
        p.below_denominator
        q.below_denominator
        r.below_denominator
        balance
  unfolding balance
  cross = omega arith

  value-le-lt :
      left_side p q ≤ left_side q p → left_side q r < left_side r q → left_side p r < left_side r p
  value-le-lt = chain-le-lt _ _ _ _ _ _ _ _ _ _ cross

  value-lt-le :
      left_side p q < left_side q p → left_side q r ≤ left_side r q → left_side p r < left_side r p
  value-lt-le = chain-lt-le _ _ _ _ _ _ _ _ _ _ cross

  value-le :
      left_side p q ≤ left_side q p → left_side q r ≤ left_side r q → left_side p r ≤ left_side r p
  value-le = chain-le _ _ _ _ _ _ _ _ _ _ cross

pub lt_trans_position :
    (p q r : Position)
    → compare_position p q ≡ Ordering.lt
    → compare_position q r ≡ Ordering.lt
    → compare_position p r ≡ Ordering.lt
lt_trans_position p q r h k = ground (arith, value-le-lt p q r, value-lt-le p q r, value-le p q r)

pub compare_position-eq_left :
    (p q r : Position)
    → compare_position p q ≡ Ordering.eq
    → compare_position p r ≡ compare_position q r
compare_position-eq_left p q r h =
    ground (arith, value-le-lt p q r, value-le p q r, value-le r q p, value-lt-le r q p)
