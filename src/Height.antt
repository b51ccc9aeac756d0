-- ===== src/Height.antt =====
-- The height of a new entry: crates/lib/src/height.rs, and the clock for tests of
-- crates/lib/src/clock.rs. A `u64` wraps around where the build does not check for overflow.
mod Tests
use eidetica.Base.{
  ℕ, ◌+◌, ◌%◌, ◌^◌, ◌<◌, Bool, false, Option, none, some, if◌then◌else◌, leb, ◌≡◌, arith,
}

pub data HeightStrategy : Type 0 where
  incremental timestamp : HeightStrategy

pub record FixedClock : Type 0 where
  pub millis : ℕ
  pub held : Bool

abbrev pub u64 : ℕ → ℕ
u64 n = n % 2 ^ 64

-- `FixedClock::now_millis`, which advances by one unless the clock is held
unfoldable pub now_millis : FixedClock → ℕ × FixedClock
now_millis c =
    if c.held then (c.millis, c) else (c.millis, record c { millis = u64 (c.millis + 1) })

unfoldable pub advance : ℕ → FixedClock → FixedClock
advance ms c = record c { millis = u64 (c.millis + ms) }

abbrev pub above_parents : Option ℕ → ℕ
above_parents none = 0
above_parents (some h) = u64 (h + 1)

abbrev pub max_u64 : ℕ → ℕ → ℕ
max_u64 a b = if leb a b then b else a

-- `calculate_height`, at the time that the clock tells
unfoldable pub calculate_height : HeightStrategy → ℕ → Option ℕ → ℕ
calculate_height incremental now parents = above_parents parents
calculate_height timestamp now parents = max_u64 now (above_parents parents)

-- With either strategy and at any time of the clock, the height calculated for an entry is above
-- the height of its parents, provided that this is below 2^64 - 1.
pub calculate_height_above :
    (strategy : HeightStrategy) (now h : ℕ)
    → h + 1 < 2 ^ 64
    → h < calculate_height strategy now (some h)
unfolding calculate_height
calculate_height_above incremental now h room = ground arith
calculate_height_above timestamp now h room = ground arith

-- A clock that is not held tells a later time each time it is asked, until its last millisecond.
now_millis-later :
    (c : FixedClock)
    → c.held ≡ false
    → c.millis + 1 < 2 ^ 64
    → (now_millis c).0 < (now_millis (now_millis c).1).0
unfolding now_millis
now_millis-later c h room = ground arith
