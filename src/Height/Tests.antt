-- ===== src/Height/Tests.antt =====
-- The theorem on heights at a parent that is ahead of the clock.
use eidetica.Base.{◌<◌, some, arith}
use eidetica.Height.{timestamp, calculate_height, calculate_height_above}

calculate_height_above_example : 7 < calculate_height timestamp 5 (some 7)
calculate_height_above_example = calculate_height_above timestamp 5 7 (omega arith)
