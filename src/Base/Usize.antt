-- ===== src/Base/Usize.antt =====
-- `str::parse::<usize>`: an optional plus sign, then one or more decimal digits, in 64 bits.
use Prim.Native.Char.{Char, code}
use eidetica.Base.Tests.{ltb, leb, ◌==◌, if◌then◌else◌}
use Prim.Native.Nat.{ℕ, ◌+◌, ◌-◌, ◌*◌, ◌^◌}
use Prim.Native.String.{String}
use mathlib.Core.Bool.{Bool, ◌&&◌}
use mathlib.Core.Option.{Option, none, some}

is_digit : Char → Bool
is_digit c = leb b'0' (code c) && leb (code c) b'9'

digits_from : ℕ → String → Option ℕ
digits_from acc String.[] = if ltb acc (2 ^ 64) then some acc else none
digits_from acc (String.◌∷◌ c s) =
    let rest = digits_from (acc * 10 + (code c - b'0')) s in if is_digit c then rest else none

digits : String → Option ℕ
digits String.[] = none
digits (String.◌∷◌ c s) = digits_from 0 (String.◌∷◌ c s)

unfoldable pub parse_usize : String → Option ℕ
unfolding digits digits_from is_digit
parse_usize String.[] = none
parse_usize (String.◌∷◌ c s) = if code c == b'+' then digits s else digits (String.◌∷◌ c s)
