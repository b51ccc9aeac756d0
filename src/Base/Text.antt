-- ===== src/Base/Text.antt =====
-- The order of texts by their characters' numbers, and its laws.
use Prim.Native.Char.{Char, code}
use Prim.Native.Nat.{compare as compare_ℕ, Ordering}
use Prim.Native.String.compare
use Prim.Native.String.{String, compare, then}
use mathlib.Core.Path.{◌≡◌}
use native.Mathlib.Omega.{arith}
use text.Mathlib.TextEquality.{path_by_compare}
use text.Mathlib.TextPositions.{compare_refl}
pub use text.Mathlib.Text.{◌==◌ as str_eq}
pub use text.Mathlib.TextEquality.{eq_iff}
pub use text.Mathlib.TextPositions.{eq_refl}

abbrev pub compare_text : String → String → Ordering
compare_text = compare

pub compare_text_refl : (s : String) → compare_text s s ≡ Ordering.eq
compare_text_refl s = compare_refl s

pub eq_of_compare_text : (s t : String) → compare_text s t ≡ Ordering.eq → s ≡ t
eq_of_compare_text s t h = path_by_compare s t h

nil-nil_lem : compare String.[] String.[] ≡ Ordering.eq
nil-nil_lem = compare.nil-nil

nil-cons_lem : (d : Char) (t : String) → compare String.[] (String.◌∷◌ d t) ≡ Ordering.lt
nil-cons_lem d t = compare.nil-cons d t

pub cons-nil_lem : (c : Char) (s : String) → compare (String.◌∷◌ c s) String.[] ≡ Ordering.gt
cons-nil_lem c s = compare.cons-nil c s

cons-cons_lem :
    (c d : Char) (s t : String)
    → compare (String.◌∷◌ c s) (String.◌∷◌ d t) ≡ then (compare_ℕ (code c) (code d)) (compare s t)
cons-cons_lem c d s t = compare.cons-cons c d s t

pub gt_of_lt_text : (s t : String) → compare_text s t ≡ Ordering.lt → compare_text t s ≡ Ordering.gt
gt_of_lt_text String.[] String.[] h = cc nil-nil_lem
gt_of_lt_text String.[] (String.◌∷◌ d t) h = cons-nil_lem d t
gt_of_lt_text (String.◌∷◌ c s) String.[] h = cc (cons-nil_lem c s)
gt_of_lt_text (String.◌∷◌ c s) (String.◌∷◌ d t) h =
    ground (arith, cons-cons_lem c d s t, cons-cons_lem d c t s, gt_of_lt_text s t)

pub lt_of_gt_text : (s t : String) → compare_text s t ≡ Ordering.gt → compare_text t s ≡ Ordering.lt
lt_of_gt_text String.[] String.[] h = cc nil-nil_lem
lt_of_gt_text String.[] (String.◌∷◌ d t) h = cc (nil-cons_lem d t)
lt_of_gt_text (String.◌∷◌ c s) String.[] h = nil-cons_lem c s
lt_of_gt_text (String.◌∷◌ c s) (String.◌∷◌ d t) h =
    ground (arith, cons-cons_lem c d s t, cons-cons_lem d c t s, lt_of_gt_text s t)

pub lt_trans_text :
    (s t u : String)
    → compare_text s t ≡ Ordering.lt
    → compare_text t u ≡ Ordering.lt
    → compare_text s u ≡ Ordering.lt
lt_trans_text String.[] String.[] u h k = k
lt_trans_text String.[] (String.◌∷◌ d t) String.[] h k = cc (cons-nil_lem d t)
lt_trans_text String.[] (String.◌∷◌ d t) (String.◌∷◌ e u) h k = nil-cons_lem e u
lt_trans_text (String.◌∷◌ c s) String.[] u h k = cc (cons-nil_lem c s)
lt_trans_text (String.◌∷◌ c s) (String.◌∷◌ d t) String.[] h k = cc (cons-nil_lem d t)
lt_trans_text (String.◌∷◌ c s) (String.◌∷◌ d t) (String.◌∷◌ e u) h k = ground (
  arith,
  cons-cons_lem c d s t,
  cons-cons_lem d e t u,
  cons-cons_lem c e s u,
  lt_trans_text s t u,
)

pub str_eq_comm : (v w : String) → str_eq v w ≡ str_eq w v
str_eq_comm v w = ground (arith, eq_iff v w, eq_iff w v)
