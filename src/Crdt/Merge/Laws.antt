-- ===== src/Crdt/Merge/Laws.antt =====
-- About `Doc::merge` and `Value::merge`, of which crates/lib/src/crdt/traits.rs asks associativity.
use eidetica.Base.{◌≡◌, ◌≢◌, refl, sym, ap, ◌∙◌, String, true, arith}
use eidetica.Crdt.Value.{Value, doc, list, is_leaf, Doc, to_value}
use eidetica.Crdt.Merge.{merge_value, merge_doc}
use eidetica.Crdt.Merge.Shape.{Shape, AllFit, names-Respects, merge-leaf}
use eidetica.Crdt.Merge.Assoc.{AllFit-merge_assoc}

pub record HasShape (s : String → Shape) (d : Doc) : Type 0 where
  pub fits : AllFit s d.children

-- Merging nested documents is merging documents.
merge_value-to_value :
    (a b : Doc) → merge_value (to_value a) (to_value b) ≡ to_value (merge_doc a b)
unfolding merge_value merge_doc
merge_value-to_value a b = ground arith

-- Merging is associative on documents of one shape: `merge_doc (merge_doc a b) c` is
-- `merge_doc a (merge_doc b c)` for all `a`, `b` and `c` that have their keys and positions in order,
-- each once, and that agree on the kind of value (a leaf or tombstone, a document, a list) that is
-- held, if any, under each key of a document and at each position of a list, at every depth, where
-- positions that compare as equal are one. The documents may be atomic or not.
pub merge_doc_assoc :
    (s : String → Shape) (a b c : Doc)
    → HasShape s a
    → HasShape s b
    → HasShape s c
    → merge_doc (merge_doc a b) c ≡ merge_doc a (merge_doc b c)
unfolding merge_doc
merge_doc_assoc s a b c ha hb hc = ground (
  arith,
  AllFit-merge_assoc s (names-Respects s) a.children b.children c.children ha.fits hb.fits hc.fits,
)

merge-over_leaf : (b : Value) (c : Doc) → is_leaf b ≡ true → merge_value b (to_value c) ≡ to_value c
unfolding merge_value
merge-over_leaf (doc a m) c h = cc
merge-over_leaf (list l) c h = cc
merge-over_leaf _ c h = refl

-- Between two documents a leaf or tombstone `b` cuts off the first when merged from the left, and is
-- itself forgotten when merged from the right.
merge_around_leaf :
    (a c : Doc) (b : Value)
    → is_leaf b ≡ true
    → (merge_value (merge_value (to_value a) b) (to_value c) ≡ to_value c)
      × (merge_value (to_value a) (merge_value b (to_value c)) ≡ to_value (merge_doc a c))
merge_around_leaf a c b h = (
  ap (λ t. merge_value t (to_value c)) (merge-leaf (to_value a) b h) ∙ merge-over_leaf b c h,
  ap (merge_value (to_value a)) (merge-over_leaf b c h) ∙ merge_value-to_value a c,
)

-- So merging is not associative around a leaf or tombstone, wherever merging the last document into
-- the first is not the last document itself.
pub merge_not_assoc :
    (a c : Doc) (b : Value)
    → is_leaf b ≡ true
    → to_value (merge_doc a c) ≢ to_value c
    → merge_value (merge_value (to_value a) b) (to_value c)
      ≢ merge_value (to_value a) (merge_value b (to_value c))
merge_not_assoc a c b h differ e =
    let both = merge_around_leaf a c b h in differ (sym both.1 ∙ sym e ∙ both.0)
