-- ===== src/Entry/Order/Texts.antt =====
-- Ids in the order of texts, for the tests.
use eidetica.Base.{
  String, true, false, ◌≡◌, compare_text, eq_of_compare_text, gt_of_lt_text, lt_of_gt_text,
  lt_trans_text, Ordering-cases, less, same, more, ap, subst, sym, arith,
}
use eidetica.Base.Sort.{not_after}
use eidetica.Entry.Order.{IdOrder}

pub text_total :
    (a b : String) → not_after (compare_text a b) ≡ false → not_after (compare_text b a) ≡ true
text_total a b h = ground (arith, lt_of_gt_text a b)

pub text_trans :
    (a b c : String)
    → not_after (compare_text a b) ≡ true
    → not_after (compare_text b c) ≡ true
    → not_after (compare_text a c) ≡ true
text_trans a b c h k = elim (Ordering-cases (compare_text a b)) [
  | less l ↦ elim (Ordering-cases (compare_text b c)) [
    | less m ↦ ap not_after (lt_trans_text a b c l m)
    | same m ↦ subst (λ x. not_after (compare_text a x) ≡ true) (eq_of_compare_text b c m) h
    | more m ↦ absurd (cc)
  ]
  | same l ↦ subst (λ x. not_after (compare_text x c) ≡ true) (sym (eq_of_compare_text a b l)) k
  | more l ↦ absurd (cc)
]

pub text_antisym :
    (a b : String)
    → not_after (compare_text a b) ≡ true
    → not_after (compare_text b a) ≡ true
    → a ≡ b
text_antisym a b h k = elim (Ordering-cases (compare_text a b)) [
  | less l ↦ absurd (cc (gt_of_lt_text a b l))
  | same l ↦ eq_of_compare_text a b l
  | more l ↦ absurd (cc)
]

abbrev pub text_order : IdOrder
text_order = record {
  compare_ids = compare_text;
  total = text_total;
  trans = text_trans;
  antisym = text_antisym;
}
