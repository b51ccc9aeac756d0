-- ===== src/Crdt/Doc/Sibling.antt =====
-- Writes and reads at two keys below one parent.
use eidetica.Base.{
  String, [], ◌∷◌, Option, none, some, ◌≡◌, ◌≢◌, refl, sym, ap, ◌∙◌, eq_of_compare_text,
  parse_usize,
}
use eidetica.Crdt.Key.{by_name}
use eidetica.Crdt.Value.{Value, doc, list, Entries, Doc}
use eidetica.Crdt.Container.{lookup, insert, lookup-insert_self, lookup-insert_ne}
use eidetica.Crdt.Doc.{get_segments, follow, get_raw, set_segments, set, open_child, and_then}
use eidetica.Crdt.Doc.Laws.{walk, get_raw-walk, children-set}

-- A key that is no list index is not found in a list, nor in a leaf.
follow_child :
    (b : String) (x : Option Value)
    → parse_usize b ≡ none
    → and_then (lookup b (open_child x).children) (follow []) ≡ and_then x (follow (b ∷ []))
unfolding follow lookup
follow_child b none h = refl
follow_child b (some (doc a m)) h = refl
follow_child b (some (list l)) h = rw (follow, h)
follow_child b (some _) h = refl

get-set_segments_sibling :
    (s a b : String) (v : Value) (m : Entries by_name)
    → a ≢ b
    → parse_usize b ≡ none
    → get_segments (s ∷ b ∷ []) (set_segments (s ∷ a ∷ []) v m).1 ≡ get_segments (s ∷ b ∷ []) m
unfolding get_segments follow set_segments
get-set_segments_sibling s a b v m h n =
    let child = open_child (lookup s m) in
    rw (lookup-insert_self s (doc child.atomic (insert a v child.children)) m) (
      rw (lookup-insert_ne a b v child.children (λ e. h (sym (eq_of_compare_text b a e))))
        (follow_child b (lookup s m) n))

pub get_raw-set_sibling :
    (s a b key other : String) (v : Value) (d : Doc)
    → walk key ≡ s ∷ a ∷ []
    → walk other ≡ s ∷ b ∷ []
    → a ≢ b
    → parse_usize b ≡ none
    → get_raw other (set key v d).1 ≡ get_raw other d
get_raw-set_sibling s a b key other v d wk wo h n =
    get_raw-walk other (set key v d).1
    ∙ ap (get_segments (walk other)) (children-set key v d).0
    ∙ rw (wk, wo) (get-set_segments_sibling s a b v d.children h n)
    ∙ sym (get_raw-walk other d)
