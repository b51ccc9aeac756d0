-- ===== src/Crdt/Tests.antt =====
-- The theorems on documents at concrete documents and paths.
use eidetica.Base.{
  ℕ, ◌==◌, ap, ℤ, String, true, false, none, some, ◌≡◌, ◌≢◌, ◌⊎◌, refl, pos, if◌then◌else◌, str_eq,
  arith,
}
use eidetica.Crdt.Key.{by_position}
use eidetica.Crdt.Value.{Entries, list, int, text, doc, deleted, end, entry, Doc, to_value}
use eidetica.Crdt.Merge.{merge_value, merge_entries, merge_doc}
use eidetica.Crdt.Merge.Shape.{Shape, Respects, leaf, doc_of, list_of}
use eidetica.Crdt.Merge.Laws.{HasShape, merge_doc_assoc, merge_not_assoc}
use eidetica.Crdt.Position.{Position}
use eidetica.Crdt.Path.{contains_dot, is_dot, components, split}
use eidetica.Crdt.Doc.{get_raw, set}
use eidetica.Crdt.Doc.Laws.{addressable, set-get_raw}

abbrev at_with : ℕ → ℤ → Position
at_with id n = record { numerator = n; below_denominator = 0; unique_id = id }

abbrev at : ℤ → Position
at = at_with 7

-- a list of a text and of a document
abbrev tasks : Entries by_position
tasks =
    entry (at (pos 0)) (text "tea")
      (entry (at_with 1 (pos 1)) (doc false (entry "done" (int (pos 0)) end)) end)

abbrev profile : Doc
profile = record {
  atomic = false;
  children =
      entry "age" (int (pos 30)) (
        entry "name" (doc false (entry "first" (text "Ada") end)) (entry "tasks" (list tasks) end));
}

abbrev renamed : Doc
renamed = record {
  atomic = false;
  children = entry "name" (doc false (entry "last" (text "L") end)) (
      entry "tasks"
        (list (entry (at_with 1 (pos 1)) (doc false (entry "done" (int (pos 1)) end)) end)) end);
}

abbrev replaced : Doc
replaced = record {
  atomic = false;
  children = entry "age" deleted (entry "name" (doc true (entry "first" (text "Eve") end)) end);
}

abbrev task : Position → Shape
task p = if p.unique_id == 1 then doc_of (λ part. leaf) else leaf

task-Respects : Respects by_position task
task-Respects x y h =
    let same : x.unique_id ≡ y.unique_id = ground arith in
    ap (λ n. if n == 1 then doc_of (λ part. leaf) else leaf) same

abbrev people : String → Shape
people k =
    if str_eq k "name"
    then doc_of (λ part. leaf)
    else if str_eq k "tasks"
    then list_of task
    else leaf

profile-HasShape : HasShape people profile
profile-HasShape = record {
  fits = (
    (refl, (refl, tt)),
    refl,
    (
      (refl, tt),
      (tt, refl, tt),
      (tt, (task-Respects, ((refl, tt), refl, (tt, (tt, refl, tt), tt))), tt),
    ),
  );
}

renamed-HasShape : HasShape people renamed
renamed-HasShape = record {
  fits = ((refl, tt), (tt, refl, tt), (tt, (task-Respects, (tt, (tt, refl, tt), tt)), tt));
}

replaced-HasShape : HasShape people replaced
replaced-HasShape = record { fits = ((refl, tt), refl, (tt, (tt, refl, tt), tt)) }

merge_doc_assoc_example :
    merge_doc (merge_doc profile renamed) replaced ≡ merge_doc profile (merge_doc renamed replaced)
merge_doc_assoc_example =
    merge_doc_assoc people profile renamed replaced profile-HasShape renamed-HasShape
      replaced-HasShape

-- the merge keeps the age, which the second document does not have
age_kept : to_value (merge_doc profile renamed) ≢ to_value renamed
unfolding merge_doc merge_entries merge_value
age_kept e = grind arith

merge_not_assoc_example :
    merge_value (merge_value (to_value profile) deleted) (to_value renamed)
    ≢ merge_value (to_value profile) (merge_value deleted (to_value renamed))
merge_not_assoc_example = merge_not_assoc profile renamed deleted refl age_kept

set-get_raw_example :
    ((addressable "name.first" ≡ true)
      × (get_raw "name.first" (set "name.first" (text "Eve") profile).1 ≡ some (text "Eve")))
    ⊎ ((addressable "name.first" ≡ false)
        × (set "name.first" (text "Eve") profile ≡ (none, profile)))
set-get_raw_example = set-get_raw "name.first" (text "Eve") profile

dots_store_nothing : set "." (text "Eve") profile ≡ (none, profile)
unfolding set contains_dot is_dot components split
dots_store_nothing = refl

-- a list whose first item was removed
abbrev shopping : Entries by_position
shopping =
    entry (at (pos 0)) deleted
      (entry (at (pos 1)) (text "tea") (entry (at (pos 2)) (text "milk") end))
