-- ===== src/Entry/Tests.antt =====
-- The theorems on building and validating entries, at a small entry.
use eidetica.Base.{String, List, [], ◌∷◌, false, none, some, ◌≡◌, refl, arith}
use eidetica.Auth.Key.{direct}
use eidetica.Entry.{Entry}
use eidetica.Entry.Validate.{validate, passes, well_formed, validate-passes}
use eidetica.Entry.Builder.{EntryBuilder, assemble, build}
use eidetica.Base.Sort.{has}
use eidetica.Entry.Builder.Canonical.{Alike, build-Alike}
use eidetica.Base.{compare_text}
use eidetica.Entry.Order.Texts.{text_order}

abbrev builder : List String → EntryBuilder
builder parents = record {
  tree = record { root = some "R"; parents = parents; metadata = none; height = 1 };
  subtrees = record { name = "notes"; parents = "A" ∷ []; payload = some "{}"; height = none } ∷ [];
  sig = record {
    sig = none;
    key = direct (record { pubkey = none; name = none; is_global = false });
  };
}

abbrev entry : Entry
entry = assemble compare_text (builder ("A" ∷ []))

validate-passes_example : passes (validate entry) ≡ well_formed entry
validate-passes_example = validate-passes entry

swapped : (v : String) → has v ("A" ∷ ("B" ∷ [])) ≡ has v ("B" ∷ ("A" ∷ ("B" ∷ [])))
swapped v = ground arith

alike : Alike text_order (builder ("A" ∷ ("B" ∷ []))) (builder ("B" ∷ ("A" ∷ ("B" ∷ []))))
alike = record {
  same_root = refl;
  same_metadata = refl;
  same_height = refl;
  same_parents = swapped;
  same_subtrees = (refl, refl, refl, (λ v. refl), tt);
  same_sig = refl;
}

build-Alike_example :
    build compare_text (builder ("A" ∷ ("B" ∷ [])))
    ≡ build compare_text (builder ("B" ∷ ("A" ∷ ("B" ∷ []))))
build-Alike_example =
    build-Alike text_order (builder ("A" ∷ ("B" ∷ []))) (builder ("B" ∷ ("A" ∷ ("B" ∷ [])))) alike
