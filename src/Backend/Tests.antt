-- ===== src/Backend/Tests.antt =====
-- The theorems on the backend at a root and two children, which arrive out of order.
mod Traversal
mod Caching
use eidetica.Base.{
  String, List, [], ◌∷◌, false, not, ◌&&◌, none, some, ◌≡◌, refl, if◌then◌else◌, str_eq,
}
use eidetica.Base.Outcome.{ok, err}
use eidetica.Entry.{Entry, subtrees_of}
use eidetica.Auth.Key.{SigKey, direct}
use eidetica.Backend.Assoc.{or_default}
use eidetica.Backend.Storage.{
  verified, unverified, entry_not_found, empty_inner, contains, tree_of, tree_tips_of,
  subtree_tips_of, put, get_verification_status, update_verification_status,
}
use eidetica.Backend.Storage.Tips.{cached_tips, Right, put_all, put_all-Right}
use eidetica.Backend.Storage.Status.{cached_subtree_tips, has_status}

-- The tests name an entry by its metadata.
abbrev pub id_of : Entry → String
id_of e = or_default "" (e.tree).metadata

abbrev unsigned : SigKey
unsigned = direct (record { pubkey = none; name = none; is_global = false })

abbrev pub root : Entry
root = record {
  tree = record { root = none; parents = []; metadata = some "R"; height = 0 };
  subtrees = record { name = "_root"; parents = []; payload = none; height = none } ∷ [];
  sig = record { sig = none; key = unsigned };
}

abbrev pub child : Entry
child = record {
  tree = record { root = some "R"; parents = "R" ∷ []; metadata = some "A"; height = 1 };
  subtrees = record { name = "notes"; parents = []; payload = some "{}"; height = none } ∷ [];
  sig = record { sig = none; key = unsigned };
}

abbrev pub grandchild : Entry
grandchild = record {
  tree = record { root = some "R"; parents = "A" ∷ []; metadata = some "B"; height = 2 };
  subtrees = record { name = "notes"; parents = "A" ∷ []; payload = some "{}"; height = none } ∷ [];
  sig = record { sig = none; key = unsigned };
}

abbrev pub arrived : List Entry
arrived = root ∷ child ∷ grandchild ∷ child ∷ []

put_all-Right_example : Right id_of "R" (put_all id_of arrived)
put_all-Right_example = put_all-Right id_of "R" arrived (refl, (refl, (refl, (refl, tt))))
