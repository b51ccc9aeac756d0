-- ===== src/Store/Tests/Rows.antt =====
-- A transaction on a tree whose one entry wrote the text "X" under "k", and what it reads.
use eidetica.Base.{String, [], ◌∷◌, true, false, Option, none, some, ◌≡◌, refl}
use eidetica.Base.Outcome.{Outcome, ok}
use eidetica.Crdt.Value.{Value, is_deleted, text}
use eidetica.Crdt.Doc as CrdtDoc
use eidetica.Entry.{Entry}
use eidetica.Entry.Order.Texts.{text_order}
use eidetica.Entry.Builder.{EntryBuilder}
use eidetica.Backend.Storage.{InMemoryInner}
use eidetica.Auth.Key.{SigKey, direct}
use eidetica.Backend.Assoc.{or_default}
use eidetica.Transaction.{Work}
use eidetica.Transaction.Error.{TxnError}
use eidetica.Store.Codec.{local_data, doc_or_new}
use eidetica.Crdt.Doc.Laws.{Apart, walk}
use eidetica.Store.DocStore.{get, get_stored, set, delete}
use eidetica.Store.DocStore.Laws.{set-get, delete-get}
use eidetica.Store.Tests.{latest, json, find_state, from_json, to_json}
use eidetica.Backend.Storage.{is_tip}
use eidetica.Entry.{is_root, subtrees_of}
use eidetica.Crdt.Merge.{merge_doc, merge_entries}
use eidetica.Crdt.Path.{contains_dot, is_dot}
use eidetica.Crdt.Container.{lookup, insert}

-- an entry is named by its metadata
abbrev pub id_of : Entry → String
id_of e = or_default "" (e.tree).metadata

abbrev pub unsigned : SigKey
unsigned = direct (record { pubkey = none; name = none; is_global = false })

abbrev pub root : Entry
root = record {
  tree = record { root = none; parents = []; metadata = some "R"; height = 0 };
  subtrees = record { name = "_root"; parents = []; payload = none; height = none } ∷ [];
  sig = record { sig = none; key = unsigned };
}

abbrev pub noted : Entry
noted = record {
  tree = record { root = some "R"; parents = "R" ∷ []; metadata = some "A"; height = 1 };
  subtrees = record { name = "notes"; parents = []; payload = some "tX"; height = none } ∷ [];
  sig = record { sig = none; key = unsigned };
}

abbrev pub held : InMemoryInner
held = record { entries = noted ∷ (root ∷ []); verification_status = []; tips = [] }

abbrev pub builder : EntryBuilder
builder = record {
  tree = record { root = some "R"; parents = "A" ∷ []; metadata = none; height = 0 };
  subtrees = [];
  sig = record { sig = none; key = unsigned };
}

abbrev pub work : Work latest
work = record {
  txn = record { entry_builder = some builder; encryptors = []; system_subtrees_locked = false };
  inner = held;
  cache = [];
}

abbrev pub cid : String → String
cid s = String.◌∷◌ "m" s

abbrev pub outcome_of :
    {A : Type 0} → Option (Outcome TxnError A × Work latest) → Option (Outcome TxnError A)
outcome_of none = none
outcome_of (some (m, u)) = some m

-- what the store has
stored_note :
    outcome_of (get_stored id_of text_order cid latest "R" json "notes" "k" work)
    ≡ some (ok (text "X"))
unfolding get_stored is_tip is_root subtrees_of find_state from_json to_json merge_doc merge_entries
    contains_dot is_dot lookup insert
stored_note = refl

abbrev pub state_of : {A : Type 0} → Option (Outcome TxnError A × Work latest) → Work latest
state_of none = work
state_of (some (m, u)) = u

set-get_example :
    (u : Work latest) × (set id_of text_order cid latest "R" json "notes" "k" (text "Y") work
      ≡ some (ok tt, u))
    × (get id_of text_order cid latest "R" json "notes" "k" u ≡ some (ok (text "Y"), u))
    × ((other : String) (x : Value)
        → Apart (walk "k") (walk other)
        → CrdtDoc.get_raw other (doc_or_new none) ≡ some x
        → is_deleted x ≡ false
        → get id_of text_order cid latest "R" json "notes" other u ≡ some (ok x, u))
unfolding CrdtDoc.set contains_dot is_dot insert
set-get_example =
    set-get id_of text_order cid latest "R" json "notes" "k" "tY" (text "Y") none work
      (unfold local_data in refl) (unfold to_json in refl) (unfold contains_dot in refl) refl

-- what is left after "k" was deleted
abbrev deleted_k : Work latest
deleted_k = state_of (delete id_of text_order cid latest "R" json "notes" "k" work)

deletes : delete id_of text_order cid latest "R" json "notes" "k" work ≡ some (ok true, deleted_k)
unfolding delete is_tip is_root subtrees_of find_state from_json to_json merge_doc merge_entries
    contains_dot is_dot lookup insert
deletes = refl

delete-get_example :
    get id_of text_order cid latest "R" json "notes" "k" deleted_k
    ≡ get_stored id_of text_order cid latest "R" json "notes" "k" deleted_k
unfolding contains_dot is_dot
delete-get_example =
    delete-get id_of text_order cid latest "R" json "notes" "k" work deleted_k refl deletes

-- it is still read
still_read :
    outcome_of (get id_of text_order cid latest "R" json "notes" "k" deleted_k)
    ≡ some (ok (text "X"))
unfolding get delete is_tip is_root subtrees_of find_state from_json to_json merge_doc merge_entries
    contains_dot is_dot lookup insert
still_read = refl
