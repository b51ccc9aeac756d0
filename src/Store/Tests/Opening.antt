-- ===== src/Store/Tests/Opening.antt =====
-- The theorem on opening a store, where the registry has the store as a table.
use eidetica.Base.{
  String, [], ◌∷◌, true, false, Option, none, some, str_eq, eq_iff, cons-nil_lem, Bool-cases,
  if◌then◌else◌, inl, inr, sym, subst, ap, ◌∙◌, ◌≡◌, refl,
}
use eidetica.Base.Outcome.{Outcome, ok, err}
use eidetica.Crdt.Key.{by_name}
use eidetica.Crdt.Value.{Value, null, bool, int, text, deleted, list, doc, Entries, end, entry, Doc}
use eidetica.Crdt.Doc.{new}
use eidetica.Crdt.Merge.{merge_doc, merge_entries}
use eidetica.Crdt.Path.{contains_dot, is_dot}
use eidetica.Crdt.Container.{lookup, insert}
use eidetica.Entry.{Entry, is_root, subtrees_of}
use eidetica.Entry.Order.Texts.{text_order}
use eidetica.Backend.Storage.{is_tip}
use eidetica.Transaction.{Work, is_system_subtree}
use eidetica.Transaction.Error.{TxnError, type_mismatch}
use eidetica.Store.Codec.{DocJson}
use eidetica.Store.Open.{Kind, get_store}
use eidetica.Store.Open.Laws.{Opened, get_store-Opened}
use eidetica.Store.Tests.{latest, find_state}
use eidetica.Store.Tests.Rows.{id_of, unsigned, cid, work, noted, outcome_of}
use eidetica.Store.Tests.Tables.{strategies}

-- the registry has the requests for access with a type
abbrev pub entries_with : String → Entries by_name
entries_with t = entry "bootstrap_requests" (doc false (entry "type" (text t) end)) end

abbrev pub listed : String → Doc
listed t = record { atomic = false; children = entries_with t }

-- A JSON for these documents only.
unfoldable text_row : Value → Option String
text_row (text t) = some (String.◌∷◌ "t" t)
text_row _ = none

unfoldable row_in : Entries by_name → Option String
unfolding text_row
row_in end = none
row_in (entry k v end) = if str_eq k "type" then text_row v else none
row_in (entry k v (entry j w m)) = none

unfoldable row_doc : Value → Option String
unfolding row_in
row_doc (doc a m) = if a then none else row_in m
row_doc _ = none

unfoldable list_in : Entries by_name → Option String
unfolding row_doc
list_in end = none
list_in (entry k v end) = if str_eq k "bootstrap_requests" then row_doc v else none
list_in (entry k v (entry j w m)) = none

unfoldable pub write_listed : Doc → Option String
unfolding list_in
write_listed d = if d.atomic then none else list_in d.children

abbrev pub read_listed : String → Option Doc
read_listed String.[] = none
read_listed (String.◌∷◌ c t) = some (listed t)

abbrev Written : {A : Type 0} → (String → A) → A → String → Type 0
Written f a s = (t : String) × (a ≡ f t) × (String.◌∷◌ "t" t ≡ s)

of_text : (v : Value) (s : String) → text_row v ≡ some s → Written text v s
unfolding text_row
of_text (text t) s h = (t, refl, cc (h))
of_text null s h = absurd (cc)
of_text (bool b) s h = absurd (cc)
of_text (int n) s h = absurd (cc)
of_text deleted s h = absurd (cc)
of_text (doc a m) s h = absurd (cc)
of_text (list l) s h = absurd (cc)

of_row :
    (m : Entries by_name) (s : String)
    → row_in m ≡ some s
    → Written (λ t. entry "type" (text t) end) m s
unfolding row_in
of_row end s h = absurd (cc)
of_row (entry k v end) s h = elim (Bool-cases (str_eq k "type")) [
  | inl y ↦ let (t, e, w) = of_text v s (rw y at h) in (t, cc (e, (eq_iff k "type").0 y), w)
  | inr n ↦ absurd (cc (rw n at h))
]
of_row (entry k v (entry j w m)) s h = absurd (cc)

of_doc :
    (v : Value) (s : String)
    → row_doc v ≡ some s
    → Written (λ t. doc false (entry "type" (text t) end)) v s
unfolding row_doc
of_doc (doc false m) s h = let (t, e, w) = of_row m s h in (t, cc (e), w)
of_doc (doc true m) s h = absurd (cc)
of_doc (text t) s h = absurd (cc)
of_doc null s h = absurd (cc)
of_doc (bool b) s h = absurd (cc)
of_doc (int n) s h = absurd (cc)
of_doc deleted s h = absurd (cc)
of_doc (list l) s h = absurd (cc)

of_entries : (m : Entries by_name) (s : String) → list_in m ≡ some s → Written entries_with m s
unfolding list_in
of_entries end s h = absurd (cc)
of_entries (entry k v end) s h = elim (Bool-cases (str_eq k "bootstrap_requests")) [
  | inl y ↦
      let (t, e, w) = of_doc v s (rw y at h) in (t, cc (e, (eq_iff k "bootstrap_requests").0 y), w)
  | inr n ↦ absurd (cc (rw n at h))
]
of_entries (entry k v (entry j w m)) s h = absurd (cc)

pub read-written :
    (d : Doc) (s : String)
    → write_listed d ≡ some s
    → (read_listed s ≡ some d) × (str_eq s "" ≡ false)
unfolding write_listed
read-written d s h = elim (Bool-cases d.atomic) [
  | inl y ↦ absurd (cc (rw y at h))
  | inr n ↦
      let (t, e, w) = of_entries d.children s (rw n at h) in
      subst (λ x. (read_listed x ≡ some d) × (str_eq x "" ≡ false)) w
        (
          ap (λ m. some (record { atomic = false; children = m })) (sym e)
              ∙ ap (λ b. some (record { atomic = b; children = d.children })) (sym n),
          rw (cons-nil_lem "t" t) refl,
        )
]

abbrev pub listing : DocJson
listing = record {
  to_json = write_listed;
  from_json = read_listed;
  from_to_json = λ d s h. (read-written d s h).0;
  json_has_text = λ d s h. (read-written d s h).1;
}

-- the registry of the first entry, with what it has staged
abbrev pub indexed_root : String → Entry
indexed_root bytes = record {
  tree = record { root = none; parents = []; metadata = some "R"; height = 0 };
  subtrees =
      record { name = "_index"; parents = []; payload = some bytes; height = none }
      ∷ (record { name = "_root"; parents = []; payload = none; height = none } ∷ []);
  sig = record { sig = none; key = unsigned };
}

abbrev pub indexed_with : String → Work latest
indexed_with bytes = record work {
  inner = record {
    entries = noted ∷ (indexed_root bytes ∷ []);
    verification_status = [];
    tips = [];
  };
}

abbrev indexed : Work latest
indexed = indexed_with "ttable:v0"

abbrev kind_of : String → Kind
kind_of t = record { type_id = t; supports_type_id = λ s. str_eq s t; default_config = new }

opens_table :
    outcome_of (
      get_store id_of text_order cid latest "R" strategies listing
        (kind_of "table:v0")
        "bootstrap_requests"
        indexed)
    ≡ some (ok tt)
unfolding get_store write_listed is_tip is_root subtrees_of find_state merge_doc merge_entries
    contains_dot is_dot lookup insert
opens_table = refl

opens_no_other :
    outcome_of (
      get_store id_of text_order cid latest "R" strategies listing
        (kind_of "docstore:v0")
        "bootstrap_requests"
        indexed)
    ≡ some (err (type_mismatch "bootstrap_requests" "docstore:v0" "table:v0"))
unfolding get_store write_listed is_tip is_root subtrees_of find_state merge_doc merge_entries
    contains_dot is_dot lookup insert
opens_no_other = refl

get_store-Opened_example :
    (m : Outcome TxnError (Unit {0})) × (u : Work latest) × (get_store id_of text_order cid latest
        "R" strategies listing
        (kind_of "table:v0")
        "bootstrap_requests"
        indexed
      ≡ some (m, u))
    × (m ≡ ok tt
        → Opened id_of text_order cid latest "R" strategies listing
            (kind_of "table:v0")
            "bootstrap_requests"
            u)
unfolding contains_dot is_dot is_system_subtree
get_store-Opened_example =
    get_store-Opened id_of text_order cid latest "R" strategies listing (kind_of "table:v0")
      "bootstrap_requests" indexed refl refl refl
