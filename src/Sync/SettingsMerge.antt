-- ===== src/Sync/SettingsMerge.antt =====
-- `merge_sync_settings` of crates/lib/src/instance/settings_merge.rs: what several users ask of the
-- synchronisation of one database, as one setting.
use eidetica.Base.{
  ℕ, String, List, [], ◌∷◌, Bool, true, false, ◌||◌, ◌&&◌, Option, none, some, if◌then◌else◌, any,
  leb, All, ◌≡◌, refl, ap, ◌∙◌, arith,
}
use eidetica.Backend.Assoc.{find, change, find-change}

pub record SyncSettings : Type 0 where
  pub sync_enabled : Bool
  pub sync_on_commit : Bool
  pub interval_seconds : Option ℕ
  pub properties : List (String × String)

abbrev pub disabled : SyncSettings
disabled = record {
  sync_enabled = false;
  sync_on_commit = false;
  interval_seconds = none;
  properties = [];
}

unfoldable pub least_of : Option ℕ → Option ℕ → Option ℕ
least_of (some a) (some b) = some (if leb a b then a else b)
least_of (some a) none = some a
least_of none (some b) = some b
least_of none none = none

-- The order in which a map is walked through is not fixed; here its first entry comes last.
unfoldable pub insert_all : List (String × String) → List (String × String) → List (String × String)
unfolding change
insert_all [] m = m
insert_all ((k, v) ∷ entries) m = change k v (λ old. v) (insert_all entries m)

unfoldable pub merge_one : SyncSettings → SyncSettings → SyncSettings
unfolding least_of insert_all
merge_one combined setting = record {
  sync_enabled = combined.sync_enabled || setting.sync_enabled;
  sync_on_commit = combined.sync_on_commit || setting.sync_on_commit;
  interval_seconds = least_of combined.interval_seconds setting.interval_seconds;
  properties = insert_all setting.properties combined.properties;
}

-- the loop over the further settings
unfoldable pub merge_rest : SyncSettings → List SyncSettings → SyncSettings
unfolding merge_one
merge_rest combined [] = combined
merge_rest combined (setting ∷ rest) = merge_rest (merge_one combined setting) rest

unfoldable pub merge_sync_settings : List SyncSettings → SyncSettings
unfolding merge_rest
merge_sync_settings [] = disabled
merge_sync_settings (setting ∷ rest) = merge_rest setting rest

abbrev pub at_least : ℕ → Option ℕ → Bool
at_least n none = true
at_least n (some m) = leb n m

abbrev pub is_interval : ℕ → Option ℕ → Bool
is_interval n none = false
is_interval n (some m) = leb n m && leb m n

abbrev pub or_else : Option String → Option String → Option String
or_else none other = other
or_else (some v) other = some v

-- the value of a property in the last of the settings that has it
abbrev pub last_value : String → List SyncSettings → Option String
last_value k [] = none
last_value k (s ∷ settings) = or_else (last_value k settings) (find k s.properties)

find-insert_all :
    (k : String) (entries m : List (String × String))
    → find k (insert_all entries m) ≡ or_else (find k entries) (find k m)
unfolding insert_all find
find-insert_all k [] m = refl
find-insert_all k ((j, v) ∷ entries) m =
    find-change j k v (λ old. v) (insert_all entries m)
    ∙ ground (arith, find-insert_all k entries m)

or_else_assoc : (a b c : Option String) → or_else a (or_else b c) ≡ or_else (or_else a b) c
or_else_assoc none b c = refl
or_else_assoc (some v) b c = refl

-- the least of some intervals, if there are any
abbrev pub Least : List SyncSettings → Option ℕ → Type 0
Least settings none = All (λ s. s.interval_seconds ≡ none) settings
Least settings (some n) =
    (any (λ s. is_interval n s.interval_seconds) settings ≡ true)
    × All (λ s. at_least n s.interval_seconds ≡ true) settings

-- what the loop comes to, from the settings that it has combined
abbrev pub Combined : SyncSettings → List SyncSettings → SyncSettings → Type 0
Combined first rest r =
    (r.sync_enabled ≡ any SyncSettings.sync_enabled (first ∷ rest))
    × (r.sync_on_commit ≡ any SyncSettings.sync_on_commit (first ∷ rest))
    × Least (first ∷ rest) r.interval_seconds
    × ((k : String) → find k r.properties ≡ last_value k (first ∷ rest))

least_of-none : (a b : Option ℕ) → least_of a b ≡ none → (a ≡ none) × (b ≡ none)
unfolding least_of
least_of-none none none h = (refl, refl)
least_of-none none (some b) h = absurd (cc)
least_of-none (some a) none h = absurd (cc)
least_of-none (some a) (some b) h = absurd (cc)

least_of-interval :
    (n : ℕ) (a b : Option ℕ)
    → is_interval n (least_of a b) ≡ true
    → (is_interval n a || is_interval n b) ≡ true
unfolding least_of
least_of-interval n none none h = absurd (cc)
least_of-interval n none (some b) h = ground arith
least_of-interval n (some a) none h = ground arith
least_of-interval n (some a) (some b) h = ground arith

least_of-at_least :
    (n : ℕ) (a b : Option ℕ)
    → at_least n (least_of a b) ≡ true
    → (at_least n a ≡ true) × (at_least n b ≡ true)
unfolding least_of
least_of-at_least n none none h = (refl, refl)
least_of-at_least n none (some b) h = (refl, ground arith)
least_of-at_least n (some a) none h = (ground arith, refl)
least_of-at_least n (some a) (some b) h = (ground arith, ground arith)

leb_refl : (n : ℕ) → leb n n ≡ true
leb_refl n = ground arith

Least-one : (s : SyncSettings) (o : Option ℕ) → s.interval_seconds ≡ o → Least (s ∷ []) o
Least-one s none h = (h, tt)
Least-one s (some n) h = (rw (h, leb_refl n) refl, (rw (h, leb_refl n) refl, tt))

Least-merge_one :
    (first second : SyncSettings) (rest : List SyncSettings) (o : Option ℕ)
    → Least (merge_one first second ∷ rest) o
    → Least (first ∷ (second ∷ rest)) o
unfolding merge_one
Least-merge_one first second rest none h =
    let (a, b) = least_of-none first.interval_seconds second.interval_seconds h.0 in (a, (b, h.1))
Least-merge_one first second rest (some n) h =
    let (a, b) = least_of-at_least n first.interval_seconds second.interval_seconds h.1.0 in
    (
      ground (arith, least_of-interval n first.interval_seconds second.interval_seconds),
      (a, (b, h.1.1)),
    )

Combined-merge_one :
    (first second : SyncSettings) (rest : List SyncSettings) (r : SyncSettings)
    → Combined (merge_one first second) rest r
    → Combined first (second ∷ rest) r
unfolding merge_one
Combined-merge_one first second rest r (e, c, l, p) = (
  ground arith,
  ground arith,
  Least-merge_one first second rest r.interval_seconds l,
  λ k.
      p k
      ∙ ap (or_else (last_value k rest)) (find-insert_all k second.properties first.properties)
      ∙ or_else_assoc (last_value k rest) (find k second.properties) (find k first.properties),
)

merge_rest-Combined :
    (first : SyncSettings) (rest : List SyncSettings) → Combined first rest (merge_rest first rest)
unfolding merge_rest
merge_rest-Combined first [] =
    (ground arith, ground arith, Least-one first first.interval_seconds refl, λ k. refl)
merge_rest-Combined first (second ∷ rest) =
    Combined-merge_one first second rest _ (merge_rest-Combined (merge_one first second) rest)

-- The merged settings of one or more users are enabled if and only if those of some user are, sync
-- on commit if and only if those of some user do, and have the least of the intervals of those users
-- who set one, if any; a property has its value in the settings of the last user who set it.
pub merge_sync_settings-Combined :
    (first : SyncSettings) (rest : List SyncSettings)
    → Combined first rest (merge_sync_settings (first ∷ rest))
unfolding merge_sync_settings
merge_sync_settings-Combined first rest = merge_rest-Combined first rest
