-- ===== src/Crdt/Path.antt =====
-- Paths into a document: crates/lib/src/crdt/doc/path.rs. A path is a text; its components are the
-- parts between its dots that are not empty. A `Path` and a `PathBuf` are both the text in them.
use Prim.Native.Char.{Char, code}
use Prim.Native.String.{◌++◌ as str_append}
use mathlib.Core.Path.{ap₂}
use text.Mathlib.TextLemmas.{cons-append, nil-append}
use eidetica.Base.{
  String, List, [], ◌∷◌, ◌++◌, Bool, true, false, ◌||◌, ◌==◌, keep, if◌then◌else◌, ◌≡◌, ◌≢◌, refl,
  ap, ◌∙◌, sym, All, Bool-cases, inl, inr, arith,
}

unfoldable pub is_dot : Char → Bool
is_dot c = code c == b'.'

-- `str::contains('.')`
unfoldable pub contains_dot : String → Bool
contains_dot String.[] = false
contains_dot (String.◌∷◌ c s) = is_dot c || contains_dot s

abbrev pub has_text : String → Bool
has_text String.[] = false
has_text (String.◌∷◌ c s) = true

abbrev pub push_front : Char → List String → List String
push_front c [] = String.◌∷◌ c String.[] ∷ []
push_front c (s ∷ parts) = String.◌∷◌ c s ∷ parts

-- `str::split('.')`: never empty
unfoldable pub split : String → List String
split String.[] = String.[] ∷ []
split (String.◌∷◌ c s) =
    let parts = split s in if is_dot c then String.[] ∷ parts else push_front c parts

-- `Path::components`
unfoldable pub components : String → List String
components s = keep has_text (split s)

-- `[_]::join(".")`
unfoldable pub join_dots : List String → String
join_dots [] = ""
join_dots (s ∷ []) = s
join_dots (s ∷ t ∷ rest) = str_append s (str_append "." (join_dots (t ∷ rest)))

unfoldable pub normalize_path : String → String
unfolding components
normalize_path String.[] = ""
normalize_path (String.◌∷◌ c s) = join_dots (components (String.◌∷◌ c s))

-- `PathBuf::push`, from the normalised path on
unfoldable pub push_normalized : String → String → String
push_normalized inner normalized =
    if has_text normalized
    then (if has_text inner then str_append inner (str_append "." normalized) else normalized)
    else inner

unfoldable pub push : String → String → String
unfolding push_normalized
push inner path = push_normalized inner (normalize_path path)

-- a `Component`: a text with no dot in it, here one that is not empty
abbrev pub IsComponent : String → Type 0
IsComponent s = (contains_dot s ≡ false) × (has_text s ≡ true)

dot-append : (t : String) → str_append "." t ≡ String.◌∷◌ "." t
dot-append t = cons-append "." "" t ∙ ap (String.◌∷◌ ".") (nil-append t)

split-ne_nil : (s : String) → split s ≢ []
unfolding split
split-ne_nil String.[] = λ e. cc
split-ne_nil (String.◌∷◌ c s) = ground arith

push_front-append :
    (c : Char) (xs ys : List String) → xs ≢ [] → push_front c xs ++ ys ≡ push_front c (xs ++ ys)
push_front-append c [] ys h = absurd (h refl)
push_front-append c (x ∷ xs) ys h = refl

split-cons :
    (c : Char) (s : String)
    → split (String.◌∷◌ c s) ≡ (if is_dot c then "" ∷ split s else push_front c (split s))
unfolding split
split-cons c s = refl

split-append : (s t : String) → split (str_append s (str_append "." t)) ≡ split s ++ split t
split-append String.[] t = rw (nil-append, dot-append) (unfold split is_dot in refl)
split-append (String.◌∷◌ c s) t =
    rw (cons-append, split-cons, split-append s t, split-cons)
      (ground (arith, push_front-append c (split s) (split t), split-ne_nil s))

split-component : (s : String) → contains_dot s ≡ false → split s ≡ s ∷ []
unfolding split contains_dot
split-component String.[] h = refl
split-component (String.◌∷◌ c s) h = ground (arith, split-component s)

keep-append : (p : String → Bool) (xs ys : List String) → keep p (xs ++ ys) ≡ keep p xs ++ keep p ys
keep-append p [] ys = refl
keep-append p (x ∷ xs) ys = ground (arith, keep-append p xs ys)

-- The components of two paths with a dot between them.
pub components-append :
    (s t : String) → components (str_append s (str_append "." t)) ≡ components s ++ components t
unfolding components
components-append s t =
    ap (keep has_text) (split-append s t) ∙ keep-append has_text (split s) (split t)

pub components-component : (s : String) → IsComponent s → components s ≡ s ∷ []
unfolding components
components-component s h = rw (split-component s h.0) (ground arith)

abbrev NoDots : String → Type 0
NoDots t = contains_dot t ≡ false

push_front-NoDots :
    (c : Char) (xs : List String) → is_dot c ≡ false → All NoDots xs → All NoDots (push_front c xs)
unfolding contains_dot
push_front-NoDots c [] e h = (rw e, tt)
push_front-NoDots c (x ∷ xs) e h = (rw e h.0, h.1)

-- Every part of a split is free of dots.
split-NoDots : (s : String) → All NoDots (split s)
split-NoDots String.[] = unfold split contains_dot in (refl, tt)
split-NoDots (String.◌∷◌ c s) = elim (Bool-cases (is_dot c)) [
  | inl e ↦ rw (split-cons, e) (unfold contains_dot in refl, split-NoDots s)
  | inr e ↦ rw (split-cons, e) (push_front-NoDots c (split s) e (split-NoDots s))
]

keep-IsComponent : (xs : List String) → All NoDots xs → All IsComponent (keep has_text xs)
keep-IsComponent [] h = tt
keep-IsComponent (x ∷ xs) h = elim (Bool-cases (has_text x)) [
  | inl e ↦ rw e ((h.0, e), keep-IsComponent xs h.1)
  | inr e ↦ rw e (keep-IsComponent xs h.1)
]

components-IsComponent : (s : String) → All IsComponent (components s)
unfolding components
components-IsComponent s = keep-IsComponent (split s) (split-NoDots s)

-- Components joined by dots come back as they are.
components-join_dots : (xs : List String) → All IsComponent xs → components (join_dots xs) ≡ xs
unfolding join_dots
components-join_dots [] h = unfold components split in refl
components-join_dots (s ∷ []) h = components-component s h.0
components-join_dots (s ∷ t ∷ rest) h =
    components-append s (join_dots (t ∷ rest))
    ∙ ap₂ ◌++◌ (components-component s h.0) (components-join_dots (t ∷ rest) h.1)

normalize_path_lem : (s : String) → normalize_path s ≡ join_dots (components s)
unfolding normalize_path join_dots split
normalize_path_lem String.[] = refl
normalize_path_lem (String.◌∷◌ c s) = refl

-- Normalising a path keeps its components, and a normalised path is its own normal form.
components-normalize_path :
    (s : String)
    → (components (normalize_path s) ≡ components s)
      × (normalize_path (normalize_path s) ≡ normalize_path s)
components-normalize_path s =
    let same : components (normalize_path s) ≡ components s =
      ap components (normalize_path_lem s)
      ∙ components-join_dots (components s) (components-IsComponent s) in
    (same, normalize_path_lem (normalize_path s) ∙ ap join_dots same ∙ sym (normalize_path_lem s))

components-empty : (s : String) → has_text s ≡ false → components s ≡ []
unfolding components split
components-empty String.[] h = refl
components-empty (String.◌∷◌ c s) h = cc

pub contains_dot-append :
    (s t : String) → contains_dot (str_append s t) ≡ (contains_dot s || contains_dot t)
unfolding contains_dot
contains_dot-append String.[] t = rw nil-append
contains_dot-append (String.◌∷◌ c s) t = rw cons-append (ground (arith, contains_dot-append s t))
