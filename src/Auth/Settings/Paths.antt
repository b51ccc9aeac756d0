-- ===== src/Auth/Settings/Paths.antt =====
-- The places of the keys in the settings document.
use Prim.Native.String.{◌++◌ as str_append}
use mathlib.Core.Path.{ap₂}
use text.Mathlib.TextLemmas.{cons-append, append_assoc, append_cancel_left}
use eidetica.Base.{String, [], ◌∷◌, ◌++◌, true, false, none, ◌≡◌, ◌≢◌, refl, ap, ◌∙◌, parse_usize}
use eidetica.Crdt.Path.{
  contains_dot, is_dot, components, components-append, components-component, contains_dot-append,
  IsComponent,
}
use eidetica.Crdt.Doc.Laws.{walk}
use eidetica.Auth.Key.{PublicKey, to_prefixed_string}
use eidetica.Auth.Settings.{key_path}

-- Base64 writes no dot.
abbrev pub IsBase64 : PublicKey → Type 0
IsBase64 k = contains_dot k.encoded ≡ false

-- the text of a key begins with a letter
prefixed_lem :
    (k : PublicKey) → to_prefixed_string k ≡ String.◌∷◌ "e" (str_append "d25519:" k.encoded)
unfolding to_prefixed_string
prefixed_lem k = cons-append "e" "d25519:" k.encoded

prefixed-IsComponent : (k : PublicKey) → IsBase64 k → IsComponent (to_prefixed_string k)
prefixed-IsComponent k h =
    (unfold to_prefixed_string contains_dot is_dot in rw (contains_dot-append, h), rw prefixed_lem)

pub walk-key_path :
    (k : PublicKey) → IsBase64 k → walk (key_path k) ≡ "keys" ∷ to_prefixed_string k ∷ []
walk-key_path k h =
    let p = to_prefixed_string k in
    let dotted : contains_dot (key_path k) ≡ true =
      contains_dot-append "keys." p ∙ (unfold contains_dot is_dot in refl) in
    let parts : components (key_path k) ≡ "keys" ∷ p ∷ [] =
      ap components (append_assoc "keys" "." p)
      ∙ components-append "keys" p
      ∙ ap₂ ◌++◌ (components-component "keys" (unfold contains_dot is_dot in (refl, refl)))
          (components-component p (prefixed-IsComponent k h)) in
    unfold walk in rw (dotted, parts)

pub prefixed_ne : (j k : PublicKey) → j ≢ k → to_prefixed_string j ≢ to_prefixed_string k
unfolding to_prefixed_string
prefixed_ne j k h e =
    h (ap (λ t. record { encoded = t }) (append_cancel_left "ed25519:" j.encoded k.encoded e))

pub prefixed_no_index : (k : PublicKey) → parse_usize (to_prefixed_string k) ≡ none
prefixed_no_index k = rw prefixed_lem (unfold parse_usize in refl)
