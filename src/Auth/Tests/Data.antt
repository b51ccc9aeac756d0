-- ===== src/Auth/Tests/Data.antt =====
-- Keys and settings for the tests.
use eidetica.Base.{some, ◌≡◌, ◌≢◌, refl, eq_iff, arith}
use eidetica.Base.Outcome.{ok}
use eidetica.Crdt.Path.{contains_dot, is_dot}
use eidetica.Crdt.Doc.{new}
use eidetica.Auth.Permission.{write, active}
use eidetica.Auth.Key.{PublicKey, AuthKey}
use eidetica.Auth.Settings.{AuthSettings, get_key_by_pubkey, store_key}
use eidetica.Auth.Settings.Paths.{IsBase64}
use eidetica.Auth.Settings.Laws.{get_key-store_key_self}

abbrev pub laptop : PublicKey
laptop = record { encoded = "bGFwdG9w" }

abbrev pub phone : PublicKey
phone = record { encoded = "cGhvbmU=" }

abbrev pub laptop_key : AuthKey
laptop_key = record { name = some "laptop"; permissions = write 10; status = active }

pub laptop-IsBase64 : IsBase64 laptop
unfolding contains_dot is_dot
laptop-IsBase64 = refl

pub phone-IsBase64 : IsBase64 phone
unfolding contains_dot is_dot
phone-IsBase64 = refl

pub phone_ne : phone ≢ laptop
phone_ne e = absurd (ground (arith, eq_iff "cGhvbmU=" "bGFwdG9w"))

abbrev pub empty_settings : AuthSettings
empty_settings = record { inner = new }

abbrev pub with_laptop : AuthSettings
with_laptop = store_key laptop laptop_key empty_settings

pub laptop_stored : get_key_by_pubkey laptop with_laptop ≡ ok laptop_key
laptop_stored =
    get_key-store_key_self laptop laptop_key empty_settings laptop-IsBase64 (omega arith)
