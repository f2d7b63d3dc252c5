-- ===== src/Storage/S3/Laws.antt =====
-- What the backend reads of a listing.
use Prim.Native.String.{◌++◌}
use text.Mathlib.TextLemmas.{append_assoc}
use flux_externalsource_cont.Prelude.{
  String, ◌≡◌, refl, sym, ap, ◌∙◌, true, false, ◌&&◌, List, [], ◌∷◌, if◌then◌else◌,
}
use mathlib.Core.List.{◌++◌ as ◌++ᴸ◌}
use flux_externalsource_cont.Prelude.{ℕ, arith}
use flux_externalsource_cont.Prelude.Text.{codes, codes-append}
use flux_externalsource_cont.Storage.Memory.{has_prefix, starts}
use flux_externalsource_cont.Storage.S3.{
  S3Library, S3Backend, key_of_line, keys_of_lines, parse_list_response,
}

-- package strings, on a text that has the suffix or the prefix
pub record IsLawful {W : Type 0} (lib : S3Library W) : Type 0 where
  pub has_suffix-append : (s t : String) → lib.has_suffix (s ++ t) t ≡ true
  pub trim_prefix-append : (s t : String) → lib.trim_prefix (s ++ t) s ≡ t
  pub trim_suffix-append : (s t : String) → lib.trim_suffix (s ++ t) t ≡ s

starts-append : (p s : List ℕ) → starts p (p ++ᴸ s) ≡ true
unfolding starts
starts-append [] s = refl
starts-append (a ∷ p) s = ground (arith, starts-append p s)

has_prefix-append : (p s : String) → has_prefix (p ++ s) p ≡ true
has_prefix-append p s = rw codes-append (starts-append (codes p) (codes s))

abbrev pub tagged : String → String
tagged key = "<Key>" ++ (key ++ "</Key>")

-- the lines of a listing with one key to a line, and no other line that starts like one
pub data IsListing {W : Type 0} (lib : S3Library W) : List String → List String → Type 0 where
  end : IsListing lib [] []
  entry :
      {line key : String} {lines keys : List String}
      → lib.trim_space line ≡ tagged key
      → IsListing lib lines keys
      → IsListing lib (line ∷ lines) (key ∷ keys)
  other :
      {line : String} {lines keys : List String}
      → has_prefix (lib.trim_space line) "<Key>" ≡ false
      → IsListing lib lines keys
      → IsListing lib (line ∷ lines) keys

abbrev pub under : (prefix : String) → List String → List String
under prefix [] = []
under prefix (key ∷ keys) =
    let rest = under prefix keys in if has_prefix key prefix then key ∷ rest else rest

module _ {W : Type 0} (lib : S3Library W) (lawful : IsLawful lib) (s : S3Backend) where
  key_of_line-tagged : (key : String) → key_of_line lib s (tagged key) ≡ key
  key_of_line-tagged key =
      ap (λ t. lib.trim_suffix t "</Key>") (lawful.trim_prefix-append "<Key>" (key ++ "</Key>"))
      ∙ lawful.trim_suffix-append key "</Key>"

  is_tagged :
      (key : String)
      → (has_prefix (tagged key) "<Key>" && lib.has_suffix (tagged key) "</Key>") ≡ true
  is_tagged key =
      rw has_prefix-append
        (rw (sym (append_assoc "<Key>" key "</Key>"), lawful.has_suffix-append) refl)

  keys_of_lines-under :
      (prefix : String) {lines keys : List String}
      → IsListing lib lines keys
      → keys_of_lines lib s prefix lines ≡ under prefix keys
  unfolding keys_of_lines
  keys_of_lines-under prefix end = refl
  keys_of_lines-under prefix (entry {key = key} at rest) =
      rw (at, is_tagged key, key_of_line-tagged key, keys_of_lines-under prefix rest) refl
  keys_of_lines-under prefix (other at rest) = rw (at, keys_of_lines-under prefix rest) refl

  -- If the functions on texts do what they say, then reading a body whose lines, without the space
  -- around them, are one `<Key>` element each or do not start like one, gives the keys that have the
  -- prefix, in their order.
  pub parse_list_response-under :
      (body prefix : String) (keys : List String)
      → IsListing lib (lib.split_lines body) keys
      → parse_list_response lib s body prefix ≡ under prefix keys
  unfolding parse_list_response
  parse_list_response-under body prefix keys listing = keys_of_lines-under prefix listing
