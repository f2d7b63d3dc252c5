-- ===== src/Controller/Errors.antt =====
-- `classifyError`, `contains` and `findSubstring`. Texts are searched by their code points.
pub mod Substring
pub mod Laws
use flux_externalsource_cont.Prelude.{
  ℕ, zero, suc, ◌+◌, ◌-◌, String, Bool, true, false, ◌&&◌, ◌||◌, List, [], ◌∷◌, ltb, leb, eqb,
  length, take, drop, any, if◌then◌else◌,
}
use flux_externalsource_cont.Prelude.Text.{codes}

-- `==` of two slices
unfoldable pub same : List ℕ → List ℕ → Bool
same [] [] = true
same [] (y ∷ ys) = false
same (x ∷ xs) [] = false
same (x ∷ xs) (y ∷ ys) = eqb x y && same xs ys

-- the loop of `findSubstring` from position `i`, with its number of rounds left
unfoldable pub find_from : ℕ → ℕ → List ℕ → List ℕ → Bool
unfolding same
find_from zero i s substr = false
find_from (suc rounds) i s substr =
    let rest = find_from rounds (i + 1) s substr in
    if same (take (length substr) (drop i s)) substr then true else rest

unfoldable pub find_substring : List ℕ → List ℕ → Bool
unfolding find_from
find_substring s substr = find_from (length s + 1 - length substr) 0 s substr

unfoldable pub contains : List ℕ → List ℕ → Bool
unfolding find_substring
contains s substr =
    leb (length substr) (length s)
    && (same s substr
        || (ltb (length substr) (length s)
            && (same (take (length substr) s) substr
                || (same (drop (length s - length substr) s) substr || find_substring s substr))))

pub data ErrorType : Type 0 where
  transient_error permanent_error configuration_error : ErrorType

abbrev pub config_errors : List String
config_errors =
    "invalid interval" ∷ "unsupported generator type" ∷ "configuration is required" ∷ "invalid URL"
    ∷ "invalid CEL expression" ∷ []

abbrev pub permanent_errors : List String
permanent_errors = "404" ∷ "401" ∷ "403" ∷ "not found" ∷ "unauthorized" ∷ "forbidden" ∷ []

-- the loop over a list of patterns
unfoldable pub mentions : String → List String → Bool
unfolding contains
mentions err_str [] = false
mentions err_str (pattern ∷ rest) =
    if contains (codes err_str) (codes pattern) then true else mentions err_str rest

unfoldable pub classify_error : String → ErrorType
unfolding mentions
classify_error err_str =
    if mentions err_str config_errors
    then configuration_error
    else if mentions err_str permanent_errors
    then permanent_error
    else transient_error
