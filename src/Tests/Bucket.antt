-- ===== src/Tests/Bucket.antt =====
-- The theorem on the listing of an S3 bucket, with package strings on native texts.
use Prim.Native.String.{◌++◌, slice, len}
use text.Mathlib.TextPositions.{len-append, slice-append_left, slice-append_right}
use flux_externalsource_cont.Prelude.{
  ℕ, ◌-◌, String, ◌≡◌, refl, true, none, [], ◌∷◌, ok, ◌==◌, eq_refl, arith,
}
use flux_externalsource_cont.Storage.S3.{S3Library, S3Backend, new_s3_backend, parse_list_response}
use flux_externalsource_cont.Storage.Memory.{starts}
use flux_externalsource_cont.Storage.S3.Laws.{
  IsLawful, IsListing, end, entry, other, under, parse_list_response-under,
}

abbrev bucket : S3Library ℕ
bucket = record {
  check_request = λ method url. ok tt;
  send = λ timeout req n. (ok (record { status_code = 200; body = ([], none) }), n);
  encode_query = λ params. "query";
  text_of = λ bytes. "body";
  print_ℕ = λ n. "n";
  split_lines = λ body. "<Contents>" ∷ "<Key>a/x</Key>" ∷ "<Key>b/y</Key>" ∷ [];
  trim_space = λ s. s;
  has_suffix = λ s suffix. slice s (len s - len suffix) (len s) == suffix;
  trim_prefix = λ s prefix. slice s (len prefix) (len s);
  trim_suffix = λ s suffix. slice s 0 (len s - len suffix);
}

shorter : (s t : String) → len (s ++ t) - len t ≡ len s
shorter s t = rw len-append (omega arith)

lawful : IsLawful bucket
lawful = record {
  has_suffix-append = λ s t. rw (shorter s t, len-append, slice-append_right s t, eq_refl t) refl;
  trim_prefix-append = λ s t. rw (len-append, slice-append_right s t) refl;
  trim_suffix-append = λ s t. rw (shorter s t, slice-append_left s t) refl;
}

listing : IsListing bucket (bucket.split_lines "body") ("a/x" ∷ "b/y" ∷ [])
unfolding starts
listing = other refl (entry refl (entry refl end))

abbrev backend : S3Backend
backend = new_s3_backend (record {
  endpoint = "s3.example";
  bucket = "artifacts";
  region = "us-east-1";
  access_key = "";
  secret_key = "";
  use_ssl = true;
})

parse_list_response-under_example :
    parse_list_response bucket backend "body" "a/" ≡ under "a/" ("a/x" ∷ "b/y" ∷ [])
parse_list_response-under_example =
    parse_list_response-under bucket lawful backend "body" "a/" ("a/x" ∷ "b/y" ∷ []) listing
