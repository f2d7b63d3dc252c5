-- ===== src/Tests/Files.antt =====
-- The theorems on the PVC backend, over a flat file system whose directories all are "".
use Prim.Native.String.{◌++◌}
use flux_externalsource_cont.Prelude.{
  String, ◌≡◌, ◌≢◌, refl, sym, ap, ◌∙◌, Bool, true, false, Option, none, some, [], ◌∷◌, Result, ok,
  err, ◌==◌, if◌then◌else◌, eq_iff, arith, Option-cases, Bool-cases, inl, inr,
}
use flux_externalsource_cont.Prelude.Dict.{
  Dict, lookup, insert, remove, lookup-insert, lookup-remove,
}
use flux_externalsource_cont.Prelude.Actions.{Action}
use flux_externalsource_cont.Generator.{Bytes}
use flux_externalsource_cont.Storage.Pvc.{
  FileSystem, PvcBackend, ReadError, validate_key, store, delete, retrieve, path_of,
  cleanup_empty_dirs,
}
use flux_externalsource_cont.Storage.Pvc.Laws.{
  IsLawful, Reads, object, store-retrieve, delete-retrieve,
}
use flux_externalsource_cont.Storage.Pvc.Cleanup.{cleanup_empty_dirs-ends}
use flux_externalsource_cont.Storage.Memory.{starts}
use flux_externalsource_cont.Tests.{hi}

-- the world is the files; there is none at the empty path
abbrev file : String → Dict Bytes → Option Bytes
file path w = if path == "" then none else lookup path w

abbrev write : String → Bytes → Action (Dict Bytes) (Unit {0})
write path bytes w = if path == "" then (err "is a directory", w) else (ok tt, insert path bytes w)

abbrev drop_found : Option Bytes → String → Action (Dict Bytes) (Unit {0})
drop_found none path w = (err "cannot be removed", w)
drop_found (some bytes) path w = (ok tt, remove path w)

abbrev drop_file : String → Action (Dict Bytes) (Unit {0})
drop_file path w = drop_found (file path w) path w

abbrev is_some : Option Bytes → Bool
is_some none = false
is_some (some bytes) = true

abbrev read : Option Bytes → Result ReadError Bytes
read none = err (record { is_not_exist = true; message = "no such file" })
read (some bytes) = ok bytes

abbrev files : FileSystem (Dict Bytes)
files = record {
  join = λ base key. base ++ ("/" ++ key);
  dir = λ path. "";
  rel = λ base path. ok path;
  to_slash = λ path. path;
  contains = λ s part. false;
  bytes_of = λ s. [];
  mkdir_all = λ path w. (ok tt, w);
  write_file = write;
  remove = drop_file;
  is_there = λ path w. is_some (file path w);
  walk_dir = λ path w. [];
  read_file = λ path w. read (file path w);
}

abbrev Done : Type 0
Done = Result String (Unit {0}) × Dict Bytes

failure : {m : String} {v w : Dict Bytes} → Path Done (err m, v) (ok tt, w) → ⊥
failure e = cc

success : {m : String} {v w : Dict Bytes} → Path Done (ok tt, v) (err m, w) → ⊥
success e = cc

file-insert :
    (path at : String) (bytes : Bytes) (w : Dict Bytes)
    → (path == "") ≡ false
    → file at (insert path bytes w) ≡ (if path == at then some bytes else file at w)
file-insert path at bytes w named =
    rw lookup-insert (ground (arith, eq_iff at "", eq_iff path at, eq_iff path ""))

file-remove :
    (path at : String) (w : Dict Bytes)
    → file at (remove path w) ≡ (if path == at then none else file at w)
file-remove path at w = rw lookup-remove (ground (arith, eq_iff at "", eq_iff path at))

write-sets :
    (path at : String) (bytes : Bytes) (w w' : Dict Bytes)
    → write path bytes w ≡ (ok tt, w')
    → file at w' ≡ (if path == at then some bytes else file at w)
write-sets path at bytes w w' e = elim (Bool-cases (path == "")) [
  | inl blank ↦ absurd (failure (rw blank at e))
  | inr named ↦
      ap (file at) (sym (ap (λ x. x.1) (rw named at e))) ∙ file-insert path at bytes w named
]

drop_file-clears :
    (path at : String) (w w' : Dict Bytes)
    → drop_file path w ≡ (ok tt, w')
    → file at w' ≡ (if path == at then none else file at w)
drop_file-clears path at w w' e = elim (Option-cases (file path w)) [
  | inl missing ↦ absurd (failure (rw missing at e))
  | inr (bytes, found) ↦ ap (file at) (sym (ap (λ x. x.1) (rw found at e))) ∙ file-remove path at w
]

drop_file-fails :
    (path at m : String) (w w' : Dict Bytes)
    → drop_file path w ≡ (err m, w')
    → file at w' ≡ file at w
drop_file-fails path at m w w' e = elim (Option-cases (file path w)) [
  | inl missing ↦ ap (file at) (sym (ap (λ x. x.1) (rw missing at e)))
  | inr (bytes, found) ↦ absurd (success (rw found at e))
]

lawful : IsLawful files
lawful = record {
  file = file;
  mkdir_all_keeps = λ path at w. refl;
  write_file_sets = write-sets;
  remove_clears = drop_file-clears;
  directory_above = λ path w w' e. refl;
  remove_fails = drop_file-fails;
  file_is_there = λ path bytes w e. rw e refl;
  file_is_read = λ path bytes w e. rw e refl;
  missing_is_not_read =
      λ path w e. (record { is_not_exist = true; message = "no such file" }, rw e refl);
}

abbrev disk : Dict Bytes
disk = ("/data/a", hi) ∷ ("/data/b", []) ∷ []

abbrev backend : PvcBackend
backend = record { base_path = "/data"; base_url = "http://artifacts" }

valid : validate_key files "b" ≡ ok tt
unfolding validate_key starts
valid = refl

stores : store files backend "a" [] disk ≡ (ok "http://artifacts/a", insert "/data/a" [] disk)
unfolding store starts
stores = refl

store-retrieve_example :
    Reads files backend lawful
      (if path_of files backend "a" == path_of files backend "b"
        then some []
        else object files backend lawful "b" disk)
      (retrieve files backend "b" (insert "/data/a" [] disk)).0
store-retrieve_example =
    store-retrieve files backend lawful "a" "http://artifacts/a" "b" [] disk
      (insert "/data/a" [] disk) valid stores

deletes : delete files backend "a" disk ≡ (ok tt, remove "/data/a" disk)
unfolding delete starts lookup
deletes = refl

delete-retrieve_example :
    Reads files backend lawful
      (if path_of files backend "a" == path_of files backend "b"
        then none
        else object files backend lawful "b" disk)
      (retrieve files backend "b" (remove "/data/a" disk)).0
delete-retrieve_example =
    delete-retrieve files backend lawful "a" "b" disk (remove "/data/a" disk) valid deletes

based : backend.base_path ≢ ""
based e = ground (arith, eq_iff "/data" "")

cleanup_empty_dirs-ends_example :
    (w' : Dict Bytes) × (cleanup_empty_dirs files backend 12 "/data/x/y" disk ≡ some w')
cleanup_empty_dirs-ends_example =
    cleanup_empty_dirs-ends files backend (λ path long. omega arith) based 12 "/data/x/y" disk
      (omega arith)
