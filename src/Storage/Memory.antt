-- ===== src/Storage/Memory.antt =====
-- internal/storage/memory.go: the backend that keeps every object in a map. A method holds the
-- backend's lock throughout, so methods follow one another. The order of a map's keys is the one
-- in which Go happens to visit them.
pub mod Laws
use Prim.Native.String.{◌++◌}
use flux_externalsource_cont.Prelude.{
  ℕ, String, Bool, true, false, Option, none, some, List, [], ◌∷◌, Result, ok, err, ◌==◌, ◌&&◌, eqb,
  length, if◌then◌else◌,
}
use flux_externalsource_cont.Prelude.Text.{codes}
use flux_externalsource_cont.Prelude.Actions.{Action, pure, gets, modify, ◌>>=◌, ◌>>◌}
use flux_externalsource_cont.Prelude.Dict.{Dict, lookup, insert, remove}
use flux_externalsource_cont.Generator.{Bytes}
use flux_externalsource_cont.Storage.{StorageBackend}

pub record MemoryBackend : Type 0 where
  pub objects : Dict Bytes
  pub base_url : String

-- NewMemoryBackend, whose warnings are output
unfoldable pub new_memory_backend : List String → MemoryBackend
new_memory_backend [] = record { objects = []; base_url = "" }
new_memory_backend (url ∷ rest) = record { objects = []; base_url = url }

-- strings.HasPrefix(s, prefix)
unfoldable pub starts : (prefix s : List ℕ) → Bool
starts [] s = true
starts (a ∷ rest) [] = false
starts (a ∷ p) (b ∷ s) = let rest = starts p s in eqb a b && rest

abbrev pub has_prefix : (s prefix : String) → Bool
has_prefix s prefix = starts (codes prefix) (codes s)

-- the keys of the map, and those with a prefix
unfoldable pub keys_with : String → Dict Bytes → List String
unfolding starts
keys_with prefix [] = []
keys_with prefix ((key, bytes) ∷ m) =
    let rest = keys_with prefix m in if has_prefix key prefix then key ∷ rest else rest

unfoldable pub get_url : MemoryBackend → String → String
get_url m key = if m.base_url == "" then "memory://localhost/" ++ key else m.base_url ++ "/" ++ key

unfoldable pub store : String → Bytes → Action MemoryBackend String
unfolding insert get_url
store key bytes m = (ok (get_url m key), record m { objects = insert key bytes m.objects })

unfoldable pub list : String → Action MemoryBackend (List String)
unfolding keys_with
list prefix m = (ok (keys_with prefix m.objects), m)

unfoldable pub delete : String → Action MemoryBackend (Unit {0})
unfolding remove
delete key m = (ok tt, record m { objects = remove key m.objects })

abbrev pub found : String → Option Bytes → Result String Bytes
found key none = err ("artifact not found: " ++ key)
found key (some bytes) = ok bytes

unfoldable pub retrieve : String → Action MemoryBackend Bytes
unfolding lookup
retrieve key m = (found key (lookup key m.objects), m)

unfoldable pub get_data : MemoryBackend → String → Option Bytes
unfolding lookup
get_data m key = lookup key m.objects

unfoldable pub size : MemoryBackend → ℕ
size m = length m.objects

unfoldable pub clear : Action MemoryBackend (Unit {0})
clear m = (ok tt, record m { objects = [] })

-- the backend, behind the interface
unfoldable pub memory_storage : StorageBackend MemoryBackend
unfolding store list delete retrieve get_url
memory_storage = record {
  store = store;
  list = list;
  delete = delete;
  get_url = λ key m. get_url m key;
  retrieve = retrieve;
}
