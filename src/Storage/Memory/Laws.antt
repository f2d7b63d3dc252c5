-- ===== src/Storage/Memory/Laws.antt =====
-- What a reader finds after the operations of the backend.
use Prim.Native.String.{◌++◌}
use flux_externalsource_cont.Prelude.{
  String, ◌≡◌, Bool, true, false, ◌&&◌, any, Option, none, some, List, [], ◌∷◌, ok, err, ◌==◌,
  eq_iff, if◌then◌else◌, arith,
}
use flux_externalsource_cont.Prelude.Dict.{Dict, lookup, lookup-insert, lookup-remove}
use flux_externalsource_cont.Generator.{Bytes}
use flux_externalsource_cont.Storage.Memory.{MemoryBackend, has_prefix, keys_with}
use flux_externalsource_cont.Storage.Memory

-- A store and a delete change what a retrieve finds at their own key, and at no other: the stored
-- data comes back, and a deleted object is an error.
pub retrieve-store-delete :
    (m : MemoryBackend) (k j : String) (bytes : Bytes)
    → ((Memory.retrieve j (Memory.store k bytes m).1).0
        ≡ (if k == j then ok bytes else (Memory.retrieve j m).0))
      × ((Memory.retrieve j (Memory.delete k m).1).0
          ≡ (if k == j then err ("artifact not found: " ++ j) else (Memory.retrieve j m).0))
unfolding Memory.retrieve Memory.store Memory.delete
retrieve-store-delete m k j bytes =
    (rw lookup-insert (ground arith), rw lookup-remove (ground arith))

abbrev pub is_listed : String → List String → Bool
is_listed key = any (λ k. k == key)

abbrev pub has_object : Option Bytes → Bool
has_object none = false
has_object (some bytes) = true

-- A key is listed under a prefix exactly if it has the prefix and an object.
pub keys_with-is_listed :
    (prefix key : String) (m : Dict Bytes)
    → is_listed key (keys_with prefix m) ≡ (has_prefix key prefix && has_object (lookup key m))
unfolding keys_with lookup
keys_with-is_listed prefix key [] = ground arith
keys_with-is_listed prefix key ((k, bytes) ∷ m) =
    ground (arith, keys_with-is_listed prefix key m, eq_iff k key, eq_iff key k)
