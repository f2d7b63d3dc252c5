-- ===== src/Artifact/Manager/Laws.antt =====
-- What the cleanup keeps, and what is packaged.
use flux_externalsource_cont.Prelude.{
  String, ◌≡◌, ◌∙◌, refl, Bool, not, ◌&&◌, Option, none, some, List, [], ◌∷◌, ok, ◌==◌, eq_iff,
  if◌then◌else◌, arith, Bool-cases, inl, inr,
}
use flux_externalsource_cont.Prelude.Actions.{pure}
use flux_externalsource_cont.Prelude.Dict.{lookup, lookup-remove}
use flux_externalsource_cont.Generator.{Bytes}
use flux_externalsource_cont.Artifact.{Artifact}
use flux_externalsource_cont.Storage.Memory.{
  MemoryBackend, memory_storage, has_prefix, keys_with, list, delete,
}
use flux_externalsource_cont.Storage.Memory.Laws.{is_listed, keys_with-is_listed, has_object}
use flux_externalsource_cont.Artifact.Manager.{
  Packing, prefix_of, key_of, delete_unless_kept, delete_obsolete, cleanup,
}

-- removing a key that is not there changes nothing
only_listed :
    (listed prefixed obsolete : Bool) (found : Option Bytes)
    → listed ≡ (prefixed && has_object found)
    → (if listed && obsolete then none else found) ≡ (if prefixed && obsolete then none else found)
only_listed listed prefixed obsolete none h = ground arith
only_listed listed prefixed obsolete (some bytes) h = ground arith

module _ (p : Packing MemoryBackend) where
  abbrev after_deletions : String → List String → MemoryBackend → List String × MemoryBackend
  after_deletions keep keys m = delete_obsolete p memory_storage keep keys m

  delete_unless_kept_lem :
      (keep key k : String) (m : MemoryBackend)
      → ((delete_unless_kept p memory_storage keep key m).0 ≡ ok tt)
        × (lookup k (delete_unless_kept p memory_storage keep key m).1.objects
            ≡ (if key == k && not (key == keep) then none else lookup k m.objects))
  unfolding delete_unless_kept memory_storage delete pure
  delete_unless_kept_lem keep key k m = elim (Bool-cases (key == keep)) [
    | inl kept ↦ rw (kept, delete_unless_kept) (refl, ground arith)
    | inr old ↦ rw (old, delete_unless_kept) (refl, rw lookup-remove (ground arith))
  ]

  delete_obsolete_lem :
      (keep k : String) (keys : List String) (m : MemoryBackend)
      → ((after_deletions keep keys m).0 ≡ [])
        × (lookup k (after_deletions keep keys m).1.objects
            ≡ (if is_listed k keys && not (k == keep) then none else lookup k m.objects))
  unfolding delete_obsolete
  delete_obsolete_lem keep k [] m = (refl, refl)
  delete_obsolete_lem keep k (key ∷ keys) m =
      let v = (delete_unless_kept p memory_storage keep key m).1 in
      let step = delete_unless_kept_lem keep key k m in
      let rest = delete_obsolete_lem keep k keys v in
      (
        rw (step.0, rest.0) refl,
        ground (arith, step.1, rest.1, eq_iff key k, eq_iff k keep, eq_iff key keep),
      )

  -- On the memory backend, a cleanup succeeds and removes the objects under the source's prefix
  -- except the archive of the revision to keep; every other object stays as it was.
  pub cleanup-memory :
      (source keep_revision k : String) (m : MemoryBackend)
      → (let after = cleanup p memory_storage source keep_revision m in
          (after.0 ≡ ok tt)
          × (lookup k after.1.objects ≡ (
              if has_prefix k (prefix_of p memory_storage source)
                && not (k == key_of p memory_storage source keep_revision)
              then none
              else lookup k m.objects)))
  unfolding cleanup memory_storage list
  cleanup-memory source keep_revision k m =
      let keep = key_of p memory_storage source keep_revision in
      let keys = keys_with (prefix_of p memory_storage source) m.objects in
      let deleted = delete_obsolete_lem keep k keys m in
      let listed = keys_with-is_listed (prefix_of p memory_storage source) k m.objects in
      (rw deleted.0 refl, rw deleted.0 (deleted.1 ∙ only_listed _ _ _ _ listed))
