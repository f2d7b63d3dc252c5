-- ===== src/Artifact/Manager.antt =====
-- internal/artifact/manager.go: packages an artifact, stores it, and removes old ones. The digest,
-- the archive and the path's normal form are parameters: packages crypto/sha256, archive/tar,
-- compress/gzip and path/filepath.
pub mod Laws
use Prim.Native.String.{◌++◌}
use flux_externalsource_cont.Prelude.{
  ℕ, zero, suc, String, Bool, true, false, not, ◌&&◌, ◌||◌, List, [], ◌∷◌, Result, ok, err, ◌==◌,
  length, if◌then◌else◌,
}
use flux_externalsource_cont.Prelude.Text.{codes}
use flux_externalsource_cont.Prelude.Actions.{Action, pure, raise, gets, attempt, wrap, ◌>>=◌, ◌>>◌}
use flux_externalsource_cont.Generator.{Bytes}
use flux_externalsource_cont.Artifact.{Artifact, ArtifactManager}
use flux_externalsource_cont.Storage.{StorageBackend}

-- What the manager takes from the standard library.
pub record Packing (W : Type 0) : Type 0 where
  -- Sprintf("%x", sha256.Sum256(data))
  pub sha256_hex : Bytes → String
  -- filepath.Clean, strings.TrimPrefix(s, "/") and strings.Contains
  pub clean : String → String
  pub trim_slash : String → String
  pub contains : (s part : String) → Bool
  -- the .tar.gz archive of one file with this name and content; the header has the time
  pub tar_gz : (name : String) → Bytes → Action W Bytes
  -- time.Now().UTC().Format(time.RFC3339), and Sprintf at %d
  pub created : W → String
  pub print_length : ℕ → String
  -- Sprintf("cleanup completed with %d errors: %v", len(errors), errors)
  pub cleanup_message : List String → String

module _ {W : Type 0} (p : Packing W) (storage : StorageBackend W) where
  -- the name of the file in the archive
  abbrev pub entry_name : String → String
  entry_name destination_path =
      let clean_path = p.clean destination_path in
      p.trim_slash (if clean_path == "." || clean_path == "/" then "data" else clean_path)

  unfoldable pub create_tar_gz_archive : Bytes → String → Action W Bytes
  create_tar_gz_archive bytes destination_path =
      if p.contains (entry_name destination_path) ".."
      then raise ("invalid destination path: " ++ destination_path)
      else p.tar_gz (entry_name destination_path) bytes

  unfoldable pub package_data : Bytes → String → Action W Artifact
  unfolding create_tar_gz_archive wrap ◌>>=◌
  package_data bytes path = do
    archive ←
        wrap (λ e. "failed to create tar.gz archive: " ++ e) (create_tar_gz_archive bytes path)
    created ← gets p.created
    pure (record {
      bytes = archive;
      path = path;
      revision = p.sha256_hex bytes;
      metadata =
          ("created", created)
          ∷ ("size", p.print_length (length archive))
          ∷ ("contentHash", p.sha256_hex bytes)
          ∷ [];
    })

  abbrev pub prefix_of : String → String
  prefix_of source = "artifacts/" ++ source ++ "/"

  abbrev pub key_of : (source revision : String) → String
  key_of source revision = "artifacts/" ++ source ++ "/" ++ revision ++ ".tar.gz"

  unfoldable pub store : Artifact → String → Action W String
  unfolding wrap
  store artifact source =
      wrap (λ e. "failed to store artifact: " ++ e)
        (storage.store (key_of source artifact.revision) artifact.bytes)

  -- the error of one deletion, before those of the keys behind it
  abbrev pub with_error : String → Result String (Unit {0}) → List String → List String
  with_error key (ok _) errors = errors
  with_error key (err e) errors = ("failed to delete " ++ key ++ ": " ++ e) ∷ errors

  -- one round of the loop over the keys
  unfoldable pub delete_unless_kept : (keep_key key : String) → Action W (Unit {0})
  delete_unless_kept keep_key key = if not (key == keep_key) then storage.delete key else pure tt

  -- the loop, with the errors it collects
  unfoldable pub delete_obsolete : (keep_key : String) → List String → W → List String × W
  unfolding delete_unless_kept
  delete_obsolete keep_key [] w = ([], w)
  delete_obsolete keep_key (key ∷ keys) w =
      let (deleted, v) = delete_unless_kept keep_key key w in
      let (errors, w') = delete_obsolete keep_key keys v in (with_error key deleted errors, w')

  abbrev pub raise_errors : List String → Action W (Unit {0})
  raise_errors [] w = (ok tt, w)
  raise_errors (e ∷ errors) w = (err (p.cleanup_message (e ∷ errors)), w)

  unfoldable pub cleanup : (source keep_revision : String) → Action W (Unit {0})
  unfolding delete_obsolete wrap ◌>>=◌
  cleanup source keep_revision = do
    keys ←
        wrap (λ e. "failed to list artifacts for cleanup: " ++ e) (storage.list (prefix_of source))
    errors ← λ w.
        let (errors, w') = delete_obsolete (key_of source keep_revision) keys w in (ok errors, w')
    raise_errors errors

  -- the manager behind its interface
  unfoldable pub manager : ArtifactManager W
  unfolding package_data store cleanup
  manager = record { package_data = package_data; store = store; cleanup = cleanup }
