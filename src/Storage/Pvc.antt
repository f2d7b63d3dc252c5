-- ===== src/Storage/Pvc.antt =====
-- internal/storage/pvc.go: the backend that keeps every object in a file. A method holds the
-- backend's lock throughout. The file system, and packages path/filepath and strings, are
-- parameters.
pub mod Laws
pub mod Cleanup
use Prim.Native.String.{◌++◌}
use flux_externalsource_cont.Prelude.{
  ℕ, zero, suc, String, Bool, true, false, not, ◌||◌, Option, none, some, List, [], ◌∷◌, Result, ok,
  err, is_ok, map_err, length, ◌==◌, if◌then◌else◌,
}
use flux_externalsource_cont.Prelude.Text.{codes}
use flux_externalsource_cont.Prelude.Actions.{Action, pure, lift, wrap, attempt, ◌>>=◌, ◌>>◌}
use flux_externalsource_cont.Generator.{Bytes}
use flux_externalsource_cont.Storage.{StorageBackend}
use flux_externalsource_cont.Storage.Memory.{has_prefix}

pub record ReadError : Type 0 where
  -- os.IsNotExist(err)
  pub is_not_exist : Bool
  pub message : String

-- one call that filepath.WalkDir makes
pub data Visit : Type 0 where
  failed : (e : String) → Visit
  directory : Visit
  file_at : (path : String) → Visit

pub record FileSystem (W : Type 0) : Type 0 where
  pub join : (base key : String) → String
  pub dir : (path : String) → String
  pub rel : (base path : String) → Result String String
  pub to_slash : String → String
  pub contains : (s part : String) → Bool
  pub bytes_of : String → Bytes
  pub mkdir_all : (path : String) → Action W (Unit {0})
  pub write_file : (path : String) → Bytes → Action W (Unit {0})
  pub remove : (path : String) → Action W (Unit {0})
  -- not os.IsNotExist of os.Stat's error
  pub is_there : (path : String) → W → Bool
  pub walk_dir : (path : String) → W → List Visit
  pub read_file : (path : String) → W → Result ReadError Bytes

pub record PvcBackend : Type 0 where
  pub base_path : String
  pub base_url : String

module _ {W : Type 0} (fs : FileSystem W) where
  unfoldable pub new_pvc_backend : (base_path base_url : String) → Action W PvcBackend
  unfolding wrap attempt pure ◌>>=◌
  new_pvc_backend base_path base_url = do
    made ←
        wrap (λ e. ("failed to create base path " ++ base_path) ++ (": " ++ e))
          (fs.mkdir_all base_path)
    tested ←
        wrap (λ e. ("base path " ++ base_path) ++ (" is not writable: " ++ e))
          (fs.write_file (fs.join base_path ".write-test") (fs.bytes_of "test"))
    removed ← attempt (fs.remove (fs.join base_path ".write-test"))
    pure (record { base_path = base_path; base_url = base_url })

  unfoldable pub validate_key : (key : String) → Result String (Unit {0})
  validate_key key =
      if key == ""
      then err "key cannot be empty"
      else if fs.contains key ".."
      then err ("key contains invalid path traversal: " ++ key)
      else if has_prefix key "/"
      then err ("key cannot start with /: " ++ key)
      else ok tt

  module _ (p : PvcBackend) where
    abbrev pub path_of : (key : String) → String
    path_of key = fs.join p.base_path key

    unfoldable pub get_url : (key : String) → String
    get_url key =
        if not (p.base_url == "")
        then p.base_url ++ ("/" ++ key)
        else "file://" ++ (p.base_path ++ ("/" ++ key))

    unfoldable pub store : (key : String) → Bytes → Action W String
    unfolding validate_key get_url wrap lift pure ◌>>=◌
    store key bytes = do
      valid ← lift (validate_key key)
      made ←
          wrap (λ e. ("failed to create directory " ++ fs.dir (path_of key)) ++ (": " ++ e))
            (fs.mkdir_all (fs.dir (path_of key)))
      written ←
          wrap (λ e. ("failed to write file " ++ path_of key) ++ (": " ++ e))
            (fs.write_file (path_of key) bytes)
      pure (get_url key)

    -- what the callback of WalkDir collects
    abbrev pub with_relative :
        Result String String → Result String (List String) → Result String (List String)
    with_relative (err e) rest = err e
    with_relative (ok path) (err e) = err e
    with_relative (ok path) (ok keys) = ok (fs.to_slash path ∷ keys)

    unfoldable pub collect : List Visit → Result String (List String)
    collect [] = ok []
    collect (failed e ∷ visits) = err e
    collect (directory ∷ visits) = collect visits
    collect (file_at path ∷ visits) = with_relative (fs.rel p.base_path path) (collect visits)

    unfoldable pub list : (prefix : String) → Action W (List String)
    unfolding collect
    list prefix w = if not (fs.is_there (path_of prefix) w) then (ok [], w) else (
      map_err (λ e. ("failed to list files in " ++ path_of prefix) ++ (": " ++ e))
          (collect (fs.walk_dir (path_of prefix) w)),
      w,
    )

    -- The recursion, with a bound on its depth; `none` means that the bound was reached.
    unfoldable pub cleanup_empty_dirs : (rounds : ℕ) (dir : String) → W → Option W
    cleanup_empty_dirs zero dir w = none
    cleanup_empty_dirs (suc rounds) dir w =
        let (removed, w') = fs.remove dir w in
        let above = cleanup_empty_dirs rounds (fs.dir dir) w' in
        if dir == p.base_path || not (has_prefix dir p.base_path)
        then some w
        else if is_ok removed
        then above
        else some w'

    abbrev pub enough : (dir : String) → ℕ
    enough dir = suc (length (codes dir))

    abbrev pub or_same : W → Option W → W
    or_same w none = w
    or_same w (some w') = w'

    abbrev pub after_remove :
        (path : String) → Result String (Unit {0}) × W → Result String (Unit {0}) × W
    after_remove path (err e, w) = (err (("failed to delete file " ++ path) ++ (": " ++ e)), w)
    after_remove path (ok done, w) =
        (ok tt, or_same w (cleanup_empty_dirs (enough (fs.dir path)) (fs.dir path) w))

    abbrev pub delete_valid : (key : String) → Result String (Unit {0}) → Action W (Unit {0})
    delete_valid key (err e) w = (err e, w)
    delete_valid key (ok valid) w =
        if not (fs.is_there (path_of key) w)
        then (ok tt, w)
        else after_remove (path_of key) (fs.remove (path_of key) w)

    unfoldable pub delete : (key : String) → Action W (Unit {0})
    unfolding validate_key cleanup_empty_dirs
    delete key = delete_valid key (validate_key key)

    abbrev pub read_result : (key : String) → Result ReadError Bytes → Result String Bytes
    read_result key (ok bytes) = ok bytes
    read_result key (err e) =
        if e.is_not_exist
        then err ("artifact not found: " ++ key)
        else err (("failed to read file " ++ path_of key) ++ (": " ++ e.message))

    abbrev pub retrieve_valid : (key : String) → Result String (Unit {0}) → Action W Bytes
    retrieve_valid key (err e) w = (err e, w)
    retrieve_valid key (ok valid) w = (read_result key (fs.read_file (path_of key) w), w)

    unfoldable pub retrieve : (key : String) → Action W Bytes
    unfolding validate_key
    retrieve key = retrieve_valid key (validate_key key)

    -- the backend, behind the interface
    unfoldable pub pvc_storage : StorageBackend W
    unfolding store list delete retrieve get_url
    pvc_storage = record {
      store = store;
      list = list;
      delete = delete;
      get_url = λ key w. get_url key;
      retrieve = retrieve;
    }
