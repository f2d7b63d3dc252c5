-- ===== src/Storage/Pvc/Laws.antt =====
-- The files as the map of objects that the interface promises.
use flux_externalsource_cont.Prelude.{
  ℕ, zero, suc, String, ◌≡◌, refl, sym, ap, ◌∙◌, subst, Bool, true, false, not, ◌||◌, Bool-cases,
  inl, inr, Option, none, some, Result, ok, err, Result-cases, Option-cases, ◌==◌, if◌then◌else◌,
  eq_iff, arith,
}
use flux_externalsource_cont.Prelude.Actions.{bind-ok, wrap_bind-ok, pure, lift}
use flux_externalsource_cont.Generator.{Bytes}
use flux_externalsource_cont.Storage.Memory.{has_prefix}
use flux_externalsource_cont.Storage.Pvc.{
  FileSystem, PvcBackend, ReadError, validate_key, path_of, store, delete, delete_valid,
  after_remove, cleanup_empty_dirs, or_same, retrieve, read_result,
}

-- How the calls of a file system change the contents of its files: a file that is written has what
-- was written, one that is removed is gone, above what is removed there is a directory, a removal
-- that fails changes no file, and exactly the files that are there can be read.
pub record IsLawful {W : Type 0} (fs : FileSystem W) : Type 0 where
  pub file : (path : String) → W → Option Bytes
  pub mkdir_all_keeps : (path at : String) (w : W) → file at (fs.mkdir_all path w).1 ≡ file at w
  pub write_file_sets :
      (path at : String) (bytes : Bytes) (w w' : W)
      → fs.write_file path bytes w ≡ (ok tt, w')
      → file at w' ≡ (if path == at then some bytes else file at w)
  pub remove_clears :
      (path at : String) (w w' : W)
      → fs.remove path w ≡ (ok tt, w')
      → file at w' ≡ (if path == at then none else file at w)
  pub directory_above :
      (path : String) (w w' : W) → fs.remove path w ≡ (ok tt, w') → file (fs.dir path) w' ≡ none
  pub remove_fails :
      (path at e : String) (w w' : W) → fs.remove path w ≡ (err e, w') → file at w' ≡ file at w
  pub file_is_there :
      (path : String) (bytes : Bytes) (w : W) → file path w ≡ some bytes → fs.is_there path w ≡ true
  pub file_is_read :
      (path : String) (bytes : Bytes) (w : W)
      → file path w ≡ some bytes
      → fs.read_file path w ≡ ok bytes
  pub missing_is_not_read :
      (path : String) (w : W) → file path w ≡ none → (e : ReadError) × (fs.read_file path w ≡ err e)

err-ne-ok : {m : String} → Path (Result String (Unit {0})) (err m) (ok tt) → ⊥
err-ne-ok e = cc

true-ne-false : Path Bool true false → ⊥
true-ne-false e = ground arith

either_fails :
    (b : Bool) (m n : String)
    → (e : String) × Path (Result String Bytes) (if b then err m else err n) (err e)
either_fails true m n = (m, refl)
either_fails false m n = (n, refl)

some-inj {ℓ} : {A : Type ℓ} {a b : A} → some a ≡ some b → a ≡ b
some-inj e = cc

module _ {W : Type 0} (fs : FileSystem W) (p : PvcBackend) (lawful : IsLawful fs) where
  -- the object at a key
  abbrev pub object : (key : String) → W → Option Bytes
  object key w = lawful.file (path_of fs p key) w

  store-sets :
      (key url at : String) (bytes : Bytes) (w w' : W)
      → store fs p key bytes w ≡ (ok url, w')
      → object at w' ≡ (if path_of fs p key == path_of fs p at then some bytes else object at w)
  unfolding store lift pure
  store-sets key url at bytes w w' e =
      let (valid, w₁, first, rest) = bind-ok (lift (validate_key fs key)) _ w e in
      let (made, w₂, second, rest') =
        wrap_bind-ok _ (fs.mkdir_all (fs.dir (path_of fs p key))) _ w₁ rest in
      let (written, w₃, third, final) =
        wrap_bind-ok _ (fs.write_file (path_of fs p key) bytes) _ w₂ rest' in
      ap (object at) (sym (ap (λ x. x.1) final))
      ∙ lawful.write_file_sets (path_of fs p key) (path_of fs p at) bytes w₂ w₃ third
      ∙ ap (λ o. if path_of fs p key == path_of fs p at then some bytes else o)
          (ap (object at) (sym (ap (λ x. x.1) second))
            ∙ lawful.mkdir_all_keeps (fs.dir (path_of fs p key)) (path_of fs p at) w₁
            ∙ ap (object at) (sym (ap (λ x. x.1) first)))

  cleared_nothing :
      (path at : String) (w : W)
      → lawful.file path w ≡ none
      → (if path == at then none else lawful.file at w) ≡ lawful.file at w
  cleared_nothing path at w blank = elim (Bool-cases (path == at)) [
    | inl same ↦ rw same (sym (ap (λ q. lawful.file q w) (sym ((eq_iff path at).0 same)) ∙ blank))
    | inr other ↦ rw other refl
  ]

  -- removing empty directories changes no file
  cleanup_empty_dirs-keeps :
      (rounds : ℕ) (dir at : String) (w w' : W)
      → cleanup_empty_dirs fs p rounds dir w ≡ some w'
      → lawful.file dir w ≡ none
      → lawful.file at w' ≡ lawful.file at w
  unfolding cleanup_empty_dirs
  cleanup_empty_dirs-keeps zero dir at w w' e blank = cc
  cleanup_empty_dirs-keeps (suc rounds) dir at w w' e blank =
      elim (Bool-cases (dir == p.base_path || not (has_prefix dir p.base_path))) [
        | inl stop ↦ ap (lawful.file at) (sym (some-inj (rw stop at e)))
        | inr go ↦ elim (Result-cases (fs.remove dir w).0) [
          | inl (done, removed) ↦
              let gone : fs.remove dir w ≡ (ok tt, (fs.remove dir w).1) =
                λ i. (removed i, (fs.remove dir w).1) in
              cleanup_empty_dirs-keeps rounds (fs.dir dir) at (fs.remove dir w).1 w'
                (rw (go, removed) at e) (lawful.directory_above dir w _ gone)
              ∙ lawful.remove_clears dir at w _ gone
              ∙ cleared_nothing dir at w blank
          | inr (m, kept) ↦
              ap (lawful.file at) (sym (some-inj (rw (go, kept) at e)))
              ∙ lawful.remove_fails dir at m w _ (λ i. (kept i, (fs.remove dir w).1))
        ]
      ]

  or_same-keeps :
      (rounds : ℕ) (dir at : String) (w : W)
      → lawful.file dir w ≡ none
      → lawful.file at (or_same fs p w (cleanup_empty_dirs fs p rounds dir w)) ≡ lawful.file at w
  or_same-keeps rounds dir at w blank = elim (Option-cases (cleanup_empty_dirs fs p rounds dir w)) [
    | inl out ↦ rw out refl
    | inr (w', done) ↦ rw done (cleanup_empty_dirs-keeps rounds dir at w w' done blank)
  ]

  after_remove-clears :
      (path at : String) (w w' : W) (removed : Result String (Unit {0})) (w₁ : W)
      → fs.remove path w ≡ (removed, w₁)
      → after_remove fs p path (removed, w₁) ≡ (ok tt, w')
      → lawful.file at w' ≡ (if path == at then none else lawful.file at w)
  after_remove-clears path at w w' (err m) w₁ r e = absurd (err-ne-ok (ap (λ x. x.0) e))
  after_remove-clears path at w w' (ok done) w₁ r e =
      ap (lawful.file at) (sym (ap (λ x. x.1) e))
      ∙ or_same-keeps _ (fs.dir path) at w₁ (lawful.directory_above path w w₁ r)
      ∙ lawful.remove_clears path at w w₁ r

  not_there : (path : String) (w : W) → fs.is_there path w ≡ false → lawful.file path w ≡ none
  not_there path w gone = elim (Option-cases (lawful.file path w)) [
    | inl missing ↦ missing
    | inr (bytes, found) ↦
        absurd (true-ne-false (sym (lawful.file_is_there path bytes w found) ∙ gone))
  ]

  delete_valid-clears :
      (key at : String) (w w' : W) (valid : Result String (Unit {0}))
      → delete_valid fs p key valid w ≡ (ok tt, w')
      → object at w' ≡ (if path_of fs p key == path_of fs p at then none else object at w)
  delete_valid-clears key at w w' (err m) e = absurd (err-ne-ok (ap (λ x. x.0) e))
  delete_valid-clears key at w w' (ok valid) e =
      elim (Bool-cases (fs.is_there (path_of fs p key) w)) [
        | inl there ↦
            after_remove-clears (path_of fs p key) (path_of fs p at) w w'
              (fs.remove (path_of fs p key) w).0 (fs.remove (path_of fs p key) w).1 refl
              (rw there at e)
        | inr gone ↦
            ap (object at) (sym (ap (λ x. x.1) (rw gone at e)))
            ∙ sym (cleared_nothing (path_of fs p key) (path_of fs p at) w (not_there _ w gone))
      ]

  -- what a read gives, by the object that there is
  abbrev pub Reads : Option Bytes → Result String Bytes → Type 0
  Reads none read = (e : String) × (read ≡ err e)
  Reads (some bytes) read = read ≡ ok bytes

  read_fails : (key : String) (e : ReadError) → Reads none (read_result fs p key (err e))
  read_fails key e = either_fails e.is_not_exist _ _

  retrieve-Reads :
      (key : String) (w : W)
      → validate_key fs key ≡ ok tt
      → Reads (object key w) (retrieve fs p key w).0
  unfolding retrieve
  retrieve-Reads key w valid = elim (Option-cases (object key w)) [
    | inl missing ↦
        let (e, unread) = lawful.missing_is_not_read (path_of fs p key) w missing in
        rw (missing, valid, unread) (read_fails key e)
    | inr (bytes, found) ↦ rw (found, valid, lawful.file_is_read _ bytes w found) refl
  ]

  -- Over a lawful file system, behind a store that returns, a retrieve of a valid key gives the
  -- stored data if the two keys name the same file, and what was there before if they do not; it
  -- fails if nothing was.
  pub store-retrieve :
      (key url at : String) (bytes : Bytes) (w w' : W)
      → validate_key fs at ≡ ok tt
      → store fs p key bytes w ≡ (ok url, w')
      → Reads
          (if path_of fs p key == path_of fs p at then some bytes else object at w)
          (retrieve fs p at w').0
  store-retrieve key url at bytes w w' valid e =
      subst (λ o. Reads o (retrieve fs p at w').0) (store-sets key url at bytes w w' e)
        (retrieve-Reads at w' valid)

  -- Over a lawful file system, behind a delete that returns, a retrieve of a valid key fails if the
  -- two keys name the same file, and gives what was there before if they do not: the removal of
  -- empty directories takes no other object away.
  pub delete-retrieve :
      (key at : String) (w w' : W)
      → validate_key fs at ≡ ok tt
      → delete fs p key w ≡ (ok tt, w')
      → Reads
          (if path_of fs p key == path_of fs p at then none else object at w)
          (retrieve fs p at w').0
  unfolding delete
  delete-retrieve key at w w' valid e =
      subst (λ o. Reads o (retrieve fs p at w').0)
        (delete_valid-clears key at w w' (validate_key fs key) e) (retrieve-Reads at w' valid)
