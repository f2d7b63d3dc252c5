-- ===== src/Storage/Pvc/Cleanup.antt =====
-- The removal of empty directories ends.
use text.Mathlib.TextEquality.{Char-path}
use flux_externalsource_cont.Prelude.{
  ℕ, zero, suc, ◌<◌, ◌≤◌, String, ◌≡◌, ◌≢◌, refl, ap, true, false, not, ◌||◌, Bool-cases, inl, inr,
  some, List, [], ◌∷◌, Result-cases, length, ◌==◌, eqb_iff, eq_iff, arith,
}
use flux_externalsource_cont.Prelude.Text.{codes}
use flux_externalsource_cont.Storage.Memory.{has_prefix, starts}
use flux_externalsource_cont.Storage.Pvc.{FileSystem, PvcBackend, cleanup_empty_dirs}

head_of : {a b : ℕ} {xs ys : List ℕ} → (a ∷ xs) ≡ (b ∷ ys) → a ≡ b
head_of e = cc

tail_of : {a b : ℕ} {xs ys : List ℕ} → (a ∷ xs) ≡ (b ∷ ys) → xs ≡ ys
tail_of e = cc

codes-inj : (s t : String) → codes s ≡ codes t → s ≡ t
codes-inj String.[] String.[] e = refl
codes-inj String.[] (String.◌∷◌ d t) e = cc
codes-inj (String.◌∷◌ c s) String.[] e = cc
codes-inj (String.◌∷◌ c s) (String.◌∷◌ d t) e =
    λ i. String.◌∷◌ (Char-path c d (head_of e) i) (codes-inj s t (tail_of e) i)

-- a text with a prefix that is not empty and not the whole has at least two characters
proper_prefix : (p s : List ℕ) → starts p s ≡ true → p ≢ [] → s ≢ p → 2 ≤ length s
unfolding starts
proper_prefix [] s h filled other = absurd (filled refl)
proper_prefix (a ∷ p) [] h filled other = absurd (ground arith)
proper_prefix (a ∷ []) (b ∷ []) h filled other =
    absurd (other (ap (λ x. x ∷ []) (ground (arith, eqb_iff a b))))
proper_prefix (a ∷ c ∷ p) (b ∷ []) h filled other = absurd (ground arith)
proper_prefix (a ∷ p) (b ∷ c ∷ s) h filled other = ground arith

codes-ne-nil : (s : String) → s ≢ "" → codes s ≢ []
codes-ne-nil s filled e = filled (codes-inj s "" e)

module _ {W : Type 0} (fs : FileSystem W) (p : PvcBackend)
    (shortens : (path : String)
      → 2 ≤ length (codes path)
      → length (codes (fs.dir path)) < length (codes path))
    (based : p.base_path ≢ "") where
  below_base :
      (dir : String)
      → (dir == p.base_path || not (has_prefix dir p.base_path)) ≡ false
      → 2 ≤ length (codes dir)
  below_base dir go =
      proper_prefix (codes p.base_path) (codes dir) (ground arith) (codes-ne-nil p.base_path based)
        λ e. let same = codes-inj dir p.base_path e in ground (arith, eq_iff dir p.base_path)

  -- If the directory of a path of at least two characters is a shorter path, and the base path is
  -- not empty, then the removal of empty directories ends, with every bound on its rounds that
  -- exceeds the length of the path.
  pub cleanup_empty_dirs-ends :
      (rounds : ℕ) (dir : String) (w : W)
      → length (codes dir) < rounds
      → (w' : W) × (cleanup_empty_dirs fs p rounds dir w ≡ some w')
  unfolding cleanup_empty_dirs
  cleanup_empty_dirs-ends zero dir w h = absurd (ground arith)
  cleanup_empty_dirs-ends (suc rounds) dir w h =
      elim (Bool-cases (dir == p.base_path || not (has_prefix dir p.base_path))) [
        | inl stop ↦ (w, rw stop refl)
        | inr go ↦ elim (Result-cases (fs.remove dir w).0) [
          | inl (done, removed) ↦
              let shorter = shortens dir (below_base dir go) in
              let (w', e) =
                cleanup_empty_dirs-ends rounds (fs.dir dir) (fs.remove dir w).1 (omega arith) in
              (w', rw (go, removed) e)
          | inr (m, kept) ↦ ((fs.remove dir w).1, rw (go, kept) refl)
        ]
      ]
