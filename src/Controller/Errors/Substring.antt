-- ===== src/Controller/Errors/Substring.antt =====
-- `contains` finds exactly the texts that occur.
use mathlib.Core.List.{◌++◌, append-nil}
use flux_externalsource_cont.Prelude.{
  ℕ, zero, suc, ◌+◌, ◌-◌, ◌≤◌, ◌<◌, ◌≡◌, refl, ◌↔◌, ◌⊎◌, inl, inr, sym, ap, ◌∙◌, true, List, [],
  ◌∷◌, eqb, eqb_iff, length, length-append, take, drop, Bool-cases, arith,
}
use flux_externalsource_cont.Controller.Errors.{same, find_from, find_substring, contains}

-- `t` stands in `s`, behind `before`.
abbrev pub Occurs : List ℕ → List ℕ → Type 0
Occurs t s = (before : List ℕ) × (after : List ℕ) × (s ≡ before ++ (t ++ after))

same_iff : (s t : List ℕ) → (same s t ≡ true) ↔ (s ≡ t)
unfolding same
same_iff [] [] = (λ h. refl, λ h. refl)
same_iff [] (y ∷ ys) = ground arith
same_iff (x ∷ xs) [] = ground arith
same_iff (x ∷ xs) (y ∷ ys) = ground (arith, same_iff xs ys)

take-append-drop : (n : ℕ) (s : List ℕ) → take n s ++ drop n s ≡ s
take-append-drop zero s = refl
take-append-drop (suc n) [] = refl
take-append-drop (suc n) (x ∷ s) = ap (◌∷◌ x) (take-append-drop n s)

take-append : (t r : List ℕ) → take (length t) (t ++ r) ≡ t
take-append [] r = refl
take-append (x ∷ t) r = ap (◌∷◌ x) (take-append t r)

drop-append : (t r : List ℕ) → drop (length t) (t ++ r) ≡ r
drop-append [] r = refl
drop-append (x ∷ t) r = drop-append t r

-- a hit at position `i` is an occurrence
Occurs-at : (i : ℕ) (s t : List ℕ) → take (length t) (drop i s) ≡ t → Occurs t s
Occurs-at i s t h = (
  take i s,
  drop (length t) (drop i s),
  sym (take-append-drop i s)
      ∙ ap (◌++◌ (take i s)) (
          sym (take-append-drop (length t) (drop i s))
          ∙ ap (λ u. u ++ drop (length t) (drop i s)) h),
)

find_from_sound : (rounds i : ℕ) (s t : List ℕ) → find_from rounds i s t ≡ true → Occurs t s
unfolding find_from
find_from_sound zero i s t h = absurd (cc)
find_from_sound (suc rounds) i s t h = elim (Bool-cases (same (take (length t) (drop i s)) t)) [
  | inl hit ↦ Occurs-at i s t ((same_iff _ _).0 hit)
  | inr miss ↦ find_from_sound rounds (i + 1) s t (rw (miss, find_from) at h)
]

drop_before : (before rest : List ℕ) (i : ℕ) → length before ≡ i → drop i (before ++ rest) ≡ rest
drop_before before rest i e = rw (← e) (drop-append before rest)

hit_at :
    (before t after : List ℕ) (i : ℕ)
    → length before ≡ i
    → same (take (length t) (drop i (before ++ (t ++ after)))) t ≡ true
hit_at before t after i e =
    rw (drop_before before (t ++ after) i e, take-append t after) ((same_iff t t).1 refl)

find_from_complete :
    (rounds i : ℕ) (before t after : List ℕ)
    → i ≤ length before
    → length before < i + rounds
    → find_from rounds i (before ++ (t ++ after)) t ≡ true
unfolding find_from
find_from_complete zero i before t after h k = absurd (omega arith)
find_from_complete (suc rounds) i before t after h k = elim (Bool-cases (eqb (length before) i)) [
  | inl here ↦ rw (hit_at before t after i ((eqb_iff _ _).0 here), find_from) refl
  | inr later ↦ ground (arith, find_from_complete rounds (i + 1) before t after)
]

length_occurs :
    (before t after : List ℕ)
    → length (before ++ (t ++ after)) ≡ length before + length t + length after
length_occurs before t after =
    omega (arith, length-append before (t ++ after), length-append t after)

nil_of_length : (xs : List ℕ) → length xs ≡ 0 → xs ≡ []
nil_of_length [] h = refl
nil_of_length (x ∷ xs) h = absurd (omega arith)

-- an occurrence that leaves no room is the whole text
same_of_length :
    (before t after : List ℕ)
    → length (before ++ (t ++ after)) ≤ length t
    → same (before ++ (t ++ after)) t ≡ true
same_of_length before t after h =
    rw
      (
        nil_of_length before (omega (arith, length_occurs before t after)),
        nil_of_length after (omega (arith, length_occurs before t after)),
        append-nil,
      )
      ((same_iff t t).1 refl)

find_substring_complete :
    (before t after : List ℕ) → find_substring (before ++ (t ++ after)) t ≡ true
unfolding find_substring
find_substring_complete before t after =
    find_from_complete _ 0 before t after (omega arith)
      (omega (arith, length_occurs before t after))

contains_complete : (before t after : List ℕ) → contains (before ++ (t ++ after)) t ≡ true
unfolding contains
contains_complete before t after = ground (
  arith,
  length_occurs before t after,
  same_of_length before t after,
  find_substring_complete before t after,
)

take_all : (t : List ℕ) → take (length t) t ≡ t
take_all [] = refl
take_all (x ∷ t) = ap (◌∷◌ x) (take_all t)

Occurs-whole : (s t : List ℕ) → same s t ≡ true → Occurs t s
Occurs-whole s t h = ([], [], (same_iff s t).0 h ∙ sym (append-nil t))

Occurs-last : (s t : List ℕ) → same (drop (length s - length t) s) t ≡ true → Occurs t s
Occurs-last s t h = Occurs-at (length s - length t) s t (rw ((same_iff _ _).0 h) (take_all t))

contains_cases :
    (s t : List ℕ)
    → contains s t ≡ true
    → (same s t ≡ true)
      ⊎ ((same (take (length t) s) t ≡ true)
          ⊎ ((same (drop (length s - length t) s) t ≡ true) ⊎ (find_substring s t ≡ true)))
unfolding contains
contains_cases s t h = ground arith

-- `contains s t` is true exactly if `t` occurs somewhere in `s`.
pub contains_iff : (s t : List ℕ) → (contains s t ≡ true) ↔ Occurs t s
contains_iff s t = (
  λ h. elim (contains_cases s t h) [
    | inl whole ↦ Occurs-whole s t whole
    | inr (inl first) ↦ Occurs-at 0 s t ((same_iff _ _).0 first)
    | inr (inr (inl last)) ↦ Occurs-last s t last
    | inr (inr (inr found)) ↦ find_sound found
  ],
  λ o. rw o.2 (contains_complete o.0 t o.1),
)
  where
    find_sound : find_substring s t ≡ true → Occurs t s
    find_sound found = unfold find_substring in find_from_sound _ 0 s t found
