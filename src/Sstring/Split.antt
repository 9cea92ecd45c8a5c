-- ===== src/Sstring/Split.antt =====
-- sstring.c: split against join, and slices of an append.
use machine_project.Prelude.{
  ℕ, ◌+◌, ◌-◌, ◌%◌, ◌^◌, ◌<◌, ◌≡◌, refl, sym, ltb, lt→ltb, le→ltb, ◌==◌, ==→eq, if◌then◌else◌,
  false, List, [], ◌∷◌, ◌++◌, length, take_all, take_append, drop_append, append_assoc, append-nil,
  length-append, ok, Bool-cases, inl, inr, arith,
}
use machine_project.Sstring.{other, sstring_append, split_from, sstring_split, sstring_slice}

-- The pieces with the delimiter between them.
unfoldable pub join : ℕ → List (List ℕ) → List ℕ
join delimiter [] = []
join delimiter (p ∷ []) = p
join delimiter (p ∷ q ∷ ps) = p ++ delimiter ∷ join delimiter (q ∷ ps)

-- No piece holds the delimiter.
unfoldable pub IsFree : ℕ → List ℕ → Type 0
IsFree delimiter [] = Unit
IsFree delimiter (c ∷ cs) = ((c == delimiter) ≡ false) × IsFree delimiter cs

unfoldable pub AllFree : ℕ → List (List ℕ) → Type 0
AllFree delimiter [] = Unit
AllFree delimiter (p ∷ ps) = IsFree delimiter p × AllFree delimiter ps

count : ℕ → List ℕ → ℕ
count delimiter [] = 0
count delimiter (c ∷ cs) = (if c == delimiter then 1 else 0) + count delimiter cs

join-cons :
    (d : ℕ) (p : List ℕ) (s segment : List ℕ)
    → join d (p ∷ split_from d segment s) ≡ p ++ d ∷ join d (split_from d segment s)
unfolding join split_from
join-cons d p [] segment = refl
join-cons d p (c ∷ cs) segment = elim (Bool-cases (c == d)) [
  | inl e ↦ rw e
  | inr e ↦ rw e (join-cons d p cs (segment ++ c ∷ []))
]

join-split_from : (d : ℕ) (segment s : List ℕ) → join d (split_from d segment s) ≡ segment ++ s
unfolding split_from
join-split_from d segment [] = unfold join in sym (append-nil segment)
join-split_from d segment (c ∷ cs) = elim (Bool-cases (c == d)) [
  | inl e ↦ rw (e, join-cons d segment cs [], join-split_from d [] cs, ==→eq c d e)
  | inr e ↦ rw (e, join-split_from d (segment ++ c ∷ []) cs, append_assoc)
]

IsFree-append : (d : ℕ) (p q : List ℕ) → IsFree d p → IsFree d q → IsFree d (p ++ q)
unfolding IsFree
IsFree-append d [] q h k = k
IsFree-append d (c ∷ p) q h k = (h.0, IsFree-append d p q h.1 k)

AllFree-split_from :
    (d : ℕ) (segment s : List ℕ) → IsFree d segment → AllFree d (split_from d segment s)
unfolding AllFree split_from IsFree
AllFree-split_from d segment [] h = (h, tt)
AllFree-split_from d segment (c ∷ cs) h = elim (Bool-cases (c == d)) [
  | inl e ↦ rw e (h, AllFree-split_from d [] cs tt)
  | inr e ↦
      rw e
        (AllFree-split_from d (segment ++ c ∷ []) cs (IsFree-append d segment (c ∷ []) h (e, tt)))
]

-- For a string of less than 2 ^ 31 - 1 characters and any delimiter the split returns pieces, empty ones
-- included; joining them with the delimiter gives the string back, and no piece holds the delimiter.
pub join-sstring_split :
    (s : List ℕ) (delimiter : ℕ)
    → length s < 2 ^ 31 - 1
    → (pieces : List (List ℕ)) × (sstring_split s delimiter ≡ ok pieces)
      × (join delimiter pieces ≡ s)
      × AllFree delimiter pieces
unfolding sstring_split
join-sstring_split s d h =
    let len : length s % 2 ^ 32 ≡ length s = omega arith in
    (
      split_from d [] s,
      rw (len, lt→ltb (length s) (2 ^ 31 - 1) h, take_all (length s) s (omega arith)),
      join-split_from d [] s,
      AllFree-split_from d [] s (unfold IsFree in tt),
    )

-- Where the two lengths add up to less than 2 ^ 31 - 1, appending another string returns the length of
-- the result, and the slices at the seam are the two strings.
sstring_slice-sstring_append :
    (s t : List ℕ)
    → length s + length t < 2 ^ 31 - 1
    → (r : List ℕ) × (n : ℕ) × (sstring_append s (other t) ≡ ok (r, n))
      × (n ≡ length r)
      × (sstring_slice r 0 (length s) ≡ ok s)
      × (sstring_slice r (length s) n ≡ ok t)
unfolding sstring_append sstring_slice
sstring_slice-sstring_append s t h =
    let n = length-append s t in
    let from_start : ltb (length s) 0 ≡ false = le→ltb _ _ (omega arith) in
    let start_in : ltb (length (s ++ t)) 0 ≡ false = le→ltb _ _ (omega arith) in
    let seam_in : ltb (length (s ++ t)) (length s) ≡ false = le→ltb _ _ (omega arith) in
    let whole : length s - 0 ≡ length s = omega arith in
    (
      s ++ t,
      length (s ++ t),
      rw (lt→ltb (length s + length t) (2 ^ 31 - 1) h),
      refl,
      rw (from_start, start_in, whole, take_append s t),
      rw (seam_in, drop_append s t, take_all (length (s ++ t) - length s) t (omega arith)),
    )
