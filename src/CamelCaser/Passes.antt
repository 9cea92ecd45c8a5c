-- ===== src/CamelCaser/Passes.antt =====
-- camelCaser.c: the loops of Trim_and_Camel are together one pass over the input.
use machine_project.Prelude.{
  ℕ, zero, suc, ◌+◌, ◌-◌, ◌%◌, ◌^◌, ◌≤◌, ◌<◌, ◌≡◌, refl, ap, sym, ◌∙◌, Bool, true, false, ◌&&◌,
  ◌==◌, ◌⊎◌, lt→ltb, le→ltb, if◌then◌else◌, List, [], ◌∷◌, ◌++◌, map, ok, fault, arith, length,
  take, take_append, replicate, inl, inr,
}
use machine_project.Prelude.Ctype.{is_alpha, is_space, is_punct, to_lower, to_upper}
use machine_project.Prelude.CtypeLaws.{
  is_space-to_lower, is_space-to_upper, is_punct-to_lower, is_punct-to_upper, to_lower-to_lower,
  to_lower-to_upper,
}
use machine_project.CamelCaser.{capitalise, capitalise_words, trim_from, lower_from, trim_and_camel}

abbrev pub kept : Bool → ℕ → ℕ → ℕ
kept lower previous c =
    if lower then to_lower c else if is_alpha c && is_space previous then to_upper c else to_lower c

-- One pass: `previous` is the character before, and `lower` says that the last character kept was
-- punctuation.
unfoldable pub camel : Bool → ℕ → List ℕ → List ℕ
camel lower previous [] = []
camel lower previous (c ∷ cs) =
    let skip = camel lower c cs in
    let keep = camel (is_punct c) c cs in if is_space c then skip else kept lower previous c ∷ keep

non_space : List ℕ → List ℕ
non_space [] = []
non_space (c ∷ cs) = let rest = non_space cs in if is_space c then rest else c ∷ rest

trim_from-eq-non_space :
    (k previous : ℕ) (s : List ℕ) → k + length s < 2 ^ 64 → trim_from k previous s ≡ non_space s
unfolding trim_from non_space
trim_from-eq-non_space k previous [] h = refl
trim_from-eq-non_space k previous (c ∷ cs) h =
    ground (arith, trim_from-eq-non_space (k + 1) c cs (omega arith))

-- What the last loop writes.
low : Bool → List ℕ → List ℕ
low lower [] = []
low lower (c ∷ cs) = let d = if lower then to_lower c else c in d ∷ low (is_punct d) cs

length-low : (lower : Bool) (s : List ℕ) → length (low lower s) ≡ length s
unfolding low
length-low lower [] = refl
length-low lower (c ∷ cs) = ap suc (length-low (is_punct (if lower then to_lower c else c)) cs)

lower_from_done :
    (i bound n : ℕ) → bound ≤ i → lower_from false i bound (replicate n 0) ≡ ok (replicate n 0)
unfolding lower_from
lower_from_done i bound zero h = rw (le→ltb i bound h)
lower_from_done i bound (suc n) h =
    rw (le→ltb i bound h, lower_from_done (i + 1) bound n (omega arith))

lower_from_all :
    (lower : Bool) (i bound n c : ℕ) (cs : List ℕ)
    → bound ≡ i + length cs
    → lower_from lower i bound (c ∷ (cs ++ replicate n 0))
      ≡ ok (low lower (c ∷ cs) ++ replicate n 0)
unfolding lower_from low
lower_from_all lower i bound n c [] h =
    rw (le→ltb i bound (omega arith), lower_from_done (i + 1) bound n (omega arith))
lower_from_all lower i bound n c (c' ∷ cs) h = rw (
  lt→ltb i bound (omega arith),
  lower_from_all (is_punct (if lower then to_lower c else c)) (i + 1) bound n c' cs (omega arith),
)

-- With nothing trimmed down to, the loop reads the zeros and then what lies behind the buffer.
lower_from_blank :
    (i bound n : ℕ) → i + n < bound → lower_from false i bound (replicate n 0) ≡ fault
unfolding lower_from is_punct
lower_from_blank i bound zero h = rw (lt→ltb i bound (omega arith))
lower_from_blank i bound (suc n) h =
    rw (lt→ltb i bound (omega arith), lower_from_blank (i + 1) bound n (omega arith))

capitalise_words-eq :
    (s : List ℕ) → capitalise_words s (map to_lower s) ≡ capitalise 0 s (map to_lower s)
unfolding capitalise_words capitalise is_space
capitalise_words-eq [] = refl
capitalise_words-eq (c ∷ cs) = ground arith

fused :
    (lower : Bool) (previous : ℕ) (s : List ℕ)
    → low lower (non_space (capitalise previous s (map to_lower s))) ≡ camel lower previous s
unfolding low non_space capitalise camel
fused lower previous [] = refl
fused lower previous (c ∷ cs) = ground (
  arith,
  is_space-to_lower c,
  is_space-to_upper c,
  is_punct-to_lower c,
  is_punct-to_upper c,
  to_lower-to_lower c,
  to_lower-to_upper c,
  fused lower c cs,
  fused (is_punct c) c cs,
)

length-capitalise :
    (previous : ℕ) (s : List ℕ) → length (capitalise previous s (map to_lower s)) ≡ length s
unfolding capitalise
length-capitalise previous [] = refl
length-capitalise previous (c ∷ cs) = ap suc (length-capitalise c cs)

length-non_space : (s : List ℕ) → length (non_space s) ≤ length s
unfolding non_space
length-non_space [] = omega arith
length-non_space (c ∷ cs) = ground (arith, length-non_space cs)

-- The last loop at a string of at least one character.
lower_all :
    (t : List ℕ) (n : ℕ)
    → 0 < length t
    → length t < 2 ^ 64
    → lower_from false 0 ((length t + 2 ^ 64 - 1) % 2 ^ 64) (t ++ replicate n 0)
      ≡ ok (low false t ++ replicate n 0)
lower_all [] n h k = absurd (omega arith)
lower_all (c ∷ cs) n h k =
    lower_from_all false 0 ((suc (length cs) + 2 ^ 64 - 1) % 2 ^ 64) n c cs (omega arith)

-- A string with a character that is no space.
unfoldable pub HasText : List ℕ → Type 0
HasText [] = ⊥
HasText (c ∷ cs) = (is_space c ≡ false) ⊎ HasText cs

non_space-HasText :
    (previous : ℕ) (s : List ℕ)
    → HasText s
    → 0 < length (non_space (capitalise previous s (map to_lower s)))
unfolding HasText non_space capitalise
non_space-HasText previous [] h = absurd h
non_space-HasText previous (c ∷ cs) (inl e) =
    ground (arith, is_space-to_lower c, is_space-to_upper c)
non_space-HasText previous (c ∷ cs) (inr h) = ground (arith, non_space-HasText c cs h)

-- For a string with a character that is no space, of less than 2 ^ 63 characters, Trim_and_Camel
-- returns what one pass over it gives: spaces are dropped, a letter behind a space is raised, the
-- character behind punctuation and all others are lowered.
pub trim_and_camel-eq-camel :
    (s : List ℕ) → HasText s → length s < 2 ^ 63 → trim_and_camel s ≡ ok (camel false 0 s)
unfolding trim_and_camel
trim_and_camel-eq-camel s h k =
    let r = capitalise 0 s (map to_lower s) in
    let t = non_space r in
    let n = length s + 1 - length t in
    let small : length t < 2 ^ 63 = omega (arith, length-non_space r, length-capitalise 0 s) in
    let nonempty : (length s == 0) ≡ false =
      ground (arith, length-non_space r, length-capitalise 0 s, non_space-HasText 0 s h) in
    let trims : trim_from 0 0 (capitalise_words s (map to_lower s)) ≡ t =
      ap (trim_from 0 0) (capitalise_words-eq s)
      ∙ trim_from-eq-non_space 0 0 r (omega (arith, length-capitalise 0 s)) in
    let runs = lower_all t n (non_space-HasText 0 s h) (omega arith) in
    let back : take (length t) (low false t ++ replicate n 0) ≡ low false t =
      ap (λ m. take m (low false t ++ replicate n 0)) (sym (length-low false t))
      ∙ take_append (low false t) (replicate n 0) in
    rw (nonempty, trims, runs, back, fused false 0 s)

unfoldable pub IsBlank : List ℕ → Type 0
IsBlank [] = Unit
IsBlank (c ∷ cs) = (is_space c ≡ true) × IsBlank cs

non_space-IsBlank :
    (previous : ℕ) (s : List ℕ)
    → IsBlank s
    → non_space (capitalise previous s (map to_lower s)) ≡ []
unfolding IsBlank non_space capitalise
non_space-IsBlank previous [] h = refl
non_space-IsBlank previous (c ∷ cs) h =
    ground (arith, is_space-to_lower c, is_space-to_upper c, non_space-IsBlank c cs h.1)

-- For a string of spaces only, at least one and less than 2 ^ 63 of them, the bound of the last loop
-- wraps and it reads past its buffer.
trim_and_camel-blank :
    (s : List ℕ) → IsBlank s → 0 < length s → length s < 2 ^ 63 → trim_and_camel s ≡ fault
unfolding trim_and_camel
trim_and_camel-blank s h p k =
    let r = capitalise 0 s (map to_lower s) in
    let nonempty : (length s == 0) ≡ false = ground arith in
    let trims : trim_from 0 0 (capitalise_words s (map to_lower s)) ≡ [] =
      ap (trim_from 0 0) (capitalise_words-eq s)
      ∙ trim_from-eq-non_space 0 0 r (omega (arith, length-capitalise 0 s))
      ∙ non_space-IsBlank 0 s h in
    rw (nonempty, trims, lower_from_blank 0 (2 ^ 64 - 1) (length s + 1 - 0) (omega arith))
