-- ===== src/Sstring/Substitute.antt =====
-- sstring.c: sstring_substitute replaces the first occurrence, or faults.
use machine_project.Prelude.{
  ℕ, zero, suc, ◌+◌, ◌≤◌, ◌<◌, ◌≡◌, refl, ap, sym, ◌∙◌, ltb, le→ltb, Bool, true, false, List, [],
  ◌∷◌, ◌++◌, length, take, drop, drop-drop, take-append-drop, ◌||◌, ◌⊎◌, none, some, ok, fault,
  arith,
}
use machine_project.Sstring.{starts_with, strstr, replace_at, sstring_substitute}

-- `i` is the index of the first place where the target stands.
pub record IsFirst (s target : List ℕ) (i : ℕ) : Type 0 where
  pub found : starts_with target (drop i s) ≡ true
  pub earliest : (j : ℕ) → j < i → starts_with target (drop j s) ≡ false

strstr-IsFirst : (s target : List ℕ) (i : ℕ) → IsFirst s target i → strstr s target ≡ some i
unfolding strstr
strstr-IsFirst [] target zero h = rw h.found
strstr-IsFirst [] target (suc i) h = cc (h.found, h.earliest 0 (omega arith))
strstr-IsFirst (c ∷ cs) target zero h = rw h.found
strstr-IsFirst (c ∷ cs) target (suc i) h =
    let later =
      strstr-IsFirst cs target i
        (record { found = h.found; earliest = λ j k. h.earliest (suc j) (omega arith) }) in
    rw (h.earliest 0 (omega arith), later)

strstr_absent :
    (s target : List ℕ) → ((j : ℕ) → starts_with target (drop j s) ≡ false) → strstr s target ≡ none
unfolding strstr
strstr_absent [] target h = rw (h 0)
strstr_absent (c ∷ cs) target h = rw (h 0, strstr_absent cs target (λ j. h (suc j)))

starts_with-split :
    (target s : List ℕ) → starts_with target s ≡ true → s ≡ target ++ drop (length target) s
unfolding starts_with
starts_with-split [] s h = refl
starts_with-split (t ∷ ts) [] h = cc
starts_with-split (t ∷ ts) (c ∷ cs) h = ground (arith, starts_with-split ts cs)

-- Where the target stands at an offset that is in the text, and the block stays in place and does not
-- shrink, sstring_substitute returns 0 and replaces the first occurrence from the offset on, and
-- nothing else.
pub sstring_substitute_first :
    (this : List ℕ) (offset : ℕ) (target substitution : List ℕ) (i : ℕ)
    → offset ≤ length this
    → IsFirst (drop offset this) target i
    → length target ≤ length substitution
    → let before = take (offset + i) this in
      let after = drop (offset + i + length target) this in
      (this ≡ before ++ (target ++ after))
      × (sstring_substitute false this offset target substitution
          ≡ ok (some (before ++ (substitution ++ after))))
unfolding sstring_substitute replace_at
sstring_substitute_first this offset target substitution i h first fits =
    let tail : drop (offset + i) this ≡ target ++ drop (offset + i + length target) this =
      rw (← drop-drop (offset + i) (length target) this, ← drop-drop offset i this)
        (starts_with-split target (drop i (drop offset this)) first.found) in
    (
      sym (take-append-drop (offset + i) this) ∙ ap (λ s. take (offset + i) this ++ s) tail,
      rw (
        le→ltb (length this) offset h,
        strstr-IsFirst (drop offset this) target i first,
        le→ltb (length substitution) (length target) fits,
      ),
    )

-- Where the target stands at an offset that is in the text, and `realloc` moves the block or the
-- substitution is shorter than the target, sstring_substitute copies through freed memory.
sstring_substitute_faults :
    (moved : Bool) (this : List ℕ) (offset : ℕ) (target substitution : List ℕ) (i : ℕ)
    → offset ≤ length this
    → IsFirst (drop offset this) target i
    → (moved ≡ true) ⊎ (length substitution < length target)
    → sstring_substitute moved this offset target substitution ≡ fault
unfolding sstring_substitute replace_at
sstring_substitute_faults moved this offset target substitution i h first bad =
    let found = strstr-IsFirst (drop offset this) target i first in
    let stops : (moved || ltb (length substitution) (length target)) ≡ true = ground arith in
    rw (le→ltb (length this) offset h, found, stops)

-- Where the target stands at no place from the offset on, -1 is returned, wherever the block is.
sstring_substitute_absent :
    (moved : Bool) (this : List ℕ) (offset : ℕ) (target substitution : List ℕ)
    → offset ≤ length this
    → ((j : ℕ) → starts_with target (drop j (drop offset this)) ≡ false)
    → sstring_substitute moved this offset target substitution ≡ ok none
unfolding sstring_substitute
sstring_substitute_absent moved this offset target substitution h k =
    rw (le→ltb (length this) offset h, strstr_absent (drop offset this) target k)
