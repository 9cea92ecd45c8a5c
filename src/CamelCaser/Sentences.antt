-- ===== src/CamelCaser/Sentences.antt =====
-- camelCaser.c: the strings that camel_caser returns.
use machine_project.Prelude.{
  ℕ, ◌+◌, ◌-◌, ◌^◌, ◌==◌, ◌≤◌, ◌<◌, ◌≡◌, refl, ap, sym, ◌∙◌, Bool, true, false, lt→ltb,
  if◌then◌else◌, List, [], ◌∷◌, ◌++◌, append_assoc, append-nil, some, ok, arith, length, take,
  take_all, Bool-cases, inl, inr, length-append,
}
use machine_project.Prelude.Ctype.{is_alpha, is_lower, is_space, is_punct, to_lower, to_upper}
use machine_project.Prelude.CtypeLaws.{
  is_space-to_lower, is_space-to_upper, is_punct-to_lower, is_punct-to_upper, space_not_punct,
}
use machine_project.CamelCaser.{
  count_punct_from, count_punct, split_from, trim_and_camel, camel_caser,
}
use machine_project.CamelCaser.Passes.{kept, camel, HasText, trim_and_camel-eq-camel}

-- The pieces of a text that end in punctuation, without it; what follows the last one is dropped.
unfoldable pub sentences : List ℕ → List ℕ → List (List ℕ)
sentences segment [] = []
sentences segment (c ∷ cs) =
    let next = sentences [] cs in
    let on = sentences (segment ++ c ∷ []) cs in if is_punct c then segment ∷ next else on

puncts : List ℕ → ℕ
puncts [] = 0
puncts (c ∷ cs) = (if is_punct c then 1 else 0) + puncts cs

puncts-length : (s : List ℕ) → puncts s ≤ length s
unfolding puncts
puncts-length [] = omega arith
puncts-length (c ∷ cs) = ground (arith, puncts-length cs)

count_punct_from-eq :
    (n : ℕ) (s : List ℕ) → n + puncts s < 2 ^ 31 → count_punct_from n s ≡ ok (n + puncts s)
unfolding count_punct_from puncts
count_punct_from-eq n [] h = ap ok (omega arith)
count_punct_from-eq n (c ∷ cs) h = elim (Bool-cases (is_punct c)) [
  | inl e ↦
      let few : n + (1 + puncts cs) < 2 ^ 31 = rw e at h in
      rw (e, lt→ltb n (2 ^ 31 - 1) (omega arith), count_punct_from-eq (n + 1) cs (omega arith))
        (ap ok (omega arith))
  | inr e ↦
      let few : n + (0 + puncts cs) < 2 ^ 31 = rw e at h in
      rw (e, count_punct_from-eq n cs (omega arith)) (ap ok (omega arith))
]

count_punct-eq : (s : List ℕ) → puncts s < 2 ^ 31 → count_punct (some s) ≡ ok (puncts s)
unfolding count_punct puncts
count_punct-eq [] h = refl
count_punct-eq (c ∷ cs) h =
    let some_there : (length (c ∷ cs) == 0) ≡ false = ground arith in
    let zero_more : 0 + puncts (c ∷ cs) ≡ puncts (c ∷ cs) = omega arith in
    rw some_there (count_punct_from-eq 0 (c ∷ cs) (omega arith) ∙ ap ok zero_more)

length-sentences : (segment s : List ℕ) → length (sentences segment s) ≡ puncts s
unfolding sentences puncts
length-sentences segment [] = refl
length-sentences segment (c ∷ cs) =
    ground (arith, length-sentences [] cs, length-sentences (segment ++ c ∷ []) cs)

puncts-camel :
    (lower : Bool) (previous : ℕ) (s : List ℕ) → puncts (camel lower previous s) ≡ puncts s
unfolding puncts camel
puncts-camel lower previous [] = refl
puncts-camel lower previous (c ∷ cs) = ground (
  arith,
  is_punct-to_lower c,
  is_punct-to_upper c,
  space_not_punct c,
  puncts-camel lower c cs,
  puncts-camel (is_punct c) c cs,
)

-- With a slot for each punctuation mark no store misses the array.
split_from-sentences :
    (slots : ℕ) (segment : List ℕ) (returnit : List (List ℕ)) (s : List ℕ)
    → length returnit + puncts s ≤ slots
    → split_from slots segment returnit s ≡ ok (returnit ++ sentences segment s)
unfolding split_from sentences puncts
split_from-sentences slots segment returnit [] h = rw append-nil
split_from-sentences slots segment returnit (c ∷ cs) h = elim (Bool-cases (is_punct c)) [
  | inl e ↦
      let room : length returnit + (1 + puncts cs) ≤ slots = rw e at h in
      rw (
        e,
        lt→ltb (length returnit) slots (omega arith),
        split_from-sentences slots [] (returnit ++ segment ∷ []) cs
            (omega (arith, length-append returnit (segment ∷ []))),
        append_assoc,
      )
  | inr e ↦
      let room : length returnit + (0 + puncts cs) ≤ slots = rw e at h in
      rw (e, split_from-sentences slots (segment ++ c ∷ []) returnit cs (omega arith))
]

-- For a string of less than 2 ^ 31 - 1 characters with one that is no space, camel_caser returns the
-- pieces of the camel-cased text that end in punctuation, as many as the input has punctuation marks,
-- and no store misses its array.
pub camel_caser-sentences :
    (s : List ℕ)
    → HasText s
    → length s < 2 ^ 31 - 1
    → (camel_caser (some s) ≡ ok (some (sentences [] (camel false 0 s))))
      × (count_punct (some s) ≡ ok (length (sentences [] (camel false 0 s))))
unfolding camel_caser
camel_caser-sentences s h k =
    let out = camel false 0 s in
    let few = puncts-length s in
    let same : puncts out ≡ puncts s = puncts-camel false 0 s in
    let slots = puncts s + 1 in
    let all : take (puncts s) (sentences [] out) ≡ sentences [] out =
      take_all (puncts s) (sentences [] out) (omega (arith, length-sentences [] out)) in
    (
      rw (
        trim_and_camel-eq-camel s h (omega arith),
        count_punct-eq s (omega arith),
        lt→ltb (puncts s) (2 ^ 31 - 1) (omega arith),
        split_from-sentences slots [] [] out (omega arith),
        count_punct-eq out (omega arith),
        same,
        lt→ltb (puncts s) slots (omega arith),
        all,
      ),
      count_punct-eq s (omega arith) ∙ ap ok (sym (length-sentences [] out ∙ same)),
    )

-- Neither space nor punctuation.
unfoldable pub IsWord : List ℕ → Type 0
IsWord [] = Unit
IsWord (c ∷ cs) = (is_space c ≡ false) × (is_punct c ≡ false) × IsWord cs

unfoldable pub AllWords : List (List ℕ) → Type 0
AllWords [] = Unit
AllWords (w ∷ ws) = IsWord w × AllWords ws

IsWord-append : (w v : List ℕ) → IsWord w → IsWord v → IsWord (w ++ v)
unfolding IsWord
IsWord-append [] v h k = k
IsWord-append (c ∷ w) v h k = (h.0, h.1, IsWord-append w v h.2 k)

kept_space : (lower : Bool) (previous c : ℕ) → is_space (kept lower previous c) ≡ is_space c
kept_space lower previous c = ground (arith, is_space-to_lower c, is_space-to_upper c)

kept_punct : (lower : Bool) (previous c : ℕ) → is_punct (kept lower previous c) ≡ is_punct c
kept_punct lower previous c = ground (arith, is_punct-to_lower c, is_punct-to_upper c)

AllWords-sentences :
    (segment : List ℕ) (lower : Bool) (previous : ℕ) (s : List ℕ)
    → IsWord segment
    → AllWords (sentences segment (camel lower previous s))
unfolding AllWords sentences camel IsWord
AllWords-sentences segment lower previous [] h = tt
AllWords-sentences segment lower previous (c ∷ cs) h = elim (Bool-cases (is_space c)) [
  | inl e ↦ rw e (AllWords-sentences segment lower c cs h)
  | inr e ↦ elim (Bool-cases (is_punct c)) [
    | inl p ↦ rw (e, kept_punct lower previous c, p) (h, AllWords-sentences [] true c cs tt)
    | inr p ↦
        rw (e, kept_punct lower previous c, p)
          (AllWords-sentences (segment ++ kept lower previous c ∷ []) false c cs (
            IsWord-append segment (kept lower previous c ∷ []) h
              (kept_space lower previous c ∙ e, kept_punct lower previous c ∙ p, tt)))
  ]
]

-- For a string of less than 2 ^ 31 - 1 characters with one that is no space, camel_caser returns, and no
-- string that it returns has a space or a punctuation mark in it.
camel_caser-AllWords :
    (s : List ℕ)
    → HasText s
    → length s < 2 ^ 31 - 1
    → (out : List (List ℕ)) × (camel_caser (some s) ≡ ok (some out)) × AllWords out
camel_caser-AllWords s h k = (
  sentences [] (camel false 0 s),
  (camel_caser-sentences s h k).0,
  AllWords-sentences [] false 0 s (unfold IsWord in tt),
)

-- A string that begins with a small letter keeps it small; behind one space the same letter comes
-- first as a capital, and the rest of both results is the same.
leading_space :
    (c : ℕ) (cs : List ℕ)
    → is_lower c ≡ true
    → length cs < 2 ^ 62
    → (rest : List ℕ) × (trim_and_camel (c ∷ cs) ≡ ok (c ∷ rest))
      × (trim_and_camel (32 ∷ c ∷ cs) ≡ ok ((c - 32) ∷ rest))
leading_space c cs h k =
    let solid : is_space c ≡ false = unfold is_lower is_space in ground arith in
    let here : HasText (c ∷ cs) = unfold HasText in inl solid in
    let there : HasText (32 ∷ c ∷ cs) = unfold HasText in inr (inl solid) in
    let small : camel false 0 (c ∷ cs) ≡ c ∷ camel (is_punct c) c cs =
      unfold camel is_space is_lower to_lower in ground arith in
    let capital : camel false 0 (32 ∷ c ∷ cs) ≡ (c - 32) ∷ camel (is_punct c) c cs =
      unfold camel is_space is_alpha to_upper in ground arith in
    (
      camel (is_punct c) c cs,
      trim_and_camel-eq-camel (c ∷ cs) here (omega arith) ∙ ap ok small,
      trim_and_camel-eq-camel (32 ∷ c ∷ cs) there (omega arith) ∙ ap ok capital,
    )
