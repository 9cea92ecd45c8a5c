-- ===== src/CamelCaser.antt =====
-- extreme_edge_cases/camelCaser.c: sentences to camel case. A string is the list of its character
-- codes before the final NUL; NULL is `none`. Allocation succeeds.
pub mod Passes
pub mod Sentences
mod Examples
use machine_project.Prelude.{
  ℕ, ◌+◌, ◌-◌, ◌%◌, ◌^◌, ltb, ◌==◌, if◌then◌else◌, ◌&&◌, ◌||◌, not, Bool, true, false, List, [],
  ◌∷◌, ◌++◌, map, length, take, replicate, Option, none, some, Outcome, ok, fault, ◌>>=◌,
}
use machine_project.Prelude.Ctype.{is_alpha, is_space, is_punct, to_lower, to_upper}

-- `count++` on an int, which overflows behind 2 ^ 31 - 1.
abbrev pub count_up : Bool → ℕ → Outcome ℕ
count_up counts count =
    if counts then (if ltb count (2 ^ 31 - 1) then ok (count + 1) else fault) else ok count

-- The loop of `count_sentence`, with `flag` and `count`.
unfoldable pub count_sentence_from : Bool → ℕ → List ℕ → Outcome ℕ
count_sentence_from flag count [] = ok count
count_sentence_from flag count (c ∷ cs) =
    let flag' = flag || is_alpha c in
    let ends = is_punct c && flag' in
    count_up ends count >>= λ n. count_sentence_from (if ends then false else flag') n cs

unfoldable pub count_sentence : Option (List ℕ) → Outcome ℕ
unfolding count_sentence_from
count_sentence none = ok 0
count_sentence (some s) = if length s == 0 then ok 0 else count_sentence_from false 0 s

unfoldable pub count_punct_from : ℕ → List ℕ → Outcome ℕ
count_punct_from count [] = ok count
count_punct_from count (c ∷ cs) = count_up (is_punct c) count >>= λ n. count_punct_from n cs

unfoldable pub count_punct : Option (List ℕ) → Outcome ℕ
unfolding count_punct_from
count_punct none = ok 0
count_punct (some s) = if length s == 0 then ok 0 else count_punct_from 0 s

-- The second loop of `Trim_and_Camel`, from an index that is not 0: `previous` is input[i - 1], the
-- lists are input and returnit from i on.
unfoldable pub capitalise : ℕ → List ℕ → List ℕ → List ℕ
capitalise previous (c ∷ cs) (r ∷ rs) =
    (if is_alpha c && is_space previous then to_upper c else r) ∷ capitalise c cs rs
capitalise previous _ rs = rs

-- The index 0 is left alone.
unfoldable pub capitalise_words : List ℕ → List ℕ → List ℕ
unfolding capitalise
capitalise_words (c ∷ cs) (r ∷ rs) = r ∷ capitalise c cs rs
capitalise_words _ rs = rs

-- The third loop, from index `k`, with returnit[k - 1]. `k > -1` compares with the largest `size_t`.
unfoldable pub trim_from : ℕ → ℕ → List ℕ → List ℕ
trim_from k previous [] = []
trim_from k previous (c ∷ cs) =
    let rest = trim_from (k + 1) c cs in
    if not (is_space c) || (ltb (2 ^ 64 - 1) k && not (is_space previous)) then c ∷ rest else rest

-- The last loop, over the buffer from index `i` on, up to `bound`; `lower` says that the round before
-- met punctuation and writes this cell in lower case. A read past the buffer is a fault.
unfoldable pub lower_from : Bool → ℕ → ℕ → List ℕ → Outcome (List ℕ)
lower_from lower i bound [] = if ltb i bound then fault else ok []
lower_from lower i bound (c ∷ cs) =
    let d = if lower then to_lower c else c in
    lower_from (ltb i bound && is_punct d) (i + 1) bound cs >>= λ rest. ok (d ∷ rest)

-- `new_returnit` is the trimmed string, with zeros to the length of the input and one more. The bound
-- `strlen(new_returnit) - 1` wraps.
unfoldable pub trim_and_camel : List ℕ → Outcome (List ℕ)
unfolding capitalise_words trim_from lower_from
trim_and_camel input = if length input == 0 then ok input else do
  let returnit = capitalise_words input (map to_lower input)
  let trimmed = trim_from 0 0 returnit
  let padding = replicate (length input + 1 - length trimmed) 0
  buffer ← lower_from false 0 ((length trimmed + 2 ^ 64 - 1) % 2 ^ 64) (trimmed ++ padding)
  ok (take (length trimmed) buffer)

-- The loop of `camel_caser` over what is left of output_str: `segment` is output_str[j .. i), and
-- `returnit` holds the first `k` strings, in `slots` slots.
unfoldable pub split_from : ℕ → List ℕ → List (List ℕ) → List ℕ → Outcome (List (List ℕ))
split_from slots segment returnit [] = ok returnit
split_from slots segment returnit (c ∷ cs) =
    let next = split_from slots [] (returnit ++ segment ∷ []) cs in
    let on = split_from slots (segment ++ c ∷ []) returnit cs in
    if is_punct c then (if ltb (length returnit) slots then next else fault) else on

-- The strings of the result, up to its NULL.
unfoldable pub camel_caser : Option (List ℕ) → Outcome (Option (List (List ℕ)))
unfolding trim_and_camel count_punct split_from
camel_caser none = ok none
camel_caser (some input_str) = do
  output_str ← trim_and_camel input_str
  marks ← count_punct (some input_str)
  slots ← count_up true marks
  returnit ← split_from slots [] [] output_str
  last ← count_punct (some output_str)
  if ltb last slots then ok (some (take last returnit)) else fault
