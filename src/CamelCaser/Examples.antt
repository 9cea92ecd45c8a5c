-- ===== src/CamelCaser/Examples.antt =====
-- Runs of camelCaser.c.
use Prim.Native.Char.{code}
use Prim.Native.String.{String}
use machine_project.Prelude.{ℕ, ◌≡◌, refl, List, [], ◌∷◌, some, ok, length, false, inl, arith}
use machine_project.Prelude.Ctype.{is_alpha, is_space, is_punct, to_lower, to_upper}
use machine_project.CamelCaser.{camel_caser, trim_and_camel, count_punct, count_sentence}
use machine_project.CamelCaser.Passes.{camel, HasText, trim_and_camel-eq-camel}
use machine_project.CamelCaser.Sentences.{sentences, camel_caser-sentences}

abbrev codes : String → List ℕ
codes String.[] = []
codes (String.◌∷◌ c s) = code c ∷ codes s

abbrev input : List ℕ
input = codes "The Heisenbug. is INCREDIBLE,9 lives! tail"

input_runs :
    camel_caser (some input)
    ≡ ok (some (codes "theHeisenbug" ∷ codes "isIncredible" ∷ codes "9Lives" ∷ []))
unfolding camel_caser is_alpha is_space is_punct to_lower to_upper
input_runs = refl

count_sentence_runs : count_sentence (some input) ≡ ok 3
unfolding count_sentence is_alpha is_punct
count_sentence_runs = refl

input-HasText : HasText input
unfolding HasText is_space
input-HasText = inl refl

trim_and_camel-eq-camel_example : trim_and_camel input ≡ ok (camel false 0 input)
trim_and_camel-eq-camel_example = trim_and_camel-eq-camel input input-HasText (omega arith)

camel_caser-sentences_example :
    (camel_caser (some input) ≡ ok (some (sentences [] (camel false 0 input))))
    × (count_punct (some input) ≡ ok (length (sentences [] (camel false 0 input))))
camel_caser-sentences_example = camel_caser-sentences input input-HasText (omega arith)
