-- ===== src/Lookup/Examples.antt =====
-- A file of two words, and the theorems about it.
use machine_project.Prelude.{
  ℕ, ◌≡◌, refl, ◌==◌, if◌then◌else◌, [], ◌∷◌, Option, none, some, ok, arith,
}
use machine_project.Lookup.{TreeNode, strcmp, binary_search, found, not_found, search_file}
use machine_project.Lookup.Trees.{
  Tree, empty, branch, IsStored, IsAll, IsOrdered, IsAnswer, binary_search_answers,
}
use machine_project.Lookup.Agree.{IsReported, HasShort, search_file-binary_search}

abbrev top : TreeNode
top = record { word = 98 ∷ []; left_child = 30; right_child = 0; count = 2; price = 5 }

abbrev low : TreeNode
low = record { word = 97 ∷ []; left_child = 0; right_child = 0; count = 1; price = 7 }

abbrev two_words : ℕ → Option TreeNode
two_words offset = if offset == 4 then some top else if offset == 30 then some low else none

abbrev two_nodes : Tree
two_nodes = branch top (branch low empty empty) empty

two_nodes-IsStored : IsStored two_words 4 two_nodes
unfolding IsStored
two_nodes-IsStored = (omega arith, refl, (omega arith, refl, refl, refl), refl)

two_nodes-IsOrdered : IsOrdered two_nodes
unfolding IsOrdered IsAll strcmp
two_nodes-IsOrdered = ((refl, tt, tt), tt, (tt, tt, tt, tt), tt)

-- lookup1 finds the word and prints as well that it is not found.
found_twice : search_file two_words 3 (97 ∷ []) 4 ≡ ok (found 1 7 ∷ not_found ∷ [])
unfolding search_file strcmp
found_twice = refl

-- A word that is not in the file.
absent : binary_search two_words 3 (99 ∷ []) 4 ≡ ok none
unfolding binary_search strcmp
absent = refl

binary_search_answers_example : IsAnswer (97 ∷ []) two_nodes (binary_search two_words 3 (97 ∷ []) 4)
binary_search_answers_example =
    binary_search_answers two_words (97 ∷ []) 3 4 two_nodes two_nodes-IsStored two_nodes-IsOrdered
      (omega arith)

two_nodes-HasShort : HasShort two_nodes
unfolding HasShort
two_nodes-HasShort = (omega arith, (omega arith, tt, tt), tt)

search_file-binary_search_example :
    IsReported (binary_search two_words 3 (97 ∷ []) 4) (search_file two_words 3 (97 ∷ []) 4)
search_file-binary_search_example =
    search_file-binary_search two_words (97 ∷ []) 3 4 two_nodes two_nodes-IsStored
      two_nodes-HasShort (omega arith) (omega arith)
