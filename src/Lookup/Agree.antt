-- ===== src/Lookup/Agree.antt =====
-- lookup1.c and lookup2.c: what the one prints follows from what the other returns.
use machine_project.Prelude.{
  ℕ, zero, suc, ◌<◌, ◌≤◌, ltb, length, ◌≡◌, refl, ◌==◌, false, if◌then◌else◌, Bool-cases, List, [],
  ◌∷◌, Option, none, some, inl, inr, Outcome, ok, arith,
}
use machine_project.Lookup.{TreeNode, strcmp, binary_search, Line, found, not_found, search_file}
use machine_project.Lookup.Trees.{Tree, empty, branch, node_count, IsStored, Comparison-cases}

-- A node without a left child is reported twice, as found and as not found.
unfoldable pub lines_of : Option TreeNode → List Line
lines_of none = not_found ∷ []
lines_of (some m) =
    if m.left_child == 0 then found m.count m.price ∷ not_found ∷ [] else found m.count m.price ∷ []

-- Both searches end, the one in what it returns and the other in the lines for it.
unfoldable pub IsReported : Outcome (Option TreeNode) → Outcome (List Line) → Type 0
IsReported run lines = (r : Option TreeNode) × (run ≡ ok r) × (lines ≡ ok (lines_of r))

binary_search-zero :
    (file : ℕ → Option TreeNode) (calls : ℕ) (word : List ℕ)
    → binary_search file calls word 0 ≡ ok none
unfolding binary_search
binary_search-zero file zero word = refl
binary_search-zero file (suc calls) word = refl

found-IsReported :
    (node : TreeNode)
    → IsReported (ok (some node)) (
        if node.left_child == 0
        then ok (found node.count node.price ∷ not_found ∷ [])
        else ok (found node.count node.price ∷ []))
unfolding IsReported lines_of
found-IsReported node = elim (Bool-cases (node.left_child == 0)) [
  | inl e ↦ (some node, refl, rw e refl)
  | inr e ↦ (some node, refl, rw e refl)
]

-- Where no node is, binary_search stops and the loop of lookup1 is not entered again.
child-IsReported :
    (file : ℕ → Option TreeNode) (rounds : ℕ) (word : List ℕ) (child : ℕ)
    → (0 < child
        → IsReported (binary_search file rounds word child) (search_file file rounds word child))
    → IsReported
        (binary_search file rounds word child)
        (if child == 0 then ok (not_found ∷ []) else search_file file rounds word child)
unfolding IsReported lines_of
child-IsReported file rounds word child more = elim (Bool-cases (child == 0)) [
  | inl e ↦
      let none_there : child ≡ 0 = ground arith in
      rw none_there (none, binary_search-zero file rounds word, refl)
  | inr e ↦ rw e (more (ground arith))
]

-- The words of the nodes have at most 126 characters.
unfoldable pub HasShort : Tree → Type 0
HasShort empty = Unit
HasShort (branch node left right) = (length node.word ≤ 126) × HasShort left × HasShort right

-- In a file that holds a tree of words of at most 126 characters at an offset that is not 0, with more rounds than the tree has nodes,
-- both searches end; lookup1 prints the node that lookup2 returns, and that the word is not found if
-- lookup2 returns NULL, but also if the node that it returns has no left child.
pub search_file-binary_search :
    (file : ℕ → Option TreeNode) (word : List ℕ) (rounds offset : ℕ) (t : Tree)
    → IsStored file offset t
    → HasShort t
    → 0 < offset
    → node_count t < rounds
    → IsReported (binary_search file rounds word offset) (search_file file rounds word offset)
unfolding IsStored binary_search search_file HasShort
search_file-binary_search file word zero offset t stored short some_node enough =
    absurd (omega arith)
search_file-binary_search file word (suc rounds) offset empty stored short some_node enough =
    absurd (omega arith)
search_file-binary_search file word (suc rounds) offset (branch node left right) (_, at, sl, sr)
      (fits, short_left, short_right) some_node enough =
    let held : ltb 126 (length node.word) ≡ false = ground arith in
    let there : (offset == 0) ≡ false = ground arith in
    elim (Comparison-cases (strcmp word node.word)) [
      | inl h ↦ rw (there, search_file, at, held, h) (found-IsReported node)
      | inr (inl h) ↦
          rw (there, search_file, at, held, h)
            (child-IsReported file rounds word node.left_child (λ low.
              search_file-binary_search file word rounds node.left_child left sl short_left low
                (omega arith)))
      | inr (inr h) ↦
          rw (there, search_file, at, held, h)
            (child-IsReported file rounds word node.right_child (λ low.
              search_file-binary_search file word rounds node.right_child right sr short_right low
                (omega arith)))
    ]
