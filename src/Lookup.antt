-- ===== src/Lookup.antt =====
-- mad_mad_access_patterns/lookup1.c and lookup2.c: the search for words in a file that holds a binary
-- tree, by fseek and fread in the one and by mmap in the other. What the file has at an offset is a
-- parameter, since the layout of a node is not in the repository: `none` where no node can be read.
pub mod Trees
pub mod Agree
mod Examples
use machine_project.Prelude.{
  ℕ, zero, suc, ltb, ◌==◌, Bool, if◌then◌else◌, List, [], ◌∷◌, ◌++◌, length, Option, none, some,
  Outcome, ok, fault, hang,
}

-- BinaryTreeNode
pub record TreeNode : Type 0 where
  pub word : List ℕ
  pub left_child : ℕ
  pub right_child : ℕ
  pub count : ℕ
  pub price : ℕ

-- The sign of the result of strcmp.
pub data Comparison : Type 0 where
  less equal greater : Comparison

unfoldable pub strcmp : List ℕ → List ℕ → Comparison
strcmp [] [] = equal
strcmp [] (d ∷ ds) = less
strcmp (c ∷ cs) [] = greater
strcmp (c ∷ cs) (d ∷ ds) =
    let rest = strcmp cs ds in if ltb c d then less else if ltb d c then greater else rest

-- lookup2. The calls of the recursion are bounded by the second argument.
unfoldable pub binary_search : (ℕ → Option TreeNode) → ℕ → List ℕ → ℕ → Outcome (Option TreeNode)
binary_search addr zero word offset = if offset == 0 then ok none else hang
binary_search addr (suc calls) word offset = if offset == 0 then ok none else elim (addr offset) [
  | none ↦ fault
  | some curr ↦ elim (strcmp word curr.word) [
    | equal ↦ ok (some curr)
    | less ↦ binary_search addr calls word curr.left_child
    | greater ↦ binary_search addr calls word curr.right_child
  ]
]

-- What lookup1 prints.
pub data Line : Type 0 where
  found : ℕ → ℕ → Line
  not_found : Line

-- lookup1: the loop from the moment that the node at `offset` is read, with its rounds bounded. Where no
-- node can be read, fgetc returns EOF for ever. The `char` that counts the characters of a word and its NUL holds
-- up to 127; behind that it is negative, and the memory for the word cannot be had.
unfoldable pub search_file : (ℕ → Option TreeNode) → ℕ → List ℕ → ℕ → Outcome (List Line)
search_file file zero word offset = hang
search_file file (suc rounds) word offset = elim (file offset) [
  | none ↦ hang
  | some curr ↦ if ltb 126 (length curr.word) then fault else elim (strcmp word curr.word) [
    | equal ↦
        if curr.left_child == 0
        then ok (found curr.count curr.price ∷ not_found ∷ [])
        else ok (found curr.count curr.price ∷ [])
    | greater ↦
        let next = search_file file rounds word curr.right_child in
        if curr.right_child == 0 then ok (not_found ∷ []) else next
    | less ↦
        let next = search_file file rounds word curr.left_child in
        if curr.left_child == 0 then ok (not_found ∷ []) else next
  ]
]
