-- ===== src/Lookup/Trees.antt =====
-- lookup2.c: a file that holds an ordered tree, and what binary_search finds in it.
use machine_project.Prelude.{
  ℕ, zero, suc, ◌+◌, ◌<◌, ◌≡◌, refl, sym, ap, ◌∙◌, ◌==◌, false, List, [], ◌∷◌, Option, none, some,
  ◌⊎◌, inl, inr, Outcome, ok, arith,
}
use mathlib.Core.Path.{subst}
use machine_project.Lookup.{TreeNode, Comparison, less, equal, greater, strcmp, binary_search}

pub data Tree : Type 0 where
  empty : Tree
  branch : TreeNode → Tree → Tree → Tree

abbrev pub node_count : Tree → ℕ
node_count empty = 0
node_count (branch node left right) = suc (node_count left + node_count right)

-- The file holds the tree at the offset; 0 is the offset of no node.
unfoldable pub IsStored : (ℕ → Option TreeNode) → ℕ → Tree → Type 0
IsStored addr offset empty = offset ≡ 0
IsStored addr offset (branch node left right) =
    (0 < offset)
    × (addr offset ≡ some node)
    × IsStored addr node.left_child left
    × IsStored addr node.right_child right

unfoldable pub Occurs : TreeNode → Tree → Type 0
Occurs m empty = ⊥
Occurs m (branch node left right) = (m ≡ node) ⊎ Occurs m left ⊎ Occurs m right

-- Each word in the tree compares with the word of a node above it as its side says.
unfoldable pub IsAll : (TreeNode → Type 0) → Tree → Type 0
IsAll P empty = Unit
IsAll P (branch node left right) = P node × IsAll P left × IsAll P right

unfoldable pub IsOrdered : Tree → Type 0
IsOrdered empty = Unit
IsOrdered (branch node left right) =
    IsAll (λ m. strcmp m.word node.word ≡ less) left
    × IsAll (λ m. strcmp m.word node.word ≡ greater) right
    × IsOrdered left
    × IsOrdered right

IsAll-Occurs : (P : TreeNode → Type 0) (m : TreeNode) (t : Tree) → IsAll P t → Occurs m t → P m
unfolding IsAll Occurs
IsAll-Occurs P m empty h o = absurd o
IsAll-Occurs P m (branch node left right) (h, hl, hr) (inl e) = subst P (sym e) h
IsAll-Occurs P m (branch node left right) (h, hl, hr) (inr (inl o)) = IsAll-Occurs P m left hl o
IsAll-Occurs P m (branch node left right) (h, hl, hr) (inr (inr o)) = IsAll-Occurs P m right hr o

strcmp-same : (word : List ℕ) → strcmp word word ≡ equal
unfolding strcmp
strcmp-same [] = refl
strcmp-same (c ∷ cs) = rw (strcmp-same cs) (ground arith)

strcmp-equal : (cs ds : List ℕ) → strcmp cs ds ≡ equal → cs ≡ ds
unfolding strcmp
strcmp-equal [] [] h = refl
strcmp-equal [] (d ∷ ds) h = absurd (ground arith)
strcmp-equal (c ∷ cs) [] h = absurd (ground arith)
strcmp-equal (c ∷ cs) (d ∷ ds) h =
    let same : c ≡ d = ground arith in
    let rest : strcmp cs ds ≡ equal = ground arith in rw (same, strcmp-equal cs ds rest) refl

-- The node with the word, which is in the tree, or none where the tree has no such node.
unfoldable pub IsAnswer : List ℕ → Tree → Outcome (Option TreeNode) → Type 0
IsAnswer word t run =
    ((m : TreeNode) × (run ≡ ok (some m)) × Occurs m t × (m.word ≡ word))
    ⊎ (run ≡ ok none) × ((m : TreeNode) → Occurs m t → ¬ (m.word ≡ word))

differ-word :
    (word : List ℕ) (node m : TreeNode) (c d : Comparison)
    → strcmp word node.word ≡ c
    → strcmp m.word node.word ≡ d
    → ¬ (c ≡ d)
    → ¬ (m.word ≡ word)
differ-word word node m c d h h' apart e = apart (sym h ∙ ap (λ w. strcmp w node.word) (sym e) ∙ h')

pub Comparison-cases : (c : Comparison) → (c ≡ equal) ⊎ (c ≡ less) ⊎ (c ≡ greater)
Comparison-cases equal = inl refl
Comparison-cases less = inr (inl refl)
Comparison-cases greater = inr (inr refl)

module _ (addr : ℕ → Option TreeNode) (word : List ℕ) (node : TreeNode) (left right : Tree)
    (lows : IsAll (λ m. strcmp m.word node.word ≡ less) left)
    (highs : IsAll (λ m. strcmp m.word node.word ≡ greater) right) where
  IsAnswer-left :
      (run : Outcome (Option TreeNode))
      → strcmp word node.word ≡ less
      → IsAnswer word left run
      → IsAnswer word (branch node left right) run
  unfolding IsAnswer Occurs
  IsAnswer-left run h (inl (m, e, o, same)) = inl (m, e, inr (inl o), same)
  IsAnswer-left run h (inr (e, missing)) = inr (
    e,
    λ m o. elim o [
      | inl root ↦
          differ-word word node m less equal h
            (ap (λ n. strcmp n.word node.word) root ∙ strcmp-same node.word) (λ apart. ground arith)
      | inr (inl o') ↦ missing m o'
      | inr (inr o') ↦
          differ-word word node m less greater h (IsAll-Occurs _ m right highs o')
            (λ apart. ground arith)
    ],
  )

  IsAnswer-right :
      (run : Outcome (Option TreeNode))
      → strcmp word node.word ≡ greater
      → IsAnswer word right run
      → IsAnswer word (branch node left right) run
  unfolding IsAnswer Occurs
  IsAnswer-right run h (inl (m, e, o, same)) = inl (m, e, inr (inr o), same)
  IsAnswer-right run h (inr (e, missing)) = inr (
    e,
    λ m o. elim o [
      | inl root ↦
          differ-word word node m greater equal h
            (ap (λ n. strcmp n.word node.word) root ∙ strcmp-same node.word) (λ apart. ground arith)
      | inr (inl o') ↦
          differ-word word node m greater less h (IsAll-Occurs _ m left lows o')
            (λ apart. ground arith)
      | inr (inr o') ↦ missing m o'
    ],
  )

-- In a file that holds an ordered tree at an offset, with more calls than the tree has nodes,
-- binary_search returns a node of the tree with the word, or NULL where no node of the tree
-- has the word.
pub binary_search_answers :
    (addr : ℕ → Option TreeNode) (word : List ℕ) (calls offset : ℕ) (t : Tree)
    → IsStored addr offset t
    → IsOrdered t
    → node_count t < calls
    → IsAnswer word t (binary_search addr calls word offset)
unfolding IsStored IsOrdered IsAnswer Occurs binary_search
binary_search_answers addr word zero offset t stored ordered enough = absurd (omega arith)
binary_search_answers addr word (suc calls) offset empty stored ordered enough =
    rw stored (inr (refl, λ m o. absurd o))
binary_search_answers addr word (suc calls) offset (branch node left right) (above, at, sl, sr)
      (lows, highs, ol, or) enough =
    let there : (offset == 0) ≡ false = ground arith in
    elim (Comparison-cases (strcmp word node.word)) [
      | inl h ↦ rw (there, at, h) (inl (node, refl, inl refl, sym (strcmp-equal word node.word h)))
      | inr (inl h) ↦
          let rest =
            binary_search_answers addr word calls node.left_child left sl ol (omega arith) in
          rw (there, at, h) (IsAnswer-left addr word node left right lows highs _ h rest)
      | inr (inr h) ↦
          let rest =
            binary_search_answers addr word calls node.right_child right sr or (omega arith) in
          rw (there, at, h) (IsAnswer-right addr word node left right lows highs _ h rest)
    ]
