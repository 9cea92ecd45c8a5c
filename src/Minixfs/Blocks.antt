-- ===== src/Minixfs/Blocks.antt =====
-- minixfs.c: the bytes that copies change, and the blocks of a file.
use native.Mathlib.Nat.{mul-le-mul_right}
use native.Mathlib.Decide.{dec_lt}
use machine_project.Prelude.{
  ℕ, zero, suc, ◌+◌, ◌*◌, ◌≤◌, ◌<◌, ◌≡◌, ◌≢◌, ◌⊎◌, refl, ap, ◌∙◌, leb, ◌==◌, true, false, List, [],
  ◌∷◌, length, get_elem?, some, ok, inl, inr, arith,
}
use machine_project.Minixfs.{
  Inode, FileSystem, Library, num_direct_blocks, copy_in, copy_out, help_datablock,
}

pub copy_in-outside :
    (bs : List ℕ) (i j : ℕ) (bytes : ℕ → ℕ)
    → (j < i) ⊎ (i + length bs ≤ j)
    → copy_in bs i bytes j ≡ bytes j
unfolding copy_in
copy_in-outside [] i j bytes h = refl
copy_in-outside (b ∷ bs) i j bytes (inl h) =
    let e : (j == i) ≡ false = ground arith in
    rw e (copy_in-outside bs (i + 1) j bytes (inl (omega arith)))
copy_in-outside (b ∷ bs) i j bytes (inr h) =
    let e : (j == i) ≡ false = ground arith in
    rw e (copy_in-outside bs (i + 1) j bytes (inr (omega arith)))

pub copy_out-same :
    (n i : ℕ) (bytes bytes' : ℕ → ℕ)
    → ((k : ℕ) → k < n → bytes (i + k) ≡ bytes' (i + k))
    → copy_out n i bytes ≡ copy_out n i bytes'
unfolding copy_out
copy_out-same zero i bytes bytes' h = refl
copy_out-same (suc n) i bytes bytes' h =
    let z : i + 0 ≡ i = omega arith in
    let first : bytes i ≡ bytes' i = rw z at (h 0 (omega arith)) in
    rw (first, copy_out-same n (i + 1) bytes bytes' (λ k lt. rest k lt))
  where
    rest : (k : ℕ) → k < n → bytes (i + 1 + k) ≡ bytes' (i + 1 + k)
    rest k lt = let e : i + suc k ≡ i + 1 + k = omega arith in rw e at (h (suc k) (omega arith))

pub copy_out-copy_in :
    (bs : List ℕ) (i : ℕ) (bytes : ℕ → ℕ) → copy_out (length bs) i (copy_in bs i bytes) ≡ bs
unfolding copy_out copy_in
copy_out-copy_in [] i bytes = refl
copy_out-copy_in (b ∷ bs) i bytes =
    let self : (i == i) ≡ true = ground arith in
    let later : copy_out (length bs) (i + 1) (copy_in (b ∷ bs) i bytes)
        ≡ copy_out (length bs) (i + 1) (copy_in bs (i + 1) bytes) =
      copy_out-same (length bs) (i + 1) (copy_in (b ∷ bs) i bytes) (copy_in bs (i + 1) bytes)
        (λ k lt. passed k) in
    rw self (ap (◌∷◌ b) (later ∙ copy_out-copy_in bs (i + 1) bytes))
  where
    passed : (k : ℕ) → copy_in (b ∷ bs) i bytes (i + 1 + k) ≡ copy_in bs (i + 1) bytes (i + 1 + k)
    passed k = let e : (i + 1 + k == i) ≡ false = ground arith in rw e

suc_le : (a b : ℕ) → a < b → suc a ≤ b
suc_le a b h = omega arith

-- Different blocks share no address.
pub blocks_apart :
    (size a b k : ℕ)
    → a ≢ b
    → k < size
    → (b * size + k < a * size) ⊎ (a * size + size ≤ b * size + k)
blocks_apart size a b k ne h = elim (dec_lt b a) [
  | yes p ↦ let below = mul-le-mul_right size (suc_le b a p) in inl (grind arith)
  | no p ↦
      let next : suc a ≤ b = elim (dec_lt a b) [
        | yes q ↦ suc_le a b q
        | no q ↦ absurd (ne (omega arith))
      ] in
      let above = mul-le-mul_right size next in inr (grind arith)
]

module _ (lib : Library) (curr : Inode) where
  -- The number of the block with the part `i` of a file, among the direct blocks.
  abbrev pub Direct : ℕ → ℕ → Type 0
  Direct i block = get_elem? curr.direct i ≡ some block

  -- No two parts of the file share a block.
  abbrev pub IsDistinct : Type 0
  IsDistinct = (i j block : ℕ) → Direct i block → Direct j block → i ≡ j

  get_elem?_in : (xs : List ℕ) (i : ℕ) → i < length xs → (x : ℕ) × (get_elem? xs i ≡ some x)
  get_elem?_in [] i h = absurd (omega arith)
  get_elem?_in (x ∷ xs) zero h = (x, refl)
  get_elem?_in (x ∷ xs) (suc i) h = get_elem?_in xs i (omega arith)

  pub help_datablock-direct :
      (index : ℕ)
      → length curr.direct ≡ num_direct_blocks
      → index < num_direct_blocks
      → (block : ℕ) × Direct index block
        × ((fs' : FileSystem) → help_datablock lib fs' curr index ≡ ok block)
  unfolding help_datablock
  help_datablock-direct index full h =
      let (block, e) = get_elem?_in curr.direct index (omega arith) in
      let small : leb num_direct_blocks index ≡ false = ground arith in
      (block, e, λ fs'. rw (small, e))
