-- ===== src/Minixfs/Transfer.antt =====
-- minixfs.c: what is read behind a write, at the start of a block and inside one.
use native.Mathlib.Nat.{mul-le-mul_right}
use native.Mathlib.Decide.{dec_lt}
use machine_project.Prelude.{
  ℕ, zero, suc, ◌+◌, ◌-◌, ◌*◌, ◌≤◌, ◌<◌, ◌≡◌, ◌≢◌, ◌⊎◌, refl, ap, sym, ◌∙◌, min, List, [], ◌∷◌,
  ◌++◌, length, take, drop, take-append-drop, length-take, length-drop, ok, ◌>>=◌, inl, inr, arith,
}
use machine_project.Minixfs.{
  Inode, FileSystem, Library, num_direct_blocks, copy_in, copy_out, help_datablock,
}
use machine_project.Minixfs.Blocks.{
  copy_in-outside, copy_out-same, copy_out-copy_in, blocks_apart, Direct, IsDistinct,
  help_datablock-direct,
}
use machine_project.Minixfs.Files.{write_blocks, read_blocks}

module _ (lib : Library) (curr : Inode) where
  -- The blocks of the parts before `index` are as they were.
  Keeps : ℕ → FileSystem → FileSystem → Type 0
  Keeps index fs fs' =
      (i block k : ℕ)
      → i < index
      → Direct lib curr i block
      → k < lib.block_size
      → fs'.bytes (block * lib.block_size + k) ≡ fs.bytes (block * lib.block_size + k)

  -- What a write of `buf` at the start of the part `index` comes to.
  Written : ℕ → ℕ → FileSystem → List ℕ → Type 0
  Written fuel index fs buf =
      (fs' : FileSystem) × (write_blocks lib fuel fs curr index 0 buf ≡ ok fs')
      × Keeps index fs fs'
      × (fs'.inodes ≡ fs.inodes)
      × ((g : ℕ) → length buf ≤ g → read_blocks lib g fs' curr index 0 (length buf) ≡ ok buf)

  write_blocks-start :
      (fuel index block : ℕ) (fs : FileSystem) (b : ℕ) (bs : List ℕ)
      → help_datablock lib fs curr index ≡ ok block
      → (let size = min (length (b ∷ bs)) lib.block_size in
          write_blocks lib (suc fuel) fs curr index 0 (b ∷ bs)
          ≡ write_blocks lib fuel
              (record fs { bytes = copy_in (take size (b ∷ bs)) (block * lib.block_size) fs.bytes })
              curr
              (index + 1)
              0
              (drop size (b ∷ bs)))
  unfolding write_blocks
  write_blocks-start fuel index block fs b bs found =
      let whole : lib.block_size - 0 ≡ lib.block_size = omega arith in
      let same : block + 0 ≡ block = omega arith in
      let start : block * lib.block_size + 0 ≡ block * lib.block_size = omega arith in
      rw (found, ◌>>=◌, whole, same, start)

  read_blocks-start :
      (fuel index block left : ℕ) (fs : FileSystem)
      → help_datablock lib fs curr index ≡ ok block
      → (let size = min (suc left) lib.block_size in
          read_blocks lib (suc fuel) fs curr index 0 (suc left) ≡ (
            read_blocks lib fuel fs curr (index + 1) 0 (suc left - size) >>= λ rest.
            ok (copy_out size (block * lib.block_size) fs.bytes ++ rest)))
  unfolding read_blocks
  read_blocks-start fuel index block left fs found =
      let whole : lib.block_size - 0 ≡ lib.block_size = omega arith in
      let same : block + 0 ≡ block = omega arith in rw (found, ◌>>=◌, whole, same)

  other_block :
      (index block other i k : ℕ)
      → IsDistinct lib curr
      → Direct lib curr index block
      → i < index
      → Direct lib curr i other
      → k < lib.block_size
      → (other * lib.block_size + k < block * lib.block_size)
        ⊎ (block * lib.block_size + lib.block_size ≤ other * lib.block_size + k)
  other_block index block other i k distinct place before there low =
      let differ : block ≢ other = λ e.
        let same : i ≡ index = distinct i index other there (rw e at place) in
        absurd (omega arith) in
      blocks_apart lib.block_size block other k differ low

  kept_behind :
      (index block : ℕ) (fs fs' : FileSystem) (buf : List ℕ)
      → IsDistinct lib curr
      → Direct lib curr index block
      → length buf ≤ lib.block_size
      → Keeps (index + 1) (record fs { bytes = copy_in buf (block * lib.block_size) fs.bytes }) fs'
      → Keeps index fs fs'
  unfolding Keeps
  kept_behind index block fs fs' buf distinct place fits keeps i other k before there low =
      let apart = other_block index block other i k distinct place before there low in
      keeps i other k (omega arith) there low
      ∙ copy_in-outside buf (block * lib.block_size) (other * lib.block_size + k) fs.bytes
          (elim apart [ inl h ↦ inl h | inr h ↦ inr (omega arith) ])

  read_behind :
      (g index block : ℕ) (fs fs' : FileSystem) (b : ℕ) (bs : List ℕ)
      → 0 < lib.block_size
      → Direct lib curr index block
      → help_datablock lib fs' curr index ≡ ok block
      → (let size = min (length (b ∷ bs)) lib.block_size in
          Keeps
            (index + 1)
            (record fs { bytes = copy_in (take size (b ∷ bs)) (block * lib.block_size) fs.bytes })
            fs'
          × ((g : ℕ)
              → length (drop size (b ∷ bs)) ≤ g
              → read_blocks lib g fs' curr (index + 1) 0 (length (drop size (b ∷ bs)))
                ≡ ok (drop size (b ∷ bs))))
      → length (b ∷ bs) ≤ g
      → read_blocks lib g fs' curr index 0 (length (b ∷ bs)) ≡ ok (b ∷ bs)
  unfolding Keeps
  read_behind zero index block fs fs' b bs some_size place found (keeps, reads) h =
      absurd (omega arith)
  read_behind (suc g) index block fs fs' b bs some_size place found (keeps, reads) h =
      let size = min (length (b ∷ bs)) lib.block_size in
      let taken : length (take size (b ∷ bs)) ≡ size = omega (arith, length-take size (b ∷ bs)) in
      let left : length (drop size (b ∷ bs)) ≡ length (b ∷ bs) - size = length-drop size (b ∷ bs) in
      let rest = reads g (omega arith) in
      let first : copy_out size (block * lib.block_size) fs'.bytes ≡ take size (b ∷ bs) =
        copy_out-same size (block * lib.block_size) fs'.bytes
          (copy_in (take size (b ∷ bs)) (block * lib.block_size) fs.bytes)
          (λ k lt. keeps index block k (omega arith) place (omega arith))
        ∙ ap
            (λ n.
              copy_out n (block * lib.block_size)
                (copy_in (take size (b ∷ bs)) (block * lib.block_size) fs.bytes))
            (sym taken)
        ∙ copy_out-copy_in (take size (b ∷ bs)) (block * lib.block_size) fs.bytes in
      read_blocks-start g index block (length bs) fs' found
      ∙ rw (first, rw left at rest) (ap ok (take-append-drop size (b ∷ bs)))

  write_step :
      (fuel index block : ℕ) (fs : FileSystem) (b : ℕ) (bs : List ℕ)
      → 0 < lib.block_size
      → IsDistinct lib curr
      → Direct lib curr index block
      → ((fs' : FileSystem) → help_datablock lib fs' curr index ≡ ok block)
      → (let size = min (length (b ∷ bs)) lib.block_size in
          let fs1 : FileSystem = record fs {
            bytes = copy_in (take size (b ∷ bs)) (block * lib.block_size) fs.bytes;
          } in
          Written fuel (index + 1) fs1 (drop size (b ∷ bs)))
      → Written (suc fuel) index fs (b ∷ bs)
  unfolding Written Keeps
  write_step fuel index block fs b bs some_size distinct place found
        (fs', writes, keeps, nodes, reads) =
      let size = min (length (b ∷ bs)) lib.block_size in
      (
        fs',
        write_blocks-start fuel index block fs b bs (found fs) ∙ writes,
        kept_behind index block fs fs' (take size (b ∷ bs)) distinct place
            (omega (arith, length-take size (b ∷ bs))) keeps,
        nodes,
        λ g h. read_behind g index block fs fs' b bs some_size place (found fs') (keeps, reads) h,
      )

  nothing_read :
      (index : ℕ) (fs : FileSystem) (g : ℕ) → 0 ≤ g → read_blocks lib g fs curr index 0 0 ≡ ok []
  unfolding read_blocks
  nothing_read index fs zero h = refl
  nothing_read index fs (suc g) h = refl

  not_lt : (m n : ℕ) → ¬ (m < n) → n ≤ m
  not_lt m n h = omega arith

  write_blocks_lem :
      (fuel index : ℕ) (fs : FileSystem) (buf : List ℕ)
      → 0 < lib.block_size
      → length curr.direct ≡ num_direct_blocks
      → IsDistinct lib curr
      → length buf ≤ fuel
      → index * lib.block_size + length buf ≤ num_direct_blocks * lib.block_size
      → Written fuel index fs buf
  write_blocks_lem fuel index fs [] some_size full distinct rounds fits =
      unfold Written Keeps in
      (
        fs,
        unfold write_blocks in refl,
        λ i block k before place low. refl,
        refl,
        nothing_read index fs,
      )
  write_blocks_lem zero index fs (b ∷ bs) some_size full distinct rounds fits = absurd (omega arith)
  write_blocks_lem (suc fuel) index fs (b ∷ bs) some_size full distinct rounds fits =
      let size = min (length (b ∷ bs)) lib.block_size in
      let left = length-drop size (b ∷ bs) in
      let inside : index < num_direct_blocks = elim (dec_lt index num_direct_blocks) [
        | yes p ↦ p
        | no p ↦
            let past = mul-le-mul_right lib.block_size (not_lt index num_direct_blocks p) in
            absurd (omega arith)
      ] in
      let next : (index + 1) * lib.block_size ≡ index * lib.block_size + lib.block_size =
        grind arith in
      let bound =
        mul-le-mul_right {m = index + 1} {n = num_direct_blocks} lib.block_size (omega arith) in
      let (block, place, found) = help_datablock-direct lib curr index full inside in
      write_step fuel index block fs b bs some_size distinct place found (
        write_blocks_lem fuel (index + 1) _ (drop size (b ∷ bs)) some_size full distinct
          (omega arith) (omega arith))

  -- A write at the start of a part, and a read of it, with a round for each byte.
  pub write_blocks-read_blocks :
      (index : ℕ) (fs : FileSystem) (buf : List ℕ)
      → 0 < lib.block_size
      → length curr.direct ≡ num_direct_blocks
      → IsDistinct lib curr
      → index * lib.block_size + length buf ≤ num_direct_blocks * lib.block_size
      → (fs' : FileSystem) × (write_blocks lib (length buf) fs curr index 0 buf ≡ ok fs')
        × (fs'.inodes ≡ fs.inodes)
        × (read_blocks lib (length buf) fs' curr index 0 (length buf) ≡ ok buf)
  unfolding Written
  write_blocks-read_blocks index fs buf some_size full distinct fits =
      let (fs', writes, keeps, nodes, reads) =
        write_blocks_lem (length buf) index fs buf some_size full distinct (omega arith) fits in
      (fs', writes, nodes, reads (length buf) (omega arith))
