-- ===== src/Minixfs/Roundtrip.antt =====
-- minixfs.c: minixfs_read behind minixfs_write, and a write inside a block.
use native.Mathlib.Nat.{div-add-mod, mul_comm, mul-le-mul_right}
use machine_project.Prelude.{
  ℕ, zero, suc, ◌+◌, ◌-◌, ◌*◌, ◌/◌, ◌%◌, ◌≤◌, ◌<◌, ◌≡◌, refl, ap, sym, ◌∙◌, ltb, le→ltb, ◌==◌, min,
  true, false, List, ◌∷◌, length, take_all, drop_all, append-nil, some, none, ok, ◌>>=◌, inl, arith,
}
use machine_project.Minixfs.{
  Inode, FileSystem, Text, Library, value, num_direct_blocks, set_inode, copy_in, copy_out,
  help_datablock, get_index_offset, update_atim, update_mtim,
}
use machine_project.Minixfs.Blocks.{
  copy_in-outside, copy_out-same, IsDistinct, help_datablock-direct,
}
use machine_project.Minixfs.Files.{
  write_blocks, read_blocks, write_inode, read_inode, minixfs_write, minixfs_read, max_size,
  required_blocks,
}
use machine_project.Minixfs.Transfer.{write_blocks-read_blocks}

module _ (lib : Library) (curr : Inode) where
  -- The last round of each loop.
  write_blocks-last :
      (fuel index offset block : ℕ) (fs : FileSystem) (b : ℕ) (bs : List ℕ)
      → help_datablock lib fs curr index ≡ ok block
      → offset + length (b ∷ bs) ≤ lib.block_size
      → write_blocks lib (suc fuel) fs curr index offset (b ∷ bs)
        ≡ ok (record fs {
          bytes = copy_in (b ∷ bs) ((block + offset) * lib.block_size + offset) fs.bytes;
        })
  unfolding write_blocks
  write_blocks-last fuel index offset block fs b bs found fits =
      let whole : min (length (b ∷ bs)) (lib.block_size - offset) ≡ suc (length bs) = omega arith in
      let taken = take_all (length bs) bs (omega arith) in
      let dropped = drop_all (length bs) bs (omega arith) in
      rw (found, ◌>>=◌, whole, taken, dropped)

  read_blocks-last :
      (fuel index offset block left : ℕ) (fs : FileSystem)
      → help_datablock lib fs curr index ≡ ok block
      → offset + suc left ≤ lib.block_size
      → read_blocks lib (suc fuel) fs curr index offset (suc left)
        ≡ ok (copy_out (suc left) ((block + offset) * lib.block_size) fs.bytes)
  unfolding read_blocks
  read_blocks-last fuel index offset block left fs found fits =
      let whole : min (suc left) (lib.block_size - offset) ≡ suc left = omega arith in
      let done : suc left - suc left ≡ 0 = omega arith in
      rw (
        found,
        ◌>>=◌,
        whole,
        done,
        append-nil (copy_out (suc left) ((block + offset) * lib.block_size) fs.bytes),
      )

  -- For a write of so few bytes inside a block that it ends with the block, at an offset of at least
  -- that many bytes, in a part of the file that has a direct block: the write ends, and a read of as
  -- many bytes at the same offset returns what stood there before the write.
  read_blocks-unaligned :
      (fs : FileSystem) (index offset : ℕ) (b : ℕ) (bs : List ℕ)
      → length curr.direct ≡ num_direct_blocks
      → index < num_direct_blocks
      → length (b ∷ bs) ≤ offset
      → offset + length (b ∷ bs) ≤ lib.block_size
      → (fs' : FileSystem) × (write_blocks lib (length (b ∷ bs)) fs curr index offset (b ∷ bs)
          ≡ ok fs')
        × (read_blocks lib (length (b ∷ bs)) fs' curr index offset (length (b ∷ bs))
            ≡ read_blocks lib (length (b ∷ bs)) fs curr index offset (length (b ∷ bs)))
  read_blocks-unaligned fs index offset b bs full inside low fits =
      let (block, place, found) = help_datablock-direct lib curr index full inside in
      let start = (block + offset) * lib.block_size in
      let fs' : FileSystem = record fs { bytes = copy_in (b ∷ bs) (start + offset) fs.bytes } in
      (
        fs',
        write_blocks-last (length bs) index offset block fs b bs (found fs) fits,
        read_blocks-last (length bs) index offset block (length bs) fs' (found fs') fits
            ∙ ap ok (
                copy_out-same (length (b ∷ bs)) start fs'.bytes fs.bytes (λ k lt.
                  copy_in-outside (b ∷ bs) (start + offset) (start + k) fs.bytes
                    (inl (omega arith))))
            ∙ sym (read_blocks-last (length bs) index offset block (length bs) fs (found fs) fits),
      )

module _ (lib : Library) where
  block_start : (off : ℕ) → off % lib.block_size ≡ 0 → off / lib.block_size * lib.block_size ≡ off
  block_start off h =
      omega (arith, mul_comm (off / lib.block_size) lib.block_size, div-add-mod off lib.block_size)

  -- `minixfs_write` for a path that leads to an inode, and `minixfs_read`, each by its loop.
  minixfs_write_lem :
      (now n off : ℕ) (fs grown written : FileSystem) (path : Text) (buf : List ℕ)
      → lib.get_inode fs path ≡ some n
      → lib.minixfs_min_blockcount fs path (required_blocks lib (off + length buf)) ≡ some grown
      → length buf + off ≤ max_size lib
      → write_blocks lib
          (length buf)
          grown
          (grown.inodes n)
          (off / lib.block_size)
          (off % lib.block_size)
          buf
        ≡ ok written
      → (let curr = written.inodes n in
          minixfs_write lib now fs path buf off
          ≡ ok (
            value (length buf),
            off + length buf,
            set_inode n
                (update_mtim now (update_atim now (record curr { size = curr.size + length buf })))
                written,
          ))
  unfolding minixfs_write write_inode get_index_offset
  minixfs_write_lem now n off fs grown written path buf leads grows fits writes =
      let small : ltb (max_size lib) (length buf + off) ≡ false =
        le→ltb (max_size lib) (length buf + off) fits in
      rw (small, leads, write_inode, grows, writes)

  -- The loop of a read looks at the bytes and at the block numbers only.
  read_blocks-same :
      (g index offset left size atim mtim : ℕ) (nodes : ℕ → Inode) (fs : FileSystem) (curr : Inode)
      → read_blocks lib g
          (record fs { inodes = nodes })
          (record curr { size = size; atim = atim; mtim = mtim })
          index
          offset
          left
        ≡ read_blocks lib g fs curr index offset left
  unfolding read_blocks help_datablock
  read_blocks-same zero index offset zero size atim mtim nodes fs curr = refl
  read_blocks-same zero index offset (suc left) size atim mtim nodes fs curr = refl
  read_blocks-same (suc g) index offset zero size atim mtim nodes fs curr = refl
  read_blocks-same (suc g) index offset (suc left) size atim mtim nodes fs curr = rw (
      read_blocks-same g (index + 1) 0 (suc left - min (suc left) (lib.block_size - offset)) size
        atim mtim nodes fs curr)

  bound :
      (buf : List ℕ) (off : ℕ)
      → length buf + off ≤ num_direct_blocks * lib.block_size
      → length buf + off ≤ max_size lib
  bound buf off h =
      let more =
        mul-le-mul_right {m = num_direct_blocks}
          {n = num_direct_blocks + lib.block_size / lib.block_num_size} lib.block_size
          (omega arith) in
      omega arith

  minixfs_read_lem :
      (now n off count : ℕ) (fs : FileSystem) (path : Text) (buf : List ℕ)
      → lib.is_virtual_path path ≡ none
      → lib.get_inode fs path ≡ some n
      → 0 < count
      → off + count ≤ (fs.inodes n).size
      → read_blocks lib count fs (fs.inodes n) (off / lib.block_size) (off % lib.block_size) count
        ≡ ok buf
      → minixfs_read lib now fs path count off
        ≡ ok (value count, buf, off + count, set_inode n (update_atim now (fs.inodes n)) fs)
  unfolding minixfs_read read_inode get_index_offset
  minixfs_read_lem now n off count fs path buf plain leads some_count fits reads =
      let inside : ltb (fs.inodes n).size off ≡ false =
        le→ltb (fs.inodes n).size off (omega arith) in
      let total : min ((fs.inodes n).size - off) count ≡ count = omega arith in
      let more : ((fs.inodes n).size == off) ≡ false = ground arith in
      rw (minixfs_read, plain, leads, read_inode, inside, total, more, reads)

  -- For an offset at the start of a block and not past the end of the file, and bytes that fit into
  -- the direct blocks, which are all different: where the path leads to an inode, before and after
  -- the call, and the blocks can be had, `minixfs_write` returns how many bytes it was given, and
  -- `minixfs_read` of as many bytes at the same offset returns these bytes.
  pub minixfs_read-minixfs_write :
      (now later n off b : ℕ) (bs : List ℕ) (fs grown : FileSystem) (path : Text)
      → lib.is_virtual_path path ≡ none
      → lib.get_inode fs path ≡ some n
      → lib.minixfs_min_blockcount fs path (required_blocks lib (off + length (b ∷ bs)))
        ≡ some grown
      → 0 < lib.block_size
      → off % lib.block_size ≡ 0
      → off ≤ (grown.inodes n).size
      → length (b ∷ bs) + off ≤ num_direct_blocks * lib.block_size
      → length (grown.inodes n).direct ≡ num_direct_blocks
      → IsDistinct lib (grown.inodes n)
      → ((after : FileSystem)
          → minixfs_write lib now fs path (b ∷ bs) off
            ≡ ok (value (length (b ∷ bs)), off + length (b ∷ bs), after)
          → lib.get_inode after path ≡ some n)
      → (after last : FileSystem) × (minixfs_write lib now fs path (b ∷ bs) off
          ≡ ok (value (length (b ∷ bs)), off + length (b ∷ bs), after))
        × (minixfs_read lib later after path (length (b ∷ bs)) off
            ≡ ok (value (length (b ∷ bs)), b ∷ bs, off + length (b ∷ bs), last))
  unfolding update_atim update_mtim
  minixfs_read-minixfs_write now later n off b bs fs grown path plain leads grows some_size aligned
        behind fits full distinct stays =
      let buf = b ∷ bs in
      let start = block_start off aligned in
      let (written, writes, nodes, reads) =
        write_blocks-read_blocks lib (grown.inodes n) (off / lib.block_size) grown buf some_size
          full distinct (omega arith) in
      let most : length buf + off ≤ max_size lib = bound buf off fits in
      let node : written.inodes n ≡ grown.inodes n = ap (λ f. f n) nodes in
      let ran =
        minixfs_write_lem now n off fs grown written path buf leads grows most
          (rw aligned writes) in
      let size = (written.inodes n).size + length buf in
      let after : FileSystem =
        set_inode n (record (written.inodes n) { size = size; atim = now; mtim = now }) written in
      let self : (n == n) ≡ true = ground arith in
      let found : after.inodes n ≡ record (grown.inodes n) { size = size; atim = now; mtim = now } =
        rw (self, node) in
      let grew : off + length buf ≤ (after.inodes n).size =
        rw found (omega (arith, ap (λ c. c.size) node)) in
      let same =
        read_blocks-same (length buf) (off / lib.block_size) 0 (length buf) size now now
          after.inodes written (grown.inodes n) in
      let reads_after : read_blocks lib (length buf) after (after.inodes n) (off / lib.block_size)
            (off % lib.block_size) (length buf)
          ≡ ok buf =
        rw (found, aligned) (same ∙ reads) in
      (
        after,
        set_inode n (update_atim later (after.inodes n)) after,
        ran,
        minixfs_read_lem later n off (length buf) after path buf plain (stays after ran)
            (omega arith) grew reads_after,
      )
