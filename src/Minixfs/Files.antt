-- ===== src/Minixfs/Files.antt =====
-- minixfs.c: minixfs_write, minixfs_read and minixfs_virtual_read.
use machine_project.Prelude.{
  ℕ, zero, suc, ◌+◌, ◌-◌, ◌*◌, ◌/◌, ltb, leb, ◌==◌, if◌then◌else◌, List, [], ◌∷◌, ◌++◌, length,
  take, drop, min, none, some, Outcome, ok, hang, ◌>>=◌,
}
use machine_project.Minixfs.{
  Inode, FileSystem, Text, Library, enoent, enospc, Return, value, failed, num_direct_blocks,
  set_inode, copy_in, copy_out, get_index_offset, help_datablock, update_atim, update_mtim,
  get_num_unused_block,
}
use machine_project.Minixfs.Info.{block_info_string, same_text, info}
use machine_project.Minixfs.Create.{minixfs_create_inode_for_path}

module _ (lib : Library) where
  -- The loop of `minixfs_write`, for what is left of the buffer. `help_datablock(...) + offset` goes on
  -- by `offset` whole blocks, and then `data + offset` by as many bytes.
  unfoldable pub write_blocks : ℕ → FileSystem → Inode → ℕ → ℕ → List ℕ → Outcome FileSystem
  write_blocks fuel fs curr index offset [] = ok fs
  write_blocks zero fs curr index offset (b ∷ buf) = hang
  write_blocks (suc fuel) fs curr index offset (b ∷ buf) = do
    block ← help_datablock lib fs curr index
    let size = min (length (b ∷ buf)) (lib.block_size - offset)
    let address = (block + offset) * lib.block_size + offset
    let bytes = copy_in (take size (b ∷ buf)) address fs.bytes
    write_blocks fuel (record fs { bytes = bytes }) curr (index + 1) 0 (drop size (b ∷ buf))

  -- The loop of `minixfs_read`, for so many bytes to go. The copy is from the start of the block.
  unfoldable pub read_blocks : ℕ → FileSystem → Inode → ℕ → ℕ → ℕ → Outcome (List ℕ)
  read_blocks fuel fs curr index offset zero = ok []
  read_blocks zero fs curr index offset (suc left) = hang
  read_blocks (suc fuel) fs curr index offset (suc left) = do
    block ← help_datablock lib fs curr index
    let size = min (suc left) (lib.block_size - offset)
    let address = (block + offset) * lib.block_size
    rest ← read_blocks fuel fs curr (index + 1) 0 (suc left - size)
    ok (copy_out size address fs.bytes ++ rest)

  abbrev pub max_size : ℕ
  max_size = (num_direct_blocks + lib.block_size / lib.block_num_size) * lib.block_size

  -- required_block
  unfoldable pub required_blocks : ℕ → ℕ
  unfolding get_index_offset
  required_blocks end =
      if get_index_offset lib end 1 == 0
      then get_index_offset lib end 0
      else get_index_offset lib end 0 + 1

  -- `minixfs_write` from the moment that there is an inode. The size grows by what was written,
  -- wherever that was.
  unfoldable pub write_inode :
      ℕ → FileSystem → Text → ℕ → List ℕ → ℕ → Outcome (Return × ℕ × FileSystem)
  write_inode now fs path n buf off =
      elim (lib.minixfs_min_blockcount fs path (required_blocks (off + length buf))) [
        | none ↦ ok (failed enospc, off, fs)
        | some grown ↦ do
          written ←
              write_blocks (length buf) grown (grown.inodes n) (get_index_offset lib off 0)
                (get_index_offset lib off 1) buf
          let curr = written.inodes n
          ok (
            value (length buf),
            off + length buf,
            set_inode n
                (update_mtim now (update_atim now (record curr { size = curr.size + length buf })))
                written,
          )
      ]

  -- The return value, the offset and the file system.
  unfoldable pub minixfs_write :
      ℕ → FileSystem → Text → List ℕ → ℕ → Outcome (Return × ℕ × FileSystem)
  minixfs_write now fs path buf off =
      if ltb max_size (length buf + off)
      then ok (failed enospc, off, fs)
      else elim (lib.get_inode fs path) [
        | some n ↦ write_inode now fs path n buf off
        | none ↦ minixfs_create_inode_for_path lib fs path >>= λ made. elim made.0 [
          | none ↦ ok (failed enospc, off, made.1)
          | some n ↦ write_inode now made.1 path n buf off
        ]
      ]

  -- The bytes that were read, if the call does not fail, and the offset.
  unfoldable pub minixfs_virtual_read : FileSystem → Text → ℕ → ℕ → Return × List ℕ × ℕ
  unfolding get_num_unused_block block_info_string same_text
  minixfs_virtual_read fs path count off =
      if same_text path info
      then (let content =
            block_info_string lib.data_number
              (length fs.data_map - get_num_unused_block fs.data_map) in
          let size = min (length content - off) count in
          if leb (length content) off
          then (value 0, [], off)
          else (value size, take size (drop off content), off + size))
      else (failed enoent, [], off)

  -- The end of `minixfs_read`, for an inode. `curr->size - *off` wraps where the offset is past the
  -- size, and all of the count is read.
  unfoldable pub read_inode :
      ℕ → FileSystem → ℕ → ℕ → ℕ → Outcome (Return × List ℕ × ℕ × FileSystem)
  read_inode now fs n count off =
      let curr = fs.inodes n in
      let total_bytes = if ltb curr.size off then count else min (curr.size - off) count in
      if curr.size == off
      then ok (value 0, [], off, fs)
      else read_blocks total_bytes fs curr (get_index_offset lib off 0) (get_index_offset lib off 1)
          total_bytes
        >>= λ buf.
            ok (value total_bytes, buf, off + total_bytes, set_inode n (update_atim now curr) fs)

  unfoldable pub minixfs_read :
      ℕ → FileSystem → Text → ℕ → ℕ → Outcome (Return × List ℕ × ℕ × FileSystem)
  minixfs_read now fs path count off = elim (lib.is_virtual_path path) [
    | some name ↦
        let (r, buf, off') = minixfs_virtual_read fs name count off in ok (r, buf, off', fs)
    | none ↦ elim (lib.get_inode fs path) [
      | none ↦ ok (failed enoent, [], off, fs)
      | some n ↦ read_inode now fs n count off
    ]
  ]
