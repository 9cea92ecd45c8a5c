-- ===== src/Minixfs/Create.antt =====
-- minixfs.c: minixfs_create_inode_for_path.
use machine_project.Prelude.{
  ℕ, ◌+◌, ◌*◌, leb, ◌&&◌, ◌||◌, not, if◌then◌else◌, Bool, true, false, replicate, Option, none,
  some, Outcome, ok, ◌>>=◌,
}
use machine_project.Minixfs.{
  FileSystem, Text, Library, num_direct_blocks, set_inode, copy_in, get_index_offset,
  help_datablock,
}

abbrev is_missing : Option ℕ → Bool
is_missing none = true
is_missing (some _) = false

module _ (lib : Library) where
  -- The directory entry and the new inode, for a parent and a free inode.
  unfoldable pub add_entry : FileSystem → ℕ → ℕ → Text → Outcome FileSystem
  unfolding help_datablock get_index_offset
  add_entry fs parent unused filename = do
    let node = fs.inodes parent
    let made = lib.init_inode fs parent unused
    block ← help_datablock lib made node (get_index_offset lib node.size 0)
    let s = block * lib.block_size + get_index_offset lib node.size 1
    let cleared = copy_in (replicate lib.file_name_entry 0) s made.bytes
    let written = copy_in (lib.dirent_string unused filename) s cleared
    let after = made.inodes parent
    ok (
        set_inode parent (record after { size = after.size + 256 })
          (record made { bytes = written }))

  -- `none` is NULL.
  unfoldable pub create_in : FileSystem → Option ℕ → Text → Outcome (Option ℕ × FileSystem)
  unfolding add_entry get_index_offset
  create_in fs none filename = ok (none, fs)
  create_in fs (some parent) filename =
      let node = fs.inodes parent in
      if not (lib.valid_filename filename)
        || (not (lib.is_directory node) || leb (num_direct_blocks * lib.block_size) node.size)
      then ok (none, fs)
      else elim (lib.first_unused_inode fs) [
        | none ↦ ok (none, fs)
        | some unused ↦
            if leb num_direct_blocks (get_index_offset lib node.size 0) && is_missing node.indirect
            then (elim (lib.add_single_indirect_block fs parent) [
              | none ↦ ok (none, fs)
              | some grown ↦
                  add_entry grown parent unused filename >>= λ made. ok (some unused, made)
            ])
            else add_entry fs parent unused filename >>= λ made. ok (some unused, made)
      ]

  unfoldable pub minixfs_create_inode_for_path : FileSystem → Text → Outcome (Option ℕ × FileSystem)
  unfolding create_in
  minixfs_create_inode_for_path fs path = elim (lib.get_inode fs path) [
    | some n ↦ ok (none, fs)
    | none ↦ let (parent, filename) = lib.parent_directory fs path in create_in fs parent filename
  ]
