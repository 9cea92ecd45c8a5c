-- ===== src/Minixfs.antt =====
-- finding_filesystems/minixfs.c: the operations of a file system in memory. What the headers and
-- minixfs_utils.h give is code that is not in the repository: a `Library` has it. The data blocks are
-- one array of bytes, and a block number is an index into it in steps of `block_size`.
pub mod Info
pub mod Blocks
pub mod Create
pub mod Files
pub mod Transfer
pub mod Roundtrip
mod Examples
use Prim.Native.Nat.{bit_or}
use machine_project.Prelude.{
  ℕ, zero, suc, ◌+◌, ◌-◌, ◌*◌, ◌/◌, ◌%◌, ◌^◌, ltb, leb, ◌==◌, ◌&&◌, ◌||◌, not, if◌then◌else◌, Bool,
  true, false, List, [], ◌∷◌, length, get_elem?, take, drop, min, Option, none, some, Outcome, ok,
  fault, ◌>>=◌,
}

-- `none` is the block number -1.
pub record Inode : Type 0 where
  pub uid : ℕ
  pub gid : ℕ
  pub mode : ℕ
  pub size : ℕ
  pub atim : ℕ
  pub mtim : ℕ
  pub ctim : ℕ
  pub direct : List ℕ
  pub indirect : Option ℕ

pub record FileSystem : Type 0 where
  pub inodes : ℕ → Inode
  pub bytes : ℕ → ℕ
  pub data_map : List Bool

abbrev pub Text : Type 0
Text = List ℕ

pub record Library : Type 0 where
  pub block_size : ℕ
  pub block_num_size : ℕ
  pub rwx_bits_number : ℕ
  pub file_name_entry : ℕ
  pub get_inode : FileSystem → Text → Option ℕ
  pub parent_directory : FileSystem → Text → Option ℕ × Text
  pub valid_filename : Text → Bool
  pub is_directory : Inode → Bool
  pub first_unused_inode : FileSystem → Option ℕ
  pub add_single_indirect_block : FileSystem → ℕ → Option FileSystem
  pub init_inode : FileSystem → ℕ → ℕ → FileSystem
  pub dirent_string : ℕ → Text → Text
  pub block_number_at : (ℕ → ℕ) → ℕ → ℕ
  pub minixfs_min_blockcount : FileSystem → Text → ℕ → Option FileSystem
  pub is_virtual_path : Text → Option Text
  pub data_number : ℕ

pub data Errno : Type 0 where
  enoent enospc : Errno

-- `failed` is the return value -1 with errno set.
pub data Return : Type 0 where
  value : ℕ → Return
  failed : Errno → Return

abbrev pub num_direct_blocks : ℕ
num_direct_blocks = 11

abbrev pub set_inode : ℕ → Inode → FileSystem → FileSystem
set_inode n node fs = record fs { inodes = λ i. if i == n then node else fs.inodes i }

unfoldable pub update_ctim : ℕ → Inode → Inode
update_ctim now curr = record curr { ctim = now }

unfoldable pub update_atim : ℕ → Inode → Inode
update_atim now curr = record curr { atim = now }

unfoldable pub update_mtim : ℕ → Inode → Inode
update_mtim now curr = record curr { mtim = now }

-- The map has a byte for each block.
unfoldable pub get_num_unused_block : List Bool → ℕ
get_num_unused_block [] = 0
get_num_unused_block (used ∷ map) =
    let rest = get_num_unused_block map in if used then rest else rest + 1

-- memcpy from the address `i` on, and to it
unfoldable pub copy_out : ℕ → ℕ → (ℕ → ℕ) → List ℕ
copy_out zero i bytes = []
copy_out (suc n) i bytes = bytes i ∷ copy_out n (i + 1) bytes

unfoldable pub copy_in : List ℕ → ℕ → (ℕ → ℕ) → ℕ → ℕ
copy_in [] i bytes j = bytes j
copy_in (b ∷ bs) i bytes j = if j == i then b else copy_in bs (i + 1) bytes j

module _ (lib : Library) where
  -- The two uses of the function, by its flag.
  unfoldable pub get_index_offset : ℕ → ℕ → ℕ
  get_index_offset size flag = if flag == 0 then size / lib.block_size else size % lib.block_size

  -- The number of the block that holds the part `index` of a file.
  unfoldable pub help_datablock : FileSystem → Inode → ℕ → Outcome ℕ
  help_datablock fs curr index =
      if leb num_direct_blocks index
      then (elim curr.indirect [
        | none ↦ fault
        | some block ↦ ok (
            lib.block_number_at fs.bytes
              (block * lib.block_size + (index - num_direct_blocks) * lib.block_num_size))
      ])
      else elim (get_elem? curr.direct index) [ none ↦ fault | some block ↦ ok block ]

  unfoldable pub minixfs_chmod : ℕ → FileSystem → Text → ℕ → Return × FileSystem
  unfolding update_ctim
  minixfs_chmod now fs path new_permissions = elim (lib.get_inode fs path) [
    | none ↦ (failed enoent, fs)
    | some n ↦
        let curr = fs.inodes n in
        let bits = 2 ^ lib.rwx_bits_number in
        (
          value 0,
          set_inode n
              (update_ctim now
                (record curr { mode = bit_or (curr.mode / bits * bits) new_permissions }))
              fs,
        )
  ]

  -- (uid_t)-1 and (gid_t)-1 leave the owner and the group.
  unfoldable pub minixfs_chown : ℕ → FileSystem → Text → ℕ → ℕ → Return × FileSystem
  unfolding update_ctim
  minixfs_chown now fs path owner group = elim (lib.get_inode fs path) [
    | none ↦ (failed enoent, fs)
    | some n ↦
        let curr = fs.inodes n in
        (
          value 0,
          set_inode n
              (update_ctim now (record curr {
                uid = if owner == 2 ^ 32 - 1 then curr.uid else owner;
                gid = if group == 2 ^ 32 - 1 then curr.gid else group;
              }))
              fs,
        )
  ]
