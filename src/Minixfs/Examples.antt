-- ===== src/Minixfs/Examples.antt =====
-- A file system of blocks of four bytes with one file, and the theorems there.
use mathlib.Core.Option.{none-ne-some}
use machine_project.Prelude.{
  ℕ, zero, suc, ◌+◌, ◌≡◌, refl, true, false, List, [], ◌∷◌, get_elem?, none, some, ok, arith,
}
use machine_project.Minixfs.{Inode, FileSystem, Library, value, get_num_unused_block}
use machine_project.Minixfs.Blocks.{IsDistinct}
use machine_project.Minixfs.Files.{minixfs_virtual_read, minixfs_write, minixfs_read}
use machine_project.Minixfs.Info.{block_info_string, same_text, digits, print_difference}
use machine_project.Minixfs.Roundtrip.{minixfs_read-minixfs_write}

abbrev small : Library
small = record {
  block_size = 4;
  block_num_size = 1;
  rwx_bits_number = 9;
  file_name_entry = 8;
  get_inode = λ fs path. some 0;
  parent_directory = λ fs path. (none, path);
  valid_filename = λ name. true;
  is_directory = λ node. false;
  first_unused_inode = λ fs. none;
  add_single_indirect_block = λ fs n. none;
  init_inode = λ fs parent n. fs;
  dirent_string = λ n name. name;
  block_number_at = λ bytes a. bytes a;
  minixfs_min_blockcount = λ fs path n. some fs;
  is_virtual_path = λ path. none;
  data_number = 3;
}

count_from : ℕ → ℕ → List ℕ
count_from k zero = []
count_from k (suc n) = k ∷ count_from (k + 1) n

abbrev file : Inode
unfolding count_from
file = record {
  uid = 1;
  gid = 1;
  mode = 0x1a4;
  size = 4;
  atim = 0;
  mtim = 0;
  ctim = 0;
  direct = count_from 3 11;
  indirect = none;
}

abbrev one_file : FileSystem
unfolding file
one_file = record { inodes = λ _. file; bytes = λ a. 0; data_map = true ∷ false ∷ true ∷ [] }

get_elem?-count_from : (k n i b : ℕ) → get_elem? (count_from k n) i ≡ some b → b ≡ k + i
unfolding count_from
get_elem?-count_from k zero i b h = absurd (none-ne-some b h)
get_elem?-count_from k (suc n) zero b h = ground arith
get_elem?-count_from k (suc n) (suc i) b h = omega (arith, get_elem?-count_from (k + 1) n i b h)

file-IsDistinct : IsDistinct small file
unfolding file
file-IsDistinct i j b h k =
    omega (arith, get_elem?-count_from 3 11 i b h, get_elem?-count_from 3 11 j b k)

two_used : get_num_unused_block (true ∷ false ∷ true ∷ []) ≡ 1
unfolding get_num_unused_block
two_used = refl

minixfs_read-minixfs_write_example :
    (after last : FileSystem) × (minixfs_write small 7 one_file [] (5 ∷ 6 ∷ 7 ∷ 8 ∷ 9 ∷ []) 4
      ≡ ok (value 5, 9, after))
    × (minixfs_read small 8 after [] 5 4 ≡ ok (value 5, 5 ∷ 6 ∷ 7 ∷ 8 ∷ 9 ∷ [], 9, last))
unfolding one_file file count_from
minixfs_read-minixfs_write_example =
    minixfs_read-minixfs_write small 7 8 0 4 5 (6 ∷ 7 ∷ 8 ∷ 9 ∷ []) one_file one_file [] refl refl
      refl (omega arith) refl (omega arith) (omega arith) refl file-IsDistinct (λ after e. refl)

-- "Free blocks: 1\nUsed blocks: 2\n", from its 13th character on
info_is_read :
    minixfs_virtual_read small one_file (105 ∷ 110 ∷ 102 ∷ 111 ∷ []) 2 13
    ≡ (value 2, 49 ∷ 10 ∷ [], 15)
unfolding minixfs_virtual_read one_file file block_info_string print_difference digits same_text
    get_num_unused_block
info_is_read = refl
