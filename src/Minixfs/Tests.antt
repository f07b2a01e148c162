-- ===== src/Minixfs/Tests.antt =====
-- A small file system of finding_filesystems/minixfs.c: blocks of 4 bytes, one file over two direct blocks
-- and one indirect one.
use cs.Prelude.{◌+◌, ◌≤◌, ◌<◌, ◌≡◌, refl, none, some, ◌==◌, if◌then◌else◌, [], ◌∷◌, arith}
use cs.Minixfs.{Inode, FileSystem, Library, moved, write, read, block_of}
use cs.Minixfs.Blocks.{IsSeparate}
use cs.Minixfs.Sizes.{Gives, read_lem}
use cs.Minixfs.ReadBack.{DiffersInFile, write-read_back}

abbrev small_library : Library
small_library = record {
  block_size = 4;
  direct_blocks = 2;
  entry_size = 4;
  rwx_bits = 9;
  unassigned = 255;
  get_inode = λ fs path. some 1;
  virtual_path = λ path. none;
  min_blockcount = λ fs path count. some fs;
  first_unused_inode = λ fs. none;
  parent_directory = λ fs path. (0, path);
  init_inode = λ parent node. node;
  add_data_block = λ fs n. fs;
  dirent = λ name n. name;
}

-- The file has the blocks 5, 6 and, by its indirect block 7, 8.
abbrev file : Inode
file = record { mode = 0; uid = 0; gid = 0; size = 0; direct = λ i. i + 5; indirect = 7 }

abbrev disk : FileSystem
disk = record {
  inodes = λ n. file;
  bytes = λ b k. if b == 7 then (if k == 0 then 8 else 0) else 0;
  data_map = 1 ∷ 0 ∷ [];
}

disk-IsSeparate : IsSeparate small_library disk file 3
unfolding block_of
disk-IsSeparate = record { apart = λ i j h k ne. ground arith; off_table = λ i h. ground arith }

write-read_back_example :
    (fs' : FileSystem) × (write small_library disk [] (1 ∷ 2 ∷ 3 ∷ 4 ∷ 5 ∷ 6 ∷ 7 ∷ 8 ∷ 9 ∷ []) 2
      ≡ some (moved 9 11 fs'))
    × (read small_library fs' [] 9 2
        ≡ some (moved 9 11 fs', 1 ∷ 2 ∷ 3 ∷ 4 ∷ 5 ∷ 6 ∷ 7 ∷ 8 ∷ 9 ∷ []))
    × ((fs'.inodes 1).size ≡ 11)
    × DiffersInFile small_library disk 1 3 fs'
write-read_back_example =
    write-read_back small_library disk disk [] (1 ∷ 2 ∷ 3 ∷ 4 ∷ 5 ∷ 6 ∷ 7 ∷ 8 ∷ 9 ∷ []) 2 1 3 refl
      refl (refl, λ fs' d. refl) disk-IsSeparate (omega arith) (omega arith) (omega arith)
      (omega arith) (omega arith)

abbrev long_file : FileSystem
long_file = record disk { inodes = λ n. record file { size = 6 } }

read_lem_example :
    (1 ≤ 6 → Gives small_library long_file 1 (read small_library long_file [] 20 1) 5)
    × (6 < 1 → Gives small_library long_file 1 (read small_library long_file [] 20 1) 20)
read_lem_example =
    read_lem small_library long_file [] 20 1 1 refl refl (omega arith) (omega arith) (omega arith)
      (omega arith)
