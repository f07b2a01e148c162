-- ===== src/Minixfs.antt =====
-- finding_filesystems/minixfs.c: reading and writing a file through its direct and indirect blocks,
-- creating a file in its directory, and changing its permissions and its owner.
-- What the file system's library does, and its sizes, are a parameter (`Library`); times are left out.
-- The casts of a count to int change nothing, as counts are below 2 ^ 31.
pub mod Blocks
pub mod ReadBack
pub mod Sizes
pub mod Owner
mod Tests
use Prim.Native.Nat.{bit_or}
use cs.Prelude.Chars.{str_eq}
use cs.Prelude.{
  ℕ, zero, suc, ◌+◌, ◌-◌, ◌*◌, ◌/◌, ◌%◌, ◌^◌, min, Option, none, some, Bool, true, false, ◌==◌, ltb,
  leb, ◌&&◌, if◌then◌else◌, List, [], ◌∷◌, ◌++◌, length, take, drop, get_or, ◌>>=◌,
}

abbrev pub FilePath : Type 0
FilePath = List ℕ

-- `inode`, without its times
pub record Inode : Type 0 where
  pub mode : ℕ
  pub uid : ℕ
  pub gid : ℕ
  pub size : ℕ
  pub direct : ℕ → ℕ
  pub indirect : ℕ

-- `file_system`: the inodes, the bytes of each data block, and the map of the blocks in use
pub record FileSystem : Type 0 where
  pub inodes : ℕ → Inode
  pub bytes : ℕ → ℕ → ℕ
  pub data_map : List ℕ

pub data Errno : Type 0 where
  enoent enospc : Errno

-- What a call returns: the bytes moved and the new offset, or an error; the file system afterwards.
pub data Answer : Type 0 where
  moved : (count off : ℕ) → FileSystem → Answer
  refused : Errno → FileSystem → Answer

abbrev pub set_inode : ℕ → Inode → FileSystem → FileSystem
set_inode n node fs = record fs { inodes = λ m. if m == n then node else fs.inodes m }

-- `memcpy` into a block
abbrev pub store : ℕ → ℕ → List ℕ → FileSystem → FileSystem
store block at chunk fs = record fs {
  bytes = λ b k.
      if b == block && leb at k && ltb k (at + length chunk)
      then get_or chunk (k - at) 0
      else fs.bytes b k;
}

-- `memcpy` out of a block
abbrev pub load : (ℕ → ℕ) → (at count : ℕ) → List ℕ
load block at zero = []
load block at (suc count) = block at ∷ load block (at + 1) count

-- minixfs.h and minixfs_utils.h, which are not in the repository
pub record Library : Type 0 where
  pub block_size : ℕ
  pub direct_blocks : ℕ
  pub entry_size : ℕ
  pub rwx_bits : ℕ
  pub unassigned : ℕ
  pub get_inode : FileSystem → FilePath → Option ℕ
  pub virtual_path : FilePath → Option FilePath
  pub min_blockcount : FileSystem → FilePath → ℕ → Option FileSystem
  pub first_unused_inode : FileSystem → Option ℕ
  pub parent_directory : FileSystem → FilePath → ℕ × FilePath
  pub init_inode : (parent node : Inode) → Inode
  pub add_data_block : FileSystem → ℕ → FileSystem
  pub dirent : FilePath → ℕ → List ℕ

module _ (lib : Library) where
  open lib use {
    block_size, direct_blocks, entry_size, rwx_bits, unassigned, get_inode, virtual_path,
    min_blockcount, first_unused_inode, parent_directory, init_inode, add_data_block, dirent,
  }

  -- `iblocks[i]`: four bytes of the indirect block, least significant first
  abbrev pub number_at : (ℕ → ℕ) → ℕ → ℕ
  number_at block i =
      block (4 * i)
      + 256 * block (4 * i + 1)
      + 65536 * block (4 * i + 2)
      + 16777216 * block (4 * i + 3)

  -- the block of a file with the number `bnum`
  pub block_of : FileSystem → Inode → ℕ → ℕ
  block_of fs node bnum =
      if ltb bnum direct_blocks
      then node.direct bnum
      else number_at (fs.bytes node.indirect) (bnum - direct_blocks)

  -- the loop of `minixfs_write`, over the bytes that are unwritten
  pub write_loop : (fuel : ℕ) → FileSystem → Inode → List ℕ → (bnum boff : ℕ) → Option FileSystem
  write_loop fuel fs node [] bnum boff = some fs
  write_loop zero fs node (b ∷ bs) bnum boff = none
  write_loop (suc fuel) fs node (b ∷ bs) bnum boff =
      let n = min (block_size - boff) (suc (length bs)) in
      write_loop fuel (store (block_of fs node bnum) boff (take n (b ∷ bs)) fs) node
        (drop n (b ∷ bs)) (bnum + 1) 0

  -- the loop of `minixfs_read`
  pub read_loop : (fuel : ℕ) → FileSystem → Inode → (unread bnum boff : ℕ) → Option (List ℕ)
  read_loop fuel fs node zero bnum boff = some []
  read_loop zero fs node (suc unread) bnum boff = none
  read_loop (suc fuel) fs node (suc unread) bnum boff = do
    let n = min (block_size - boff) (suc unread)
    rest ← read_loop fuel fs node (suc unread - n) (bnum + 1) 0
    some (load (fs.bytes (block_of fs node bnum)) boff n ++ rest)

  pub chmod : FileSystem → FilePath → (new_permissions : ℕ) → Option FileSystem
  chmod fs path new_permissions = do
    n ← get_inode fs path
    let node = fs.inodes n
    let kept = node.mode / 2 ^ rwx_bits * 2 ^ rwx_bits
    some (set_inode n (record node { mode = bit_or kept new_permissions }) fs)

  -- -1, as the unsigned number that it is compared as
  abbrev pub keep_id : ℕ
  keep_id = 2 ^ 32 - 1

  -- `none` is -1 with ENOENT.
  pub chown : FileSystem → FilePath → (owner group : ℕ) → Option FileSystem
  chown fs path owner group = do
    n ← get_inode fs path
    let node = fs.inodes n
    let uid = if owner == keep_id then node.uid else owner
    let gid = if group == keep_id then node.gid else group
    some (set_inode n (record node { uid = uid; gid = gid }) fs)

  -- What the inner loop of `minixfs_create_inode_for_path` ends with: a free entry at `at`, the end of the
  -- block with `left` bytes still to look at, or no byte left.
  pub data Slot : Type 0 where
    found : (at : ℕ) → Slot
    block_end : (left : ℕ) → Slot
    exhausted : Slot

  -- `entries` of the block are left from `at` on; `size` is what `size >= 0` tests, and `size` below an
  -- entry makes it negative.
  pub find_slot : (ℕ → ℕ) → (entries at size : ℕ) → Slot
  find_slot block zero at size = block_end size
  find_slot block (suc entries) at size =
      let next = find_slot block entries (at + entry_size) (size - entry_size) in
      if block at == 0 then found at else if ltb size entry_size then exhausted else next

  -- the block of the directory with the number `bnum`, added if it is not there
  abbrev pub directory_block : FileSystem → (parent bnum : ℕ) → FileSystem
  directory_block fs parent bnum =
      if (fs.inodes parent).direct bnum == unassigned then add_data_block fs parent else fs

  abbrev pub add_entry : FileSystem → (parent bnum at : ℕ) → FilePath → ℕ → FileSystem
  add_entry fs parent bnum at filename n =
      let node = fs.inodes parent in
      set_inode parent (record node { size = node.size + entry_size })
        (store (node.direct bnum) at (dirent filename n) fs)

  -- The outer loop, over at most `fuel` blocks; the result says whether an entry was written.
  pub add_to_directory :
      (fuel : ℕ) → FileSystem → (parent bnum size : ℕ) → FilePath → ℕ → Option (Bool × FileSystem)
  add_to_directory zero fs parent bnum size filename n = none
  add_to_directory (suc fuel) fs parent bnum size filename n =
      let fs' = directory_block fs parent bnum in
      let block = fs'.bytes ((fs'.inodes parent).direct bnum) in
      elim (find_slot block (block_size / entry_size) 0 size) [
        | found at ↦ some (true, add_entry fs' parent bnum at filename n)
        | block_end left ↦ add_to_directory fuel fs' parent (bnum + 1) left filename n
        | exhausted ↦ some (false, fs')
      ]

  -- `minixfs_create_inode_for_path`: the number of the inode, or `none` for NULL. A directory of `size`
  -- bytes has at most `size + 1` blocks to look at.
  pub create_inode : FileSystem → FilePath → Option (Option ℕ × FileSystem)
  unfolding add_to_directory find_slot
  create_inode fs path = elim (get_inode fs path) [
    | some n ↦ some (none, fs)
    | none ↦ elim (first_unused_inode fs) [
      | none ↦ some (none, fs)
      | some n ↦
          let (parent, filename) = parent_directory fs path in
          let fs' = set_inode n (init_inode (fs.inodes parent) (fs.inodes n)) fs in
          let size = (fs'.inodes parent).size in
          (do
            (written, fs'') ← add_to_directory (size + 1) fs' parent 0 size filename n
            some (if written then some n else none, fs''))
    ]
  ]

  abbrev pub finish_write : FileSystem → (n off count : ℕ) → Answer
  finish_write fs n off count =
      moved count (off + count) (set_inode n (record (fs.inodes n) { size = off + count }) fs)

  -- The numbers of bytes and of blocks are `int`s: `none` is one that an `int` does not hold.
  abbrev pub int_end : ℕ
  int_end = 2 ^ 31

  abbrev pub write_at : FileSystem → (n : ℕ) → List ℕ → (off : ℕ) → Option Answer
  write_at fs n buf off =
      let written = (do
        fs' ← write_loop (length buf) fs (fs.inodes n) buf (off / block_size) (off % block_size)
        some (finish_write fs' n off (length buf))) in
      if ltb (length buf) int_end && ltb (off / block_size) int_end then written else none

  -- `min_blockcount` without a result is the -1 of a full disk.
  pub write : FileSystem → FilePath → List ℕ → (off : ℕ) → Option Answer
  unfolding write_loop block_of create_inode
  write fs path buf off =
      let block_count = (off + length buf) / block_size + 1 in
      let answer : Option Answer = elim (min_blockcount fs path block_count) [
        | none ↦ some (refused enospc fs)
        | some fs' ↦ elim (get_inode fs' path) [
          | some n ↦ write_at fs' n buf off
          | none ↦ (do
            (made, fs'') ← create_inode fs' path
            elim made [ some n ↦ write_at fs'' n buf off | none ↦ some (refused enospc fs'') ])
        ]
      ] in
      if ltb block_count int_end then answer else none

  -- the decimal digits, on fuel above the number
  pub digits : (fuel : ℕ) → ℕ → List ℕ
  digits zero n = []
  digits (suc fuel) n =
      let front = digits fuel (n / 10) in
      if ltb n 10 then (48 + n) ∷ [] else front ++ ((48 + n % 10) ∷ [])

  -- how many blocks are free, and how many are used
  pub count_blocks : List ℕ → ℕ × ℕ
  count_blocks [] = (0, 0)
  count_blocks (b ∷ bs) =
      let (free, used) = count_blocks bs in if b == 0 then (free + 1, used) else (free, used + 1)

  -- "Free blocks: ", "Used blocks: "
  abbrev free_text : List ℕ
  free_text = 70 ∷ 114 ∷ 101 ∷ 101 ∷ 32 ∷ 98 ∷ 108 ∷ 111 ∷ 99 ∷ 107 ∷ 115 ∷ 58 ∷ 32 ∷ []

  abbrev used_text : List ℕ
  used_text = 85 ∷ 115 ∷ 101 ∷ 100 ∷ 32 ∷ 98 ∷ 108 ∷ 111 ∷ 99 ∷ 107 ∷ 115 ∷ 58 ∷ 32 ∷ []

  pub info_text : FileSystem → List ℕ
  unfolding digits count_blocks
  info_text fs =
      let (free, used) = count_blocks fs.data_map in
      free_text
      ++ (digits (free + 1) free ++ (10 ∷ used_text ++ (digits (used + 1) used ++ (10 ∷ []))))

  abbrev pub info_path : FilePath
  info_path = 105 ∷ 110 ∷ 102 ∷ 111 ∷ []

  -- The offset stays as it is, and `count` is not looked at.
  pub virtual_read : FileSystem → FilePath → (off : ℕ) → Answer × List ℕ
  unfolding info_text
  virtual_read fs path off =
      let text = drop off (info_text fs) in
      if str_eq path info_path then (moved (length text) off fs, text) else (refused enoent fs, [])

  -- `MIN(node->size - *off, count)`, a difference of unsigned numbers
  abbrev pub available : Inode → (off count : ℕ) → ℕ
  available node off count = min ((node.size + 2 ^ 64 - off) % 2 ^ 64) count

  abbrev pub read_at : FileSystem → (n : ℕ) → (count off : ℕ) → Option (Answer × List ℕ)
  read_at fs n count off = do
    let unread = available (fs.inodes n) off count
    buf ← read_loop unread fs (fs.inodes n) unread (off / block_size) (off % block_size)
    some (moved unread (off + unread) fs, buf)

  -- The answer, and what stands in the buffer.
  pub read : FileSystem → FilePath → (count off : ℕ) → Option (Answer × List ℕ)
  unfolding read_loop block_of virtual_read
  read fs path count off = elim (virtual_path path) [
    | some endpoint ↦ some (virtual_read fs endpoint off)
    | none ↦ elim (get_inode fs path) [
      | none ↦ some (refused enoent fs, [])
      | some n ↦ read_at fs n count off
    ]
  ]
