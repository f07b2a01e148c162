-- ===== src/Minixfs/Sizes.antt =====
-- How many bytes minixfs_read of finding_filesystems/minixfs.c returns.
use cs.Prelude.{
  ℕ, zero, suc, ◌+◌, ◌-◌, ◌/◌, ◌%◌, ◌^◌, ◌≤◌, ◌<◌, ◌≡◌, refl, min, Option, some, none, List, [],
  ◌++◌, length, arith, ap, sym, subst, ◌>>=◌, length-append,
}
use cs.Minixfs.{
  FilePath, Inode, FileSystem, Answer, moved, load, Library, block_of, read_loop, available,
  read_at, read,
}
use cs.Minixfs.ReadBack.{read_found}

length-load : (block : ℕ → ℕ) (at count : ℕ) → length (load block at count) ≡ count
length-load block at zero = refl
length-load block at (suc count) = ap suc (length-load block (at + 1) count)

available_inside :
    (size off count : ℕ)
    → off ≤ size
    → size < 2 ^ 63
    → min ((size + 2 ^ 64 - off) % 2 ^ 64) count ≡ min (size - off) count
available_inside size off count inside low = omega arith

available_outside :
    (size off count : ℕ)
    → size < off
    → off < 2 ^ 63
    → count < 2 ^ 31
    → min ((size + 2 ^ 64 - off) % 2 ^ 64) count ≡ count
available_outside size off count outside low count_low = omega arith

module _ (lib : Library) where
  open lib use {block_size, get_inode, virtual_path}

  abbrev Reads : Option (List ℕ) → ℕ → Type 0
  Reads o count = (buf : List ℕ) × (o ≡ some buf) × (length buf ≡ count)

  read_loop-Reads :
      (fuel : ℕ) (fs : FileSystem) (node : Inode) (unread bnum boff : ℕ)
      → unread ≤ fuel
      → boff < block_size
      → Reads (read_loop lib fuel fs node unread bnum boff) unread
  unfolding read_loop
  read_loop-Reads fuel fs node zero bnum boff enough inside = ([], refl, refl)
  read_loop-Reads zero fs node (suc unread) bnum boff enough inside = absurd (omega arith)
  read_loop-Reads (suc fuel) fs node (suc unread) bnum boff enough inside =
      let n = min (block_size - boff) (suc unread) in
      let front = load (fs.bytes (block_of lib fs node bnum)) boff n in
      let (buf, got, many) =
        read_loop-Reads fuel fs node (suc unread - n) (bnum + 1) 0 (omega arith) (omega arith) in
      (
        front ++ buf,
        ap (λ o. o >>= λ rest. some (front ++ rest)) got,
        omega (
          arith,
          length-append front buf,
          length-load (fs.bytes (block_of lib fs node bnum)) boff n,
          many,
        ),
      )

  -- The answer is `count` bytes of the file, which is unchanged, and the buffer has as many.
  abbrev pub Gives : FileSystem → (off : ℕ) → Option (Answer × List ℕ) → (count : ℕ) → Type 0
  Gives fs off o count =
      (buf : List ℕ) × (o ≡ some (moved count (off + count) fs, buf)) × (length buf ≡ count)

  read_at-Gives :
      (fs : FileSystem) (n count off : ℕ)
      → 0 < block_size
      → Gives fs off (read_at lib fs n count off) (available lib (fs.inodes n) off count)
  read_at-Gives fs n count off positive =
      let unread = available lib (fs.inodes n) off count in
      let (buf, got, many) =
        read_loop-Reads unread fs (fs.inodes n) unread (off / block_size) (off % block_size)
          (omega arith) (grind arith) in
      (buf, ap (λ o. o >>= λ b. some (moved unread (off + unread) fs, b)) got, many)

  pub read_lem :
      (fs : FileSystem) (path : FilePath) (count off n : ℕ)
      → virtual_path path ≡ none
      → get_inode fs path ≡ some n
      → 0 < block_size
      → off < 2 ^ 63
      → (fs.inodes n).size < 2 ^ 63
      → count < 2 ^ 31
      → (off ≤ (fs.inodes n).size
          → Gives fs off (read lib fs path count off) (min ((fs.inodes n).size - off) count))
        × ((fs.inodes n).size < off → Gives fs off (read lib fs path count off) count)
  read_lem fs path count off n real found positive low size_low count_low =
      let size = (fs.inodes n).size in
      let all = read_at-Gives fs n count off positive in
      let step = λ (k : ℕ) (e : available lib (fs.inodes n) off count ≡ k).
        subst (λ o. Gives fs off o k) (sym (read_found lib fs path count off n real found))
          (subst (Gives fs off (read_at lib fs n count off)) e all) in
      (
        λ inside. step (min (size - off) count) (available_inside size off count inside size_low),
        λ outside. step count (available_outside size off count outside low count_low),
      )
