-- ===== src/Minixfs/ReadBack.antt =====
-- What is written to a file of finding_filesystems/minixfs.c is read back from it.
use cs.Prelude.{
  ℕ, zero, suc, ◌+◌, ◌-◌, ◌*◌, ◌/◌, ◌%◌, ◌^◌, ◌≤◌, ◌<◌, ◌≡◌, ◌≢◌, refl, min, Option, some, none,
  ◌==◌, true, false, ltb, ◌&&◌, if◌then◌else◌, List, ◌++◌, length, arith, ap, ◌∙◌, sym, ◌>>=◌,
}
use cs.Minixfs.{
  FilePath, Inode, FileSystem, Answer, moved, set_inode, load, Library, block_of, write_loop,
  read_loop, finish_write, write_at, write, available, read_at, read,
}
use cs.Minixfs.Blocks.{IsSeparate, write_loop_lem}

module _ (lib : Library) where
  open lib use {block_size, get_inode, virtual_path, min_blockcount}

  -- `fs'` is `fs` but for the size of the inode `n` and for the first `limit` blocks of its file.
  pub record DiffersInFile (fs : FileSystem) (n limit : ℕ) (fs' : FileSystem) : Type 0 where
    pub blocks :
        (b : ℕ)
        → ((i : ℕ) → i < limit → b ≢ block_of lib fs (fs.inodes n) i)
        → fs'.bytes b ≡ fs.bytes b
    pub others : (m : ℕ) → m ≢ n → fs'.inodes m ≡ fs.inodes m
    pub own : fs'.inodes n ≡ record (fs.inodes n) { size = (fs'.inodes n).size }

  -- Looking a path up reads directories, and no bytes of the file that it finds.
  abbrev pub LooksUp : FileSystem → FilePath → (n limit : ℕ) → Type 0
  LooksUp fs path n limit =
      (get_inode fs path ≡ some n)
      × ((fs' : FileSystem) → DiffersInFile fs n limit fs' → get_inode fs' path ≡ some n)

  -- The size of an inode is not looked at by the loop of a read.
  read_loop-set_inode :
      (fuel n s : ℕ) (x : Inode) (fs : FileSystem) (node : Inode) (unread bnum boff : ℕ)
      → read_loop lib fuel (set_inode n x fs) (record node { size = s }) unread bnum boff
        ≡ read_loop lib fuel fs node unread bnum boff
  unfolding read_loop block_of
  read_loop-set_inode fuel n s x fs node zero bnum boff = refl
  read_loop-set_inode zero n s x fs node (suc unread) bnum boff = refl
  read_loop-set_inode (suc fuel) n s x fs node (suc unread) bnum boff =
      let k = min (block_size - boff) (suc unread) in
      ap (λ r. r >>= λ rest. some (load (fs.bytes (block_of lib fs node bnum)) boff k ++ rest))
        (read_loop-set_inode fuel n s x fs node (suc unread - k) (bnum + 1) 0)

  write_found :
      (fs fs0 : FileSystem) (path : FilePath) (buf : List ℕ) (off n : ℕ)
      → min_blockcount fs path ((off + length buf) / block_size + 1) ≡ some fs0
      → get_inode fs0 path ≡ some n
      → (off + length buf) / block_size + 1 < 2 ^ 31
      → write lib fs path buf off ≡ write_at lib fs0 n buf off
  unfolding write
  write_found fs fs0 path buf off n room found small =
      let int : ltb ((off + length buf) / block_size + 1) (2 ^ 31) ≡ true = ground arith in
      rw (int, room, found, write) refl

  pub read_found :
      (fs : FileSystem) (path : FilePath) (count off n : ℕ)
      → virtual_path path ≡ none
      → get_inode fs path ≡ some n
      → read lib fs path count off ≡ read_at lib fs n count off
  unfolding read
  read_found fs path count off n real found = rw (real, found, read) refl

  -- a read of `unread` bytes of an inode
  abbrev read_some : FileSystem → (n off unread : ℕ) → Option (Answer × List ℕ)
  read_some fs n off unread = do
    buf ← read_loop lib unread fs (fs.inodes n) unread (off / block_size) (off % block_size)
    some (moved unread (off + unread) fs, buf)

  mod_small : (off : ℕ) → 0 < block_size → off % block_size < block_size
  mod_small off h = grind arith

  whole :
      (off count : ℕ)
      → off + count < 2 ^ 64
      → min ((off + count + 2 ^ 64 - off) % 2 ^ 64) count ≡ count
  whole off count h = omega arith

  ints :
      (buf : List ℕ) (off : ℕ)
      → length buf < 2 ^ 31
      → (off + length buf) / block_size + 1 < 2 ^ 31
      → (ltb (length buf) (2 ^ 31) && ltb (off / block_size) (2 ^ 31)) ≡ true
  ints buf off count blocks =
      let block : off / block_size ≤ (off + length buf) / block_size = grind arith in
      ground (arith, block, blocks)

  pub write-read_back :
      (fs fs0 : FileSystem) (path : FilePath) (buf : List ℕ) (off n limit : ℕ)
      → virtual_path path ≡ none
      → min_blockcount fs path ((off + length buf) / block_size + 1) ≡ some fs0
      → LooksUp fs0 path n limit
      → IsSeparate lib fs0 (fs0.inodes n) limit
      → 0 < block_size
      → off + length buf ≤ limit * block_size
      → off + length buf < 2 ^ 64
      → length buf < 2 ^ 31
      → (off + length buf) / block_size + 1 < 2 ^ 31
      → (fs' : FileSystem) × (write lib fs path buf off
          ≡ some (moved (length buf) (off + length buf) fs'))
        × (read lib fs' path (length buf) off
            ≡ some (moved (length buf) (off + length buf) fs', buf))
        × ((fs'.inodes n).size ≡ off + length buf)
        × DiffersInFile fs0 n limit fs'
  write-read_back fs fs0 path buf off n limit real room lookup separate positive inside small count
        blocks =
      let node = fs0.inodes n in
      let parts : off / block_size * block_size + off % block_size ≡ off = grind arith in
      let (fs1, done, w) =
        write_loop_lem lib (length buf) fs0 node limit buf (off / block_size) (off % block_size)
          (omega arith) (mod_small off positive) (omega arith) separate in
      let node' = record (fs1.inodes n) { size = off + length buf } in
      let fs' = set_inode n node' fs1 in
      let here : (n == n) ≡ true = ground arith in
      let at_n : fs'.inodes n ≡ node' = ap (λ b. if b then node' else fs1.inodes n) here in
      let same : fs1.inodes n ≡ node = ap (λ f. f n) w.inodes in
      let differs : DiffersInFile fs0 n limit fs' = record {
        blocks = λ b o. w.frame b (λ i low lim. o i lim);
        others = λ m ne.
            let other : (m == n) ≡ false = ground arith in
            ap (λ b. if b then node' else fs1.inodes m) other ∙ ap (λ f. f m) w.inodes;
        own =
            at_n
            ∙ ap (λ (x : Inode). let r : Inode = record x { size = off + length buf } in r) same
            ∙ sym (ap (λ (x : Inode). let r : Inode = record node { size = x.size } in r) at_n);
      } in
      let loops : read_loop lib (length buf) fs' (fs'.inodes n) (length buf) (off / block_size)
            (off % block_size)
          ≡ some buf =
        ap
          (λ x. read_loop lib (length buf) fs' x (length buf) (off / block_size) (off % block_size))
          at_n
        ∙ read_loop-set_inode (length buf) n (off + length buf) node' fs1 (fs1.inodes n)
            (length buf) (off / block_size) (off % block_size)
        ∙ ap
            (λ x.
              read_loop lib (length buf) fs1 x (length buf) (off / block_size) (off % block_size))
            same
        ∙ w.reads (length buf) (omega arith) in
      let wanted : available lib (fs'.inodes n) off (length buf) ≡ length buf =
        ap (λ x. available lib x off (length buf)) at_n ∙ whole off (length buf) small in
      (
        fs',
        write_found fs fs0 path buf off n room lookup.0 blocks
            ∙ ap
                (λ b.
                  if b
                  then (write_loop lib (length buf) fs0 node buf (off / block_size)
                        (off % block_size)
                      >>= λ f. some (finish_write lib f n off (length buf)))
                  else none)
                (ints buf off count blocks)
            ∙ ap (λ o. o >>= λ f. some (finish_write lib f n off (length buf))) done,
        read_found fs' path (length buf) off n real (lookup.1 fs' differs)
            ∙ ap (read_some fs' n off) wanted
            ∙ ap (λ o. o >>= λ b. some (moved (length buf) (off + length buf) fs', b)) loops,
        ap (λ (x : Inode). x.size) at_n,
        differs,
      )
