-- ===== src/Minixfs/Owner.antt =====
-- minixfs_chmod and minixfs_chown of finding_filesystems/minixfs.c.
use cs.Prelude.{ℕ, ◌≡◌, ◌≢◌, refl, some, true, false, ◌==◌, if◌then◌else◌, arith, ap, ◌/◌, ◌*◌, ◌^◌}
use Prim.Native.Nat.{bit_or}
use cs.Minixfs.{FilePath, Inode, FileSystem, set_inode, Library, keep_id, chmod, chown}

module _ (lib : Library) where
  open lib use {get_inode, rwx_bits}

  -- The inode `n` is another one, and everything else is as it was.
  pub record OnlyInode (fs : FileSystem) (n : ℕ) (node : Inode) (fs' : FileSystem) : Type 0 where
    pub here : fs'.inodes n ≡ node
    pub others : (m : ℕ) → m ≢ n → fs'.inodes m ≡ fs.inodes m
    pub bytes : fs'.bytes ≡ fs.bytes

  set_inode-OnlyInode :
      (fs : FileSystem) (n : ℕ) (node : Inode) → OnlyInode fs n node (set_inode n node fs)
  set_inode-OnlyInode fs n node = record {
    here = let e : (n == n) ≡ true = ground arith in ap (λ b. if b then node else fs.inodes n) e;
    others = λ m h.
        let e : (m == n) ≡ false = ground arith in ap (λ b. if b then node else fs.inodes m) e;
    bytes = refl;
  }

  -- `minixfs_chown` of a path that is found changes the owner and the group of its inode, each unless it is
  -- -1, and nothing else.
  pub chown_lem :
      (fs : FileSystem) (path : FilePath) (owner group n : ℕ)
      → get_inode fs path ≡ some n
      → (fs' : FileSystem) × (chown lib fs path owner group ≡ some fs')
        × OnlyInode fs n
            (record (fs.inodes n) {
              uid = if owner == keep_id lib then (fs.inodes n).uid else owner;
              gid = if group == keep_id lib then (fs.inodes n).gid else group;
            })
            fs'
  unfolding chown
  chown_lem fs path owner group n found = (_, rw (found, chown) refl, set_inode-OnlyInode fs n _)

  -- `minixfs_chmod` of a path that is found changes the permission bits of its inode, and nothing else.
  pub chmod_lem :
      (fs : FileSystem) (path : FilePath) (new_permissions n : ℕ)
      → get_inode fs path ≡ some n
      → (fs' : FileSystem) × (chmod lib fs path new_permissions ≡ some fs')
        × OnlyInode fs n
            (record (fs.inodes n) {
              mode = bit_or ((fs.inodes n).mode / 2 ^ rwx_bits * 2 ^ rwx_bits) new_permissions;
            })
            fs'
  unfolding chmod
  chmod_lem fs path new_permissions n found =
      (_, rw (found, chmod) refl, set_inode-OnlyInode fs n _)
