-- ===== src/Minixfs/Blocks.antt =====
-- The loops of finding_filesystems/minixfs.c over the blocks of a file.
use cs.Prelude.{
  ℕ, zero, suc, ◌+◌, ◌-◌, ◌*◌, ◌≤◌, ◌<◌, ◌≡◌, ◌≢◌, refl, min, some, Bool, true, false, ◌==◌, ltb,
  leb, ◌&&◌, if◌then◌else◌, List, [], ◌∷◌, length, take, drop, get_or, arith, ap, ap₂, ◌∙◌, sym,
  subst, length-take, length-drop, take-append-drop,
}
use native.Mathlib.Nat.{lt_of_mul-lt-mul_right, mul-le-mul_right}
use cs.Minixfs.{Inode, FileSystem, store, load, Library, number_at, block_of, write_loop, read_loop}

load-agree :
    (f g : ℕ → ℕ) (at count : ℕ)
    → ((k : ℕ) → at ≤ k → f k ≡ g k)
    → load f at count ≡ load g at count
load-agree f g at zero h = refl
load-agree f g at (suc count) h =
    ap₂ ◌∷◌ (h at (omega arith)) (load-agree f g (at + 1) count (λ k l. h k (omega arith)))

-- what a chunk reads as where it was put
abbrev chunk_at : (at : ℕ) → List ℕ → (ℕ → ℕ) → ℕ → ℕ
chunk_at at chunk old k =
    if leb at k && ltb k (at + length chunk) then get_or chunk (k - at) 0 else old k

abbrev stored : Bool → (at : ℕ) → List ℕ → (ℕ → ℕ) → ℕ → ℕ
stored here at chunk old k =
    if here && leb at k && ltb k (at + length chunk) then get_or chunk (k - at) 0 else old k

load-chunk_at :
    (at : ℕ) (chunk : List ℕ) (old : ℕ → ℕ) → load (chunk_at at chunk old) at (length chunk) ≡ chunk
load-chunk_at at [] old = refl
load-chunk_at at (c ∷ cs) old =
    let first : chunk_at at (c ∷ cs) old at ≡ c =
      (let zero_off : at - at ≡ 0 = omega arith in rw zero_off (ground arith)) in
    ap₂ ◌∷◌ first (
      load-agree (chunk_at at (c ∷ cs) old) (chunk_at (at + 1) cs old) (at + 1) (length cs)
        (λ k l. let next : k - at ≡ suc (k - (at + 1)) = omega arith in rw next (ground arith))
      ∙ load-chunk_at (at + 1) cs old)

module _ (lib : Library) where
  open lib use {block_size, direct_blocks}

  -- The first `limit` blocks of the file are different blocks, and none of them is its indirect block.
  pub record IsSeparate (fs : FileSystem) (node : Inode) (limit : ℕ) : Type 0 where
    pub apart :
        (i j : ℕ) → i < limit → j < limit → i ≢ j → block_of lib fs node i ≢ block_of lib fs node j
    pub off_table : (i : ℕ) → i < limit → block_of lib fs node i ≢ node.indirect

  block_of_same :
      (fs fs' : FileSystem) (node : Inode) (i : ℕ)
      → fs'.bytes node.indirect ≡ fs.bytes node.indirect
      → block_of lib fs' node i ≡ block_of lib fs node i
  unfolding block_of
  block_of_same fs fs' node i e =
      ap
        (λ table.
          if ltb i direct_blocks then node.direct i else number_at lib table (i - direct_blocks))
        e

  store_other :
      (block at : ℕ) (chunk : List ℕ) (fs : FileSystem) (b : ℕ)
      → b ≢ block
      → (store block at chunk fs).bytes b ≡ fs.bytes b
  store_other block at chunk fs b ne =
      let test : (b == block) ≡ false = ground arith in
      ap (λ (t : Bool). stored t at chunk (fs.bytes b)) test

  store_same :
      (block at : ℕ) (chunk : List ℕ) (fs : FileSystem)
      → (store block at chunk fs).bytes block ≡ chunk_at at chunk (fs.bytes block)
  store_same block at chunk fs =
      let test : (block == block) ≡ true = ground arith in
      ap (λ (t : Bool). stored t at chunk (fs.bytes block)) test

  IsSeparate-agree :
      {fs fs' : FileSystem} {node : Inode} {limit : ℕ}
      → fs'.bytes node.indirect ≡ fs.bytes node.indirect
      → IsSeparate fs node limit
      → IsSeparate fs' node limit
  IsSeparate-agree {fs} {fs'} {node} e h =
      let same = λ (i : ℕ). block_of_same fs fs' node i e in
      record {
        apart = λ i j li lj ne q. h.apart i j li lj ne (sym (same i) ∙ q ∙ same j);
        off_table = λ i l q. h.off_table i l (sym (same i) ∙ q);
      }

  -- What the loop of a write leaves: the blocks of the file from `bnum` on are all that may differ, and a
  -- read from the same place gives the bytes.
  pub record Written (fs : FileSystem) (node : Inode) (limit : ℕ) (buf : List ℕ) (bnum boff : ℕ)
      (fs' : FileSystem) : Type 0 where
    pub inodes : fs'.inodes ≡ fs.inodes
    pub frame :
        (b : ℕ)
        → ((i : ℕ) → bnum ≤ i → i < limit → b ≢ block_of lib fs node i)
        → fs'.bytes b ≡ fs.bytes b
    pub reads :
        (fuel : ℕ)
        → length buf ≤ fuel
        → read_loop lib fuel fs' node (length buf) bnum boff ≡ some buf

  inside_limit :
      (bnum limit rest : ℕ) → bnum * block_size + suc rest ≤ limit * block_size → bnum < limit
  inside_limit bnum limit rest h = lt_of_mul-lt-mul_right block_size (omega arith)

  next_block :
      (bnum limit : ℕ)
      → bnum < limit
      → (bnum * block_size + block_size ≤ limit * block_size)
        × ((bnum + 1) * block_size ≡ bnum * block_size + block_size)
  next_block bnum limit h =
      let whole : (bnum + 1) * block_size ≤ limit * block_size =
        mul-le-mul_right block_size (omega arith) in
      let parts : (bnum + 1) * block_size ≡ bnum * block_size + block_size = grind arith in
      (omega arith, parts)

  -- a read of a first chunk, and of the others behind it
  read_chunk :
      (fuel : ℕ) (fs : FileSystem) (node : Inode) (c : ℕ) (cs : List ℕ) (bnum boff n : ℕ)
      → n ≡ min (block_size - boff) (suc (length cs))
      → length (c ∷ cs) ≤ fuel
      → boff < block_size
      → load (fs.bytes (block_of lib fs node bnum)) boff n ≡ take n (c ∷ cs)
      → ((f : ℕ)
          → length (drop n (c ∷ cs)) ≤ f
          → read_loop lib f fs node (length (drop n (c ∷ cs))) (bnum + 1) 0
            ≡ some (drop n (c ∷ cs)))
      → read_loop lib fuel fs node (length (c ∷ cs)) bnum boff ≡ some (c ∷ cs)
  unfolding read_loop
  read_chunk zero fs node c cs bnum boff n e enough inside here rest = absurd (omega arith)
  read_chunk (suc fuel) fs node c cs bnum boff n e enough inside here rest =
      let size : length (drop n (c ∷ cs)) ≡ suc (length cs) - n = length-drop n (c ∷ cs) in
      let behind : read_loop lib fuel fs node (suc (length cs) - n) (bnum + 1) 0
          ≡ some (drop n (c ∷ cs)) =
        subst (λ k. read_loop lib fuel fs node k (bnum + 1) 0 ≡ some (drop n (c ∷ cs))) size
          (rest fuel (omega arith)) in
      rw (sym e, behind, here) (ap some (take-append-drop n (c ∷ cs)))

  pub write_loop_lem :
      (fuel : ℕ) (fs : FileSystem) (node : Inode) (limit : ℕ) (buf : List ℕ) (bnum boff : ℕ)
      → length buf ≤ fuel
      → boff < block_size
      → bnum * block_size + boff + length buf ≤ limit * block_size
      → IsSeparate fs node limit
      → (fs' : FileSystem) × (write_loop lib fuel fs node buf bnum boff ≡ some fs')
        × Written fs node limit buf bnum boff fs'
  unfolding write_loop read_loop
  write_loop_lem fuel fs node limit [] bnum boff enough inside room h =
      (fs, refl, record { inodes = refl; frame = λ b o. refl; reads = λ f l. refl })
  write_loop_lem zero fs node limit (c ∷ cs) bnum boff enough inside room h = absurd (omega arith)
  write_loop_lem (suc fuel) fs node limit (c ∷ cs) bnum boff enough inside room h =
      let n = min (block_size - boff) (suc (length cs)) in
      let chunk = take n (c ∷ cs) in
      let block = block_of lib fs node bnum in
      let fs1 = store block boff chunk fs in
      let here : bnum < limit = inside_limit bnum limit (boff + length cs) (omega arith) in
      let table : fs1.bytes node.indirect ≡ fs.bytes node.indirect =
        store_other block boff chunk fs node.indirect (λ e. h.off_table bnum here (sym e)) in
      let size : length chunk ≡ n = omega (arith, length-take n (c ∷ cs)) in
      let (fs', done, w) =
        write_loop_lem fuel fs1 node limit (drop n (c ∷ cs)) (bnum + 1) 0
          (omega (arith, length-drop n (c ∷ cs))) (omega arith)
          (omega (arith, length-drop n (c ∷ cs), next_block bnum limit here))
          (IsSeparate-agree {fs = fs} {fs' = fs1} table h) in
      let table' : fs'.bytes node.indirect ≡ fs.bytes node.indirect =
        w.frame node.indirect
          (λ i low lim e. h.off_table i lim (sym (e ∙ block_of_same fs fs1 node i table)))
        ∙ table in
      let kept : fs'.bytes block ≡ fs1.bytes block = w.frame block (λ i low lim e.
        h.apart bnum i here lim (omega arith) (e ∙ block_of_same fs fs1 node i table)) in
      let first : load (fs'.bytes (block_of lib fs' node bnum)) boff n ≡ chunk =
        ap (λ b. load (fs'.bytes b) boff n) (block_of_same fs fs' node bnum table')
        ∙ ap (λ f. load f boff n) (kept ∙ store_same block boff chunk fs)
        ∙ ap (load (chunk_at boff chunk (fs.bytes block)) boff) (sym size)
        ∙ load-chunk_at boff chunk (fs.bytes block) in
      (
        fs',
        done,
        record {
          inodes = w.inodes;
          frame = λ b others.
              w.frame b
                (λ i low lim e. others i (omega arith) lim (e ∙ block_of_same fs fs1 node i table))
              ∙ store_other block boff chunk fs b (others bnum (omega arith) here);
          reads = λ f l. read_chunk f fs' node c cs bnum boff n refl l inside first w.reads;
        },
      )
