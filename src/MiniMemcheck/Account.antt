-- ===== src/MiniMemcheck/Account.antt =====
-- What each call of mini_memcheck/mini_memcheck.c does to the live blocks and to the counters.
use mathlib.Core.Bool.{false≢true}
use cs.Prelude.{
  ℕ, ◌+◌, ◌%◌, ◌^◌, ◌<◌, ◌%◌, ◌<◌, ◌≡◌, ◌≢◌, refl, none, some, ◌==◌, Bool, true, false, ◌||◌, List,
  [], ◌∷◌, length, arith, sym, subst, some_inj, none≢some, Bool-cases, inl, inr, ==_iff,
}
use cs.MiniMemcheck.{
  Ptr, null, Meta, Memcheck, write, size_mod, mini_malloc, mini_free, walk, unlink, release,
}
use cs.MiniMemcheck.Blocks.{
  Block, meta, first, has, frame, locate, remove, walk_lem, unlink_behind, IsLive, locate-has,
  has_ne_null,
}

-- the bytes that the live blocks were asked for
unfoldable pub live : List Block → ℕ
live [] = 0
live (b ∷ bs) = b.request_size + live bs

-- The counters balance: what was requested is what was freed and what is live, modulo 2 ^ 64.
pub record IsBalanced (s : Memcheck) (bs : List Block) : Type 0 where
  pub is_live : IsLive s bs
  pub balance : (s.total_memory_freed + live bs) % size_mod ≡ s.total_memory_requested % size_mod

abbrev pub block : (fresh request_size filename instruction bytes : ℕ) → Block
block fresh request_size filename instruction bytes = record {
  address = fresh;
  request_size = request_size;
  filename = filename;
  instruction = instruction;
  bytes = bytes;
}

module _ (meta_size : ℕ) {s : Memcheck} {bs : List Block} where
  -- On a state whose counters balance, a call of `mini_malloc` for a positive size that with the meta data is
  -- below 2 ^ 64, where `malloc`
  -- gives a fresh block, puts that block in front of the live ones, with room for the meta data and
  -- the request, keeps the balance, and returns the address behind the meta data.
  pub mini_malloc_lem :
      (fresh size file instruction : ℕ)
      → IsBalanced s bs
      → size ≢ 0
      → meta_size + size < 2 ^ 64
      → fresh ≢ null
      → has fresh bs ≡ false
      → let (p, t) = mini_malloc meta_size s fresh size file instruction in
        (p ≡ fresh + meta_size)
        × IsBalanced t (block fresh size file instruction (meta_size + size) ∷ bs)
  unfolding mini_malloc live
  mini_malloc_lem fresh size file instruction b ns small nf out =
      let size_test : (size == 0) ≡ false = ground arith in
      let fresh_test : (fresh == null) ≡ false = ground arith in
      let bytes : (meta_size + size) % 2 ^ 64 ≡ meta_size + size = omega (arith, small) in
      rw (size_test, fresh_test, bytes)
        (
          refl,
          record {
            is_live = record {
              linked = (
                nf,
                ground (arith, b.is_live.head),
                out,
                frame s.heap fresh _ bs b.is_live.linked out,
              );
              head = refl;
            };
            balance = omega (arith, b.balance);
          },
        )

module _ (meta_size : ℕ) where
  -- the payload is the user's pointer of a live block
  unfoldable pub owns : Ptr → List Block → Bool
  owns payload [] = false
  owns payload (b ∷ bs) = (payload == b.address + meta_size) || owns payload bs

  not_owned :
      (payload prev : Ptr) (bs : List Block)
      → owns payload bs ≡ false
      → locate meta_size payload prev bs ≡ none
  unfolding owns locate
  not_owned payload prev [] h = refl
  not_owned payload prev (b ∷ bs) h = ground (arith, not_owned payload b.address bs)

  -- the block that the walk finds for a live payload
  record Located (payload prev : Ptr) (bs : List Block) : Type 0 where
    before : Ptr
    at : Ptr
    found : Meta
    located : locate meta_size payload prev bs ≡ some (before, at, found)
    size : live bs ≡ found.request_size + live (remove meta_size payload bs)
    address : payload ≡ at + meta_size

  owned : (payload prev : Ptr) (bs : List Block) → owns payload bs ≡ true → Located payload prev bs
  unfolding owns locate remove live
  owned payload prev [] h = absurd (false≢true h)
  owned payload prev (b ∷ bs) h = elim (Bool-cases (payload == b.address + meta_size)) [
    | inl hit ↦ record {
      before = prev;
      at = b.address;
      found = meta b (first bs);
      located = rw hit;
      size = rw hit refl;
      address = (==_iff payload (b.address + meta_size)).0 hit;
    }
    | inr miss ↦
        let o = owned payload b.address bs (ground arith) in
        record {
          before = o.before;
          at = o.at;
          found = o.found;
          located = rw miss o.located;
          size = rw miss (omega (arith, o.size));
          address = o.address;
        }
  ]

  -- The outcome of freeing a live block.
  pub record Freed (s : Memcheck) (payload : Ptr) (bs : List Block) (t : Memcheck) : Type 0 where
    pub balanced : IsBalanced t (remove meta_size payload bs)
    pub gone : (a : Ptr) → payload ≡ a + meta_size → t.heap a ≡ none
    pub requested : t.total_memory_requested ≡ s.total_memory_requested
    pub invalid : t.invalid_addresses ≡ s.invalid_addresses

  abbrev Outcome : Memcheck → Ptr → List Block → Ptr × Ptr × Meta → Type 0
  Outcome s payload bs f = (t : Memcheck) × (release s (some f) ≡ some t) × Freed s payload bs t

  release_first :
      (s : Memcheck) (payload : Ptr) (c : Block) (bs : List Block)
      → IsBalanced s (c ∷ bs)
      → payload ≡ c.address + meta_size
      → (payload == c.address + meta_size) ≡ true
      → Outcome s payload (c ∷ bs) (null, c.address, meta c (first bs))
  unfolding release unlink remove live
  release_first s payload c bs b at hit = (
    record s {
      head = first bs;
      heap = write s.heap c.address none;
      total_memory_freed = (s.total_memory_freed + c.request_size) % size_mod;
    },
    refl,
    record {
      balanced = rw hit record {
        is_live = record {
          linked = frame s.heap c.address none bs b.is_live.linked.3 b.is_live.linked.2;
          head = refl;
        };
        balance = omega (arith, b.balance);
      };
      gone = λ a e. ground arith;
      requested = refl;
      invalid = refl;
    },
  )

  release_behind :
      (s : Memcheck) (payload q a : Ptr) (m : Meta) (c : Block) (bs : List Block)
      → IsBalanced s (c ∷ bs)
      → payload ≡ a + meta_size
      → (payload == c.address + meta_size) ≡ false
      → locate meta_size payload c.address bs ≡ some (q, a, m)
      → live bs ≡ m.request_size + live (remove meta_size payload bs)
      → Outcome s payload (c ∷ bs) (q, a, m)
  unfolding release unlink remove live
  release_behind s payload q a m c bs b at miss e size =
      let l = b.is_live.linked in
      let u = unlink_behind meta_size s.heap payload q a m c bs l e in
      let (in_a, in_q) = locate-has meta_size payload c.address q a m bs e in
      (
        record s {
          heap = write (write s.heap q (some (record (u.before) { next = m.next }))) a none;
          total_memory_freed = (s.total_memory_freed + m.request_size) % size_mod;
        },
        rw (has_ne_null s.heap q (c ∷ bs) l in_q, u.holds),
        record {
          balanced = rw miss record {
            is_live = record { linked = u.linked; head = b.is_live.head };
            balance = omega (arith, b.balance, size);
          };
          gone = λ p g. ground arith;
          requested = refl;
          invalid = refl;
        },
      )

  release_lem :
      (s : Memcheck) (payload : Ptr) (bs : List Block)
      → IsBalanced s bs
      → (q a : Ptr) (m : Meta) → locate meta_size payload null bs ≡ some (q, a, m)
      → payload ≡ a + meta_size
      → live bs ≡ m.request_size + live (remove meta_size payload bs)
      → Outcome s payload bs (q, a, m)
  unfolding locate
  release_lem s payload [] b q a m e at size = absurd (none≢some e)
  release_lem s payload (c ∷ bs) b q a m e at size =
      elim (Bool-cases (payload == c.address + meta_size)) [
        | inl hit ↦
            subst (Outcome s payload (c ∷ bs)) (some_inj (rw hit at e))
              (release_first s payload c bs b ((==_iff payload (c.address + meta_size)).0 hit) hit)
        | inr miss ↦
            release_behind s payload q a m c bs b at miss (rw miss at e)
              (size_behind c bs miss size)
      ]
    where
      size_behind :
          (d : Block) (ds : List Block)
          → (payload == d.address + meta_size) ≡ false
          → live (d ∷ ds) ≡ m.request_size + live (remove meta_size payload (d ∷ ds))
          → live ds ≡ m.request_size + live (remove meta_size payload ds)
      size_behind d ds miss g = unfold live remove in ground arith

  pub walk_live :
      (fuel : ℕ) (s : Memcheck) (payload : Ptr) (bs : List Block)
      → IsLive s bs
      → length bs < fuel
      → walk meta_size fuel s.heap payload null s.head ≡ some (locate meta_size payload null bs)
  walk_live fuel s payload bs is enough =
      subst
        (λ p. walk meta_size fuel s.heap payload null p ≡ some (locate meta_size payload null bs))
        (sym is.head) (walk_lem meta_size fuel s.heap payload null bs is.linked enough)

  -- On a state whose counters balance, with more fuel than there are live blocks, `mini_free` of the
  -- payload of a live block, other than NULL, takes that block off the live ones and counts its size
  -- as freed, with the balance kept.
  pub mini_free_lem :
      (fuel : ℕ) (s : Memcheck) (payload : Ptr) (bs : List Block)
      → IsBalanced s bs
      → length bs < fuel
      → payload ≢ null
      → owns payload bs ≡ true
      → (t : Memcheck) × (mini_free meta_size fuel s payload ≡ some t) × Freed s payload bs t
  unfolding mini_free
  mini_free_lem fuel s payload bs b enough ne own =
      let o = owned payload null bs own in
      let test : (payload == null) ≡ false = ground arith in
      let (t, r, freed) =
        release_lem s payload bs b o.before o.at o.found o.located o.address o.size in
      (t, rw (test, walk_live fuel s payload bs b.is_live enough, o.located) r, freed)

  -- `mini_free` of a pointer that is neither NULL nor the payload of a live block counts an invalid
  -- address and changes nothing else.
  pub mini_free_invalid :
      (fuel : ℕ) (s : Memcheck) (payload : Ptr) (bs : List Block)
      → IsBalanced s bs
      → length bs < fuel
      → payload ≢ null
      → owns payload bs ≡ false
      → mini_free meta_size fuel s payload
        ≡ some (record s { invalid_addresses = s.invalid_addresses + 1 })
  unfolding mini_free
  mini_free_invalid fuel s payload bs b enough ne lost =
      let test : (payload == null) ≡ false = ground arith in
      rw (test, walk_live fuel s payload bs b.is_live enough, not_owned payload null bs lost)
        (unfold release in refl)
