-- ===== src/MiniMemcheck/Resize.antt =====
-- mini_realloc of mini_memcheck/mini_memcheck.c for a live block.
use cs.Prelude.{
  ℕ, ◌+◌, ◌<◌, ◌≡◌, ◌≢◌, refl, some, ◌==◌, true, false, List, [], ◌∷◌, length, arith, Bool-cases,
  inl, inr, some_inj, none≢some, ap,
}
use cs.MiniMemcheck.{Ptr, null, Meta, Memcheck, write, resize, resize_live, mini_realloc}
use cs.MiniMemcheck.Blocks.{Block, meta, first, locate}
use cs.MiniMemcheck.Account.{IsBalanced, walk_live}

module _ (meta_size : ℕ) where
  locate_address :
      (payload prev q a : Ptr) (m : Meta) (bs : List Block)
      → locate meta_size payload prev bs ≡ some (q, a, m)
      → a + meta_size ≡ payload
  unfolding locate
  locate_address payload prev q a m [] e = absurd (none≢some e)
  locate_address payload prev q a m (b ∷ bs) e =
      elim (Bool-cases (payload == b.address + meta_size)) [
        | inl hit ↦
            let same : ◌≡◌ {A = Ptr × Ptr × Meta} (prev, b.address, meta b (first bs)) (q, a, m) =
              some_inj (rw hit at e) in
            let at_block : b.address ≡ a = ap (λ f. f.1) same in ground (arith, at_block, hit)
        | inr miss ↦ locate_address payload b.address q a m bs (rw miss at e)
      ]

  -- On a state whose counters balance, with more fuel than there are live blocks, `mini_realloc` of
  -- a live block to the positive size that it has keeps every counter, and returns the address of
  -- its meta data in place of the payload behind it.
  pub mini_realloc_same :
      (fuel : ℕ) (s : Memcheck) (payload : Ptr) (bs : List Block)
      → (q a : Ptr) (m : Meta) (fresh moved filename instruction : ℕ) → IsBalanced s bs
      → length bs < fuel
      → payload ≢ null
      → m.request_size ≢ 0
      → locate meta_size payload null bs ≡ some (q, a, m)
      → (t : Memcheck) × (mini_realloc meta_size fuel s payload fresh moved m.request_size filename
            instruction
          ≡ some (a, t))
        × (a + meta_size ≡ payload)
        × (t.total_memory_requested ≡ s.total_memory_requested)
        × (t.total_memory_freed ≡ s.total_memory_freed)
        × (t.invalid_addresses ≡ s.invalid_addresses)
  unfolding mini_realloc resize_live resize
  mini_realloc_same fuel s payload bs q a m fresh moved filename instruction b enough ne positive
        e =
      let here : (payload == null) ≡ false = ground arith in
      let some_size : (m.request_size == 0) ≡ false = ground arith in
      let equal : (m.request_size == m.request_size) ≡ true = ground arith in
      (
        record s {
          heap =
              write s.heap a (some (record m { filename = filename; instruction = instruction }));
        },
        rw (here, some_size, walk_live meta_size fuel s payload bs b.is_live enough, e, equal) refl,
        locate_address payload null q a m bs e,
        refl,
        refl,
        refl,
      )
