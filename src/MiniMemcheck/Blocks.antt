-- ===== src/MiniMemcheck/Blocks.antt =====
-- The list of live blocks of mini_memcheck/mini_memcheck.c: what the walk finds in it, and unlinking.
use mathlib.Core.Bool.{false≢true}
use cs.Prelude.{
  ℕ, zero, suc, ◌+◌, ◌<◌, ◌≡◌, ◌≢◌, refl, Option, none, some, ◌==◌, if◌then◌else◌, Bool, true,
  false, ◌||◌, List, [], ◌∷◌, length, arith, ◌∙◌, sym, subst, some_inj, none≢some, Bool-cases, inl,
  inr, ==_iff,
}
use cs.MiniMemcheck.{Ptr, null, Meta, Heap, Memcheck, Found, write, walk}

-- a live block: its address, and its meta data but for the link
pub record Block : Type 0 where
  pub address : Ptr
  pub request_size : ℕ
  pub filename : ℕ
  pub instruction : ℕ
  pub bytes : ℕ

abbrev pub meta : Block → Ptr → Meta
meta b next = record {
  request_size = b.request_size;
  filename = b.filename;
  instruction = b.instruction;
  next = next;
  bytes = b.bytes;
}

abbrev pub first : List Block → Ptr
first [] = null
first (b ∷ bs) = b.address

abbrev pub has : Ptr → List Block → Bool
has a [] = false
has a (b ∷ bs) = (a == b.address) || has a bs

abbrev pub Linked : Heap → List Block → Type 0
Linked h [] = Unit
Linked h (b ∷ bs) =
    (b.address ≢ null)
    × (h b.address ≡ some (meta b (first bs)))
    × (has b.address bs ≡ false)
    × Linked h bs

pub apart : (a b : Ptr) (bs : List Block) → has a bs ≡ false → has b bs ≡ true → (a == b) ≡ false
apart a b bs out inside = elim (Bool-cases (a == b)) [
  | inl same ↦
      absurd
        (false≢true (sym out ∙ subst (λ p. has p bs ≡ true) (sym ((==_iff a b).0 same)) inside))
  | inr other ↦ other
]

pub frame :
    (h : Heap) (p : Ptr) (c : Option Meta) (bs : List Block)
    → Linked h bs
    → has p bs ≡ false
    → Linked (write h p c) bs
frame h p c [] l out = tt
frame h p c (b ∷ bs) l out = (l.0, ground (arith, l.1), l.2, frame h p c bs l.3 (ground arith))

pub has_ne_null :
    (h : Heap) (a : Ptr) (bs : List Block) → Linked h bs → has a bs ≡ true → (a == null) ≡ false
has_ne_null h a [] l e = absurd (false≢true e)
has_ne_null h a (b ∷ bs) l e = ground (arith, has_ne_null h a bs l.3, l.0)

module _ (meta_size : ℕ) where
  -- the first block with the payload, and the address before it
  unfoldable pub locate : (payload prev : Ptr) → List Block → Found
  locate payload prev [] = none
  locate payload prev (b ∷ bs) =
      if payload == b.address + meta_size
      then some (prev, b.address, meta b (first bs))
      else locate payload b.address bs

  -- the blocks without the first one with the payload
  unfoldable pub remove : Ptr → List Block → List Block
  remove payload [] = []
  remove payload (b ∷ bs) = if payload == b.address + meta_size then bs else b ∷ remove payload bs

  pub walk_lem :
      (fuel : ℕ) (h : Heap) (payload prev : Ptr) (bs : List Block)
      → Linked h bs
      → length bs < fuel
      → walk meta_size fuel h payload prev (first bs) ≡ some (locate payload prev bs)
  unfolding walk locate
  walk_lem zero h payload prev bs l enough = elim enough [ ]
  walk_lem (suc fuel) h payload prev [] l enough = refl
  walk_lem (suc fuel) h payload prev (b ∷ bs) l enough =
      let test : (b.address == null) ≡ false = ground arith in
      elim (Bool-cases (payload == b.address + meta_size)) [
        | inl hit ↦ rw (test, l.1) (rw hit)
        | inr miss ↦
            rw (test, l.1) (rw miss (walk_lem fuel h payload b.address bs l.3 (omega arith)))
      ]

  pub locate-has :
      (payload prev q a : Ptr) (m : Meta) (bs : List Block)
      → locate payload prev bs ≡ some (q, a, m)
      → (has a bs ≡ true) × (((q == prev) || has q bs) ≡ true)
  unfolding locate
  locate-has payload prev q a m [] e = absurd (none_some e)
    where
      none_some : ◌≡◌ {A = Found} none (some (q, a, m)) → ⊥
      none_some h = cc
  locate-has payload prev q a m (b ∷ bs) e = elim (Bool-cases (payload == b.address + meta_size)) [
    | inl hit ↦ ground arith
    | inr miss ↦ ground (arith, locate-has payload b.address q a m bs)
  ]

  pub has-remove :
      (a payload : Ptr) (bs : List Block) → has a bs ≡ false → has a (remove payload bs) ≡ false
  unfolding remove
  has-remove a payload [] out = refl
  has-remove a payload (b ∷ bs) out = ground (arith, has-remove a payload bs)

  -- Taking the block `a` out from behind `q` leaves the list of the other blocks.
  pub record Unlinked (h : Heap) (q a : Ptr) (m : Meta) (bs : List Block) : Type 0 where
    pub before : Meta
    pub holds : h q ≡ some before
    pub linked : Linked (write (write h q (some (record before { next = m.next }))) a none) bs

  pub unlink_behind :
      (h : Heap) (payload q a : Ptr) (m : Meta) (c : Block) (bs : List Block)
      → Linked h (c ∷ bs)
      → locate payload c.address bs ≡ some (q, a, m)
      → Unlinked h q a m (c ∷ remove payload bs)
  unfolding locate remove
  unlink_behind h payload q a m c [] l e = absurd (none≢some e)
  unlink_behind h payload q a m c (b ∷ bs) l e =
      elim (Bool-cases (payload == b.address + meta_size)) [
        | inl hit ↦
            let same : ◌≡◌ {A = Ptr × Ptr × Meta} (c.address, b.address, meta b (first bs))
                (q, a, m) =
              some_inj (rw hit at e) in
            rw hit (
              subst (λ (f : Ptr × Ptr × Meta). Unlinked h f.0 f.1 f.2 (c ∷ bs)) same
                record {
                  before = meta c b.address;
                  holds = l.1;
                  linked = (
                    l.0,
                    ground (arith, l.2),
                    ground (arith, l.2),
                    frame _ b.address none bs
                        (frame h c.address (some (meta c (first bs))) bs l.3.3
                          (ground (arith, l.2)))
                        l.3.2,
                  );
                })
        | inr miss ↦
            let e' = rw miss at e in
            let u = unlink_behind h payload q a m b bs l.3 e' in
            let (in_a, in_q) = locate-has payload b.address q a m bs e' in
            let not_q = apart c.address q (b ∷ bs) l.2 in_q in
            let not_a = apart c.address a (b ∷ bs) l.2 (ground arith) in
            rw miss record {
              before = u.before;
              holds = u.holds;
              linked = (
                l.0,
                rw (not_a, not_q) l.1,
                ground (arith, l.2, has-remove c.address payload bs),
                u.linked,
              );
            }
      ]

-- The list of live blocks that the state stands for.
pub record IsLive (s : Memcheck) (bs : List Block) : Type 0 where
  pub linked : Linked s.heap bs
  pub head : s.head ≡ first bs
