-- ===== src/MiniMemcheck/Tests.antt =====
-- mini_memcheck/mini_memcheck.c on two live blocks, with meta data of 40 bytes.
use cs.Prelude.{◌≡◌, ◌+◌, refl, none, some, List, [], ◌∷◌, arith, if◌then◌else◌, ◌==◌}
use cs.MiniMemcheck.{Memcheck, mini_malloc, mini_free, mini_realloc}
use cs.MiniMemcheck.Blocks.{locate, Block}
use cs.MiniMemcheck.Resize.{mini_realloc_same}
use cs.MiniMemcheck.Account.{IsBalanced, block, Freed, live, owns, mini_malloc_lem, mini_free_lem}

abbrev blocks : List Block
blocks = block 500 20 3 4 60 ∷ block 100 10 1 2 50 ∷ []

abbrev two_blocks : Memcheck
two_blocks = record {
  heap = λ a.
      if a == 500
      then some
          (record { request_size = 20; filename = 3; instruction = 4; next = 100; bytes = 60 })
      else if a == 100
      then some (record { request_size = 10; filename = 1; instruction = 2; next = 0; bytes = 50 })
      else none;
  head = 500;
  total_memory_requested = 35;
  total_memory_freed = 5;
  invalid_addresses = 0;
}

two_blocks-IsBalanced : IsBalanced two_blocks blocks
unfolding live
two_blocks-IsBalanced = record {
  is_live = record {
    linked = (omega arith, refl, refl, (omega arith, refl, refl, tt));
    head = refl;
  };
  balance = refl;
}

mini_malloc_lem_example :
    let (p, t) = mini_malloc 40 two_blocks 900 7 5 6 in
    (p ≡ 940) × IsBalanced t (block 900 7 5 6 47 ∷ blocks)
mini_malloc_lem_example =
    mini_malloc_lem 40 900 7 5 6 two_blocks-IsBalanced (omega arith) (omega arith) (omega arith)
      refl

-- the second block, which the first one points at
mini_free_lem_example :
    (t : Memcheck) × (mini_free 40 3 two_blocks 140 ≡ some t) × Freed 40 two_blocks 140 blocks t
unfolding owns
mini_free_lem_example =
    mini_free_lem 40 3 two_blocks 140 blocks two_blocks-IsBalanced (omega arith) (omega arith) refl

-- the second block, to the 10 bytes that it has
mini_realloc_same_example :
    (t : Memcheck) × (mini_realloc 40 3 two_blocks 140 900 900 10 7 8 ≡ some (100, t))
    × (100 + 40 ≡ 140)
    × (t.total_memory_requested ≡ 35)
    × (t.total_memory_freed ≡ 5)
    × (t.invalid_addresses ≡ 0)
unfolding locate
mini_realloc_same_example =
    mini_realloc_same 40 3 two_blocks 140 blocks 500 100
      (record { request_size = 10; filename = 1; instruction = 2; next = 0; bytes = 50 }) 900 900 7
      8 two_blocks-IsBalanced (omega arith) (omega arith) (omega arith) refl
