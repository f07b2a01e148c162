-- ===== src/ParallelMake/Parser/Block.antt =====
-- The commands behind a rule, for the loop of parallel_make/parser.c.
use cs.Prelude.{
  ℕ, ◌+◌, ◌≡◌, refl, some, is_some, Bool, true, false, if◌then◌else◌, List, [], ◌∷◌, ◌++◌, map, ap,
  sym, subst, ◌∙◌, append_assoc, append-nil, ◌⊎◌, inl, inr,
}
use cs.Prelude.Chars.{str_eq, str_eq_refl}
use cs.ParallelMake.{Text, Rule, GraphLibrary}
use cs.ParallelMake.Parser.{
  ok, ◌>>=◌, Parser, rule_at, mark, start_block, add_command, recipe_to, recipe_step, step,
  read_lines,
}
use cs.ParallelMake.Parser.Lines.{IsTrimmed, recipe_text, classify-recipe}

abbrev pub AreTrimmed : List Text → Type 0
AreTrimmed [] = Unit
AreTrimmed (c ∷ cs) = IsTrimmed c × AreTrimmed cs

module _ (lib : GraphLibrary) where
  open lib use {Graph, get_value, neighbors, write, get-write, neighbors-write}

  abbrev rule_with : Text → List Text → ℕ → Rule
  rule_with t commands s = record { target = t; commands = commands; state = s }

  -- The rule of `t` has these commands now; the rest of the graph, the first target and the warnings are
  -- as they were.
  pub record Filled (p : Parser lib) (t : Text) (commands : List Text) (p' : Parser lib)
      : Type 0 where
    pub current : p'.curr_rule ≡ some t
    pub quiet : p'.warnings ≡ p.warnings
    pub first : p'.first_target ≡ p.first_target
    pub filled :
        (s : ℕ) × (get_value p'.graph t
          ≡ some (record { target = t; commands = commands; state = s }))
    pub others : (j : Text) → str_eq t j ≡ false → get_value p'.graph j ≡ get_value p.graph j
    pub links : (j : Text) → neighbors p'.graph j ≡ neighbors p.graph j

  Filled-trans :
      {p p' p'' : Parser lib} {commands more : List Text} (t : Text)
      → Filled p t commands p'
      → Filled p' t more p''
      → Filled p t more p''
  Filled-trans t a b = record {
    current = b.current;
    quiet = b.quiet ∙ a.quiet;
    first = b.first ∙ a.first;
    filled = b.filled;
    others = λ j other. b.others j other ∙ a.others j other;
    links = λ j. b.links j ∙ a.links j;
  }

  -- The rule of `t` is written over, and `in_command_block` may change.
  abbrev over : Parser lib → Text → Rule → Bool → Parser lib
  over p t r inside = record p { graph = write p.graph t r; in_command_block = inside }

  over-Filled :
      (p : Parser lib) (t : Text) (commands : List Text) (s : ℕ) (inside : Bool)
      → p.curr_rule ≡ some t
      → is_some (get_value p.graph t) ≡ true
      → Filled p t commands (over p t (rule_with t commands s) inside)
  over-Filled p t commands s inside current there = record {
    current = current;
    quiet = refl;
    first = refl;
    filled = (
      s,
      get-write p.graph t (rule_with t commands s) t there
          ∙ ap (λ b. if b then some (rule_with t commands s) else get_value p.graph t)
              (str_eq_refl t),
    );
    others = λ j other.
        get-write p.graph t (rule_with t commands s) j there
        ∙ ap (λ b. if b then some (rule_with t commands s) else get_value p.graph j) other;
    links = λ j. neighbors-write p.graph t (rule_with t commands s) j;
  }

  -- A block is open, or the rule has no commands yet.
  abbrev pub IsReady : Parser lib → (state : ℕ) → Type 0
  IsReady p s = (p.in_command_block ≡ true) ⊎ ((p.in_command_block ≡ false) × (s ≡ 0))

  rule_at_here : (g : Graph) (t : Text) (r : Rule) → get_value g t ≡ some r → rule_at lib g t ≡ r
  rule_at_here g t r here = rw (here, rule_at) refl

  mark_fresh :
      (p : Parser lib) (t : Text) (commands : List Text) (s : ℕ)
      → s ≡ 0
      → mark lib p t (rule_with t commands s)
        ≡ over p t (rule_with t commands p.line_number) p.in_command_block
  mark_fresh p t commands s e =
      subst
        (λ n.
          mark lib p t (rule_with t commands n)
          ≡ over p t (rule_with t commands p.line_number) p.in_command_block)
        (sym e) refl

  start_block-Filled :
      (p : Parser lib) (t : Text) (commands : List Text) (s : ℕ)
      → p.curr_rule ≡ some t
      → get_value p.graph t ≡ some (rule_with t commands s)
      → IsReady p s
      → Filled p t commands (start_block lib t p)
  unfolding start_block
  start_block-Filled p t commands s current here (inl inside) =
      let marked = mark lib p t (rule_at lib p.graph t) in
      subst (Filled p t commands) (sym (ap (λ b. if b then p else marked) inside)) (record {
        current = current;
        quiet = refl;
        first = refl;
        filled = (s, here);
        others = λ j other. refl;
        links = λ j. refl;
      })
  start_block-Filled p t commands s current here (inr (outside, fresh)) =
      let marked = mark lib p t (rule_at lib p.graph t) in
      subst (Filled p t commands)
        (sym (
          ap (λ b. if b then p else marked) outside
          ∙ ap (mark lib p t) (rule_at_here p.graph t (rule_with t commands s) here)
          ∙ mark_fresh p t commands s fresh))
        (over-Filled p t commands p.line_number p.in_command_block current (ap is_some here))

  recipe_step_current :
      (c : Text) (p : Parser lib) (t : Text)
      → p.curr_rule ≡ some t
      → recipe_step lib c p
        ≡ ok (add_command lib c (start_block lib t p) t (rule_at lib (start_block lib t p).graph t))
  unfolding recipe_step recipe_to
  recipe_step_current c p t current = ap (λ o. recipe_to lib o c p) current

  recipe_one :
      (c : Text) (p : Parser lib) (t : Text) (commands : List Text) (s : ℕ)
      → p.curr_rule ≡ some t
      → get_value p.graph t ≡ some (rule_with t commands s)
      → IsReady p s
      → (p' : Parser lib) × (recipe_step lib c p ≡ ok p')
        × (p'.in_command_block ≡ true)
        × Filled p t (commands ++ c ∷ []) p'
  recipe_one c p t commands s current here ready =
      let q = start_block lib t p in
      let started = start_block-Filled p t commands s current here ready in
      let (s', now) = started.filled in
      (
        over q t (rule_with t (commands ++ c ∷ []) s') true,
        recipe_step_current c p t current
            ∙ ap (λ r. ok (add_command lib c q t r))
                (rule_at_here q.graph t (rule_with t commands s') now),
        refl,
        Filled-trans t started
            (over-Filled q t (commands ++ c ∷ []) s' true started.current (ap is_some now)),
      )

  -- the parser at the next line
  abbrev pub numbered : Parser lib → Parser lib
  numbered p = record p { line_number = p.line_number + 1 }

  Filled-numbered :
      {p p' : Parser lib} {t : Text} {commands : List Text}
      → Filled (numbered p) t commands p'
      → Filled p t commands p'
  Filled-numbered f = record {
    current = f.current;
    quiet = f.quiet;
    first = f.first;
    filled = f.filled;
    others = f.others;
    links = f.links;
  }

  step-recipe :
      (c : Text) (p : Parser lib)
      → IsTrimmed c
      → step lib (recipe_text c) p ≡ recipe_step lib c (numbered p)
  unfolding step
  step-recipe c p t = rw (classify-recipe c t, step) refl

  -- The lines with commands behind a rule add them to it.
  pub recipes-Filled :
      (cs rest : List Text) (p : Parser lib) (t : Text) (commands : List Text) (s : ℕ)
      → AreTrimmed cs
      → p.curr_rule ≡ some t
      → get_value p.graph t ≡ some (rule_with t commands s)
      → IsReady p s
      → (p' : Parser lib) × (read_lines lib (map recipe_text cs ++ rest) p ≡ read_lines lib rest p')
        × Filled p t (commands ++ cs) p'
  unfolding read_lines
  recipes-Filled [] rest p t commands s trimmed current here ready = (
    p,
    refl,
    record {
      current = current;
      quiet = refl;
      first = refl;
      filled = (s, here ∙ ap (λ l. some (rule_with t l s)) (sym (append-nil commands)));
      others = λ j other. refl;
      links = λ j. refl;
    },
  )
  recipes-Filled (c ∷ cs) rest p t commands s trimmed current here ready =
      let (p1, done, inside, one) = recipe_one c (numbered p) t commands s current here ready in
      let (s1, now) = one.filled in
      let (p2, read, more) =
        recipes-Filled cs rest p1 t (commands ++ c ∷ []) s1 trimmed.1 one.current now
          (inl inside) in
      (
        p2,
        ap (λ r. r >>= read_lines lib (map recipe_text cs ++ rest))
              (step-recipe c p trimmed.0 ∙ done)
            ∙ read,
        subst (λ l. Filled p t l p2) (append_assoc commands (c ∷ []) cs)
            (Filled-trans t (Filled-numbered one) more),
      )
