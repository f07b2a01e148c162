-- ===== src/ParallelMake/Parser/RoundTrip.antt =====
-- A whole Makefile that is written out and then parsed by parallel_make/parser.c.
use cs.Prelude.{
  ◌≡◌, refl, some, none, is_some, Bool, true, false, ◌||◌, if◌then◌else◌, List, [], ◌∷◌, ◌++◌,
  length, ◌<◌, arith, ap, sym, ◌∙◌, inl, inr, Bool-cases,
}
use cs.Prelude.Chars.{str_eq, str_eq_sound, str_eq_refl, str_eq_sym}
use cs.ParallelMake.{Text, Rule, rule_of, contains, GraphLibrary}
use cs.ParallelMake.Parser.{
  ok, stop, no_rule, ◌>>=◌, Parser, opened, start, contains_vertex, rule_at, read_lines, add_goals,
  zero_out, zero_out_states, choose_goals, finish, parse_makefile, open_makefile,
}
use cs.ParallelMake.Parser.Entries.{
  Entry, written, HasEntry, targets, IsMakefile, AreOpen, HasAll, take-entries,
}

module _ (lib : GraphLibrary) where
  open lib use {
    Graph, create, vertices, get_value, neighbors, set_value, write, add_edge, get-create,
    neighbors-create, contains-vertices, get-set, neighbors-set, get-write, neighbors-write,
    get-add_edge, neighbors-add_edge,
  }

  abbrev zeroed : Rule → Rule
  zeroed r = record r { state = 0 }

  rule_at_here : (g : Graph) (t : Text) (r : Rule) → get_value g t ≡ some r → rule_at lib g t ≡ r
  rule_at_here g t r here = rw (here, rule_at) refl

  contains-write :
      (g : Graph) (t : Text) (r : Rule) (k : Text)
      → contains_vertex lib g t ≡ true
      → contains_vertex lib g k ≡ true
      → contains_vertex lib (write g t r) k ≡ true
  contains-write g t r k there known = ap is_some (get-write g t r k there) ∙ either (str_eq t k)
    where
      either : (b : Bool) → is_some (if b then some r else get_value g k) ≡ true
      either true = refl
      either false = known

  get-zero_out :
      (ts : List Text) (g : Graph) (j : Text) (r : Rule)
      → ((t : Text) → contains ts t ≡ true → contains_vertex lib g t ≡ true)
      → get_value g j ≡ some r
      → get_value (zero_out lib g ts) j ≡ some (if contains ts j then zeroed r else r)
  unfolding zero_out
  get-zero_out [] g j r known here = here
  get-zero_out (t ∷ ts) g j r known here =
      let r' = zeroed (rule_at lib g t) in
      let g1 = write g t r' in
      let there = known t (let e = str_eq_refl t in ground arith) in
      let known' : (k : Text) → contains ts k ≡ true → contains_vertex lib g1 k ≡ true =
        (λ k on. contains-write g t r' k there (known k (ground arith))) in
      elim (Bool-cases (str_eq t j)) [
        | inl same ↦
            let at : rule_at lib g t ≡ r =
              ap (rule_at lib g) (str_eq_sound t j same) ∙ rule_at_here g j r here in
            let now : get_value g1 j ≡ some (zeroed r) =
              get-write g t r' j there
              ∙ ap (λ b. if b then some r' else get_value g j) same
              ∙ ap (λ (x : Rule). some (zeroed x)) at in
            get-zero_out ts g1 j (zeroed r) known' now
            ∙ both_ways (contains ts j) (str_eq t j) r same
        | inr other ↦
            get-zero_out ts g1 j r known' (
              get-write g t r' j there
              ∙ ap (λ b. if b then some r' else get_value g j) other
              ∙ here)
            ∙ ap (λ b. some (if b || contains ts j then zeroed r else r)) (sym other)
      ]
    where
      both_ways :
          (a b : Bool) (r : Rule)
          → b ≡ true
          → some (if a then zeroed (zeroed r) else zeroed r) ≡ some (if b || a then zeroed r else r)
      both_ways true b r e = ap (λ c. some (if c || true then zeroed r else r)) (sym e)
      both_ways false b r e = ap (λ c. some (if c || false then zeroed r else r)) (sym e)

  neighbors-zero_out :
      (ts : List Text) (g : Graph) (j : Text) → neighbors (zero_out lib g ts) j ≡ neighbors g j
  unfolding zero_out
  neighbors-zero_out [] g j = refl
  neighbors-zero_out (t ∷ ts) g j =
      let r = record (rule_at lib g t) { state = 0 } in
      neighbors-zero_out ts (write g t r) j ∙ neighbors-write g t r j

  get-zero_out_states :
      (g : Graph) (j : Text) (r : Rule)
      → get_value g j ≡ some r
      → get_value (zero_out_states lib g) j ≡ some (zeroed r)
  unfolding zero_out_states
  get-zero_out_states g j r here =
      get-zero_out (vertices g) g j r (λ t on. sym (contains-vertices g t) ∙ on) here
      ∙ ap (λ b. some (if b then zeroed r else r)) (contains-vertices g j ∙ ap is_some here)

  -- The entry of a rule in the graph that is returned.
  pub record Stands (g : Graph) (e : Entry) : Type 0 where
    pub rule :
        get_value g e.target ≡ some (record { target = e.target; commands = e.commands; state = 0 })
    pub links : neighbors g e.target ≡ e.deps

  abbrev pub AllStand : Graph → List Entry → Type 0
  AllStand g [] = Unit
  AllStand g (e ∷ es) = Stands g e × AllStand g es

  -- the graph with an edge to its goal, and with its states at zero
  abbrev closed : Graph → Text → Graph
  closed g goal = zero_out_states lib (add_edge g [] goal)

  neighbors-zero_out_states :
      (g : Graph) (j : Text) → neighbors (zero_out_states lib g) j ≡ neighbors g j
  unfolding zero_out_states
  neighbors-zero_out_states g j = neighbors-zero_out (vertices g) g j

  abbrev grown : List Text → Text → List Text
  grown ns goal = if contains ns goal then ns else ns ++ (goal ∷ [])

  closed-Stands :
      (g : Graph) (goal : Text) (e : Entry)
      → contains_vertex lib g [] ≡ true
      → contains_vertex lib g goal ≡ true
      → str_eq [] e.target ≡ false
      → HasEntry lib g e
      → Stands (closed g goal) e
  closed-Stands g goal e root there apart h =
      let (s, here) = h.rule in
      record {
        rule =
            get-zero_out_states (add_edge g [] goal) e.target
              (record { target = e.target; commands = e.commands; state = s })
              (get-add_edge g [] goal e.target root there ∙ here);
        links =
            neighbors-zero_out_states (add_edge g [] goal) e.target
            ∙ neighbors-add_edge g [] goal e.target root there
            ∙ ap (λ b. if b then grown (neighbors g []) goal else neighbors g e.target) apart
            ∙ h.links;
      }

  nonempty : (t : Text) → 0 < length t → str_eq [] t ≡ false
  unfolding str_eq
  nonempty [] h = absurd (omega arith)
  nonempty (c ∷ cs) h = refl

  AllStand-closed :
      (g : Graph) (goal : Text) (es : List Entry)
      → contains_vertex lib g [] ≡ true
      → contains_vertex lib g goal ≡ true
      → IsMakefile es
      → HasAll lib g es
      → AllStand (closed g goal) es
  AllStand-closed g goal [] root there proper h = tt
  AllStand-closed g goal (e ∷ es) root there proper h = (
    closed-Stands g goal e root there (nonempty e.target proper.0.named.word.0) h.0,
    AllStand-closed g goal es root there proper.2 h.1,
  )

  -- the graph with the sentinel alone
  abbrev sentinel : Graph
  sentinel = set_value create [] (rule_of [])

  sentinel-root : get_value sentinel [] ≡ some (rule_of [])
  sentinel-root =
      get-set create [] (rule_of []) []
      ∙ ap (λ b. if b then some (rule_of []) else get_value create []) (str_eq_refl [])

  sentinel-none : (t : Text) → 0 < length t → get_value sentinel t ≡ none
  sentinel-none t h =
      get-set create [] (rule_of []) t
      ∙ ap (λ b. if b then some (rule_of []) else get_value create t) (nonempty t h)
      ∙ get-create t

  sentinel-alone : (t : Text) → neighbors sentinel t ≡ []
  sentinel-alone t = neighbors-set create [] (rule_of []) t (get-create []) ∙ neighbors-create t

  sentinel-AreOpen : (es : List Entry) → IsMakefile es → AreOpen lib sentinel es
  sentinel-AreOpen [] proper = tt
  sentinel-AreOpen (e ∷ es) proper = (
    record {
      value = inl (sentinel-none e.target proper.0.named.word.0);
      alone = sentinel-alone e.target;
    },
    sentinel-AreOpen es proper.2,
  )

  outside : (es : List Entry) → IsMakefile es → contains (targets es) [] ≡ false
  unfolding str_eq
  outside [] proper = refl
  outside (e ∷ es) proper =
      let rest = outside es proper.2 in
      let apart = str_eq_sym e.target [] ∙ nonempty e.target proper.0.named.word.0 in ground arith

  finish_lem :
      (p : Parser lib) (goal : Text)
      → p.first_target ≡ some goal
      → contains_vertex lib p.graph goal ≡ true
      → p.warnings ≡ []
      → finish lib p [] ≡ ok (closed p.graph goal, [])
  unfolding finish choose_goals add_goals
  finish_lem p goal first there quiet =
      let close = λ (g : Graph). ok (zero_out_states lib g, p.warnings) in
      ap (λ o. choose_goals lib [] o >>= λ ts. add_goals lib p.graph ts >>= close) first
      ∙ ap (λ b. (if b then ok (add_edge p.graph [] goal) else stop (no_rule goal)) >>= close) there
      ∙ ap (λ w. ok (closed p.graph goal, w)) quiet

  parse_read :
      (lines : List Text) (p : Parser lib)
      → read_lines lib lines (start lib) ≡ ok p
      → parse_makefile lib (opened lines) [] ≡ finish lib p []
  unfolding parse_makefile open_makefile
  parse_read lines p e = ap (λ r. r >>= λ q. finish lib q []) e

  -- The lines of a Makefile whose rules are written out, with different targets, are parsed without a
  -- warning. In the graph each target has its commands and exactly its dependencies, in order, and state
  -- 0; the sentinel leads to the first target alone, as the goal.
  pub parse-written :
      (e : Entry) (es : List Entry)
      → IsMakefile (e ∷ es)
      → (g : Graph) × (parse_makefile lib (opened (written (e ∷ es))) [] ≡ ok (g, []))
        × AllStand g (e ∷ es)
        × (neighbors g [] ≡ e.target ∷ [])
  parse-written e es proper =
      let all_es = e ∷ es in
      let (p, read, taken) =
        take-entries lib all_es (start lib) proper (sentinel-AreOpen all_es proper) in
      let root_left = taken.leaves [] (outside all_es proper) in
      let root : contains_vertex lib p.graph [] ≡ true =
        ap is_some (root_left.keeps.kept (rule_of []) sentinel-root) in
      let there : contains_vertex lib p.graph e.target ≡ true = ap is_some taken.entries.0.rule.1 in
      let first = taken.first_new refl (sentinel-none e.target proper.0.named.word.0) in
      (
        closed p.graph e.target,
        parse_read (written all_es) p read ∙ finish_lem p e.target first there taken.quiet,
        AllStand-closed p.graph e.target all_es root there proper taken.entries,
        neighbors-zero_out_states (add_edge p.graph [] e.target) []
            ∙ neighbors-add_edge p.graph [] e.target [] root there
            ∙ ap (λ b. if b then grown (neighbors p.graph []) e.target else neighbors p.graph [])
                (str_eq_refl [])
            ∙ ap (λ ns. grown ns e.target) (root_left.links ∙ sentinel-alone []),
      )
