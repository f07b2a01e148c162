-- ===== src/ParallelMake/Parser/Entries.antt =====
-- The rules of a Makefile that is written out and then read by the loop of parallel_make/parser.c.
use cs.Prelude.{
  ℕ, ◌≡◌, refl, some, none, false, List, [], ◌∷◌, ◌++◌, map, arith, ap, sym, subst, ◌∙◌, ◌⊎◌, inl,
  inr,
}
use cs.Prelude.Chars.{str_eq, str_eq_sym}
use cs.MakefileText.Joined.{AreWords, spaced_out}
use cs.ParallelMake.{Text, rule_of, contains, GraphLibrary}
use cs.ParallelMake.Parser.{
  ok, ◌>>=◌, Parser, ensure_vertex, add_dependencies, rule_step, step, read_lines,
}
use cs.ParallelMake.Parser.Lines.{IsTarget, rule_text, recipe_text, classify-rule, words-spaced_out}
use cs.ParallelMake.Parser.Growth.{
  AreDistinct, Depends, add_dependencies-Depends, add_dependencies-own, Keeps, Keeps-refl,
  Keeps-trans, Keeps-same,
}
use cs.ParallelMake.Parser.Block.{AreTrimmed, numbered, recipes-Filled}

-- one rule of a Makefile
pub record Entry : Type 0 where
  pub target : Text
  pub deps : List Text
  pub commands : List Text

abbrev pub written_entry : Entry → List Text
written_entry e = rule_text e.target e.deps ∷ map recipe_text e.commands

abbrev pub written : List Entry → List Text
written [] = []
written (e ∷ es) = written_entry e ++ written es

pub record IsEntry (e : Entry) : Type 0 where
  pub named : IsTarget e.target
  pub spelled : AreWords e.deps
  pub distinct : AreDistinct e.deps
  pub trimmed : AreTrimmed e.commands

abbrev pub targets : List Entry → List Text
targets [] = []
targets (e ∷ es) = e.target ∷ targets es

-- Every rule of the Makefile can be written, and no target has two rules.
abbrev pub IsMakefile : List Entry → Type 0
IsMakefile [] = Unit
IsMakefile (e ∷ es) = IsEntry e × (contains (targets es) e.target ≡ false) × IsMakefile es

module _ (lib : GraphLibrary) where
  open lib use {Graph, get_value, neighbors}

  -- A target that no rule was written for: at most a dependency.
  pub record IsOpen (g : Graph) (t : Text) : Type 0 where
    pub value : (get_value g t ≡ none) ⊎ (get_value g t ≡ some (rule_of t))
    pub alone : neighbors g t ≡ []

  -- The graph has the entry, whatever the line is that stands in its state.
  pub record HasEntry (g : Graph) (e : Entry) : Type 0 where
    pub rule :
        (s : ℕ) × (get_value g e.target
          ≡ some (record { target = e.target; commands = e.commands; state = s }))
    pub links : neighbors g e.target ≡ e.deps

  -- What stays as it is about a target that no rule is read for.
  pub record Leaves (p p' : Parser lib) (j : Text) : Type 0 where
    pub keeps : Keeps lib p.graph p'.graph j
    pub links : neighbors p'.graph j ≡ neighbors p.graph j

  Leaves-trans :
      {p p' p'' : Parser lib} (j : Text) → Leaves p p' j → Leaves p' p'' j → Leaves p p'' j
  Leaves-trans j a b = record {
    keeps = Keeps-trans lib j a.keeps b.keeps;
    links = b.links ∙ a.links;
  }

  IsOpen-Leaves :
      {p p' : Parser lib} (j : Text) → Leaves p p' j → IsOpen p.graph j → IsOpen p'.graph j
  IsOpen-Leaves j l o = record {
    value = elim o.value [ inl e ↦ l.keeps.fresh e | inr e ↦ inr (l.keeps.kept (rule_of j) e) ];
    alone = l.links ∙ o.alone;
  }

  HasEntry-Leaves :
      {p p' : Parser lib} (e : Entry)
      → Leaves p p' e.target
      → HasEntry p.graph e
      → HasEntry p'.graph e
  HasEntry-Leaves e l h = record {
    rule =
        let (s, here) = h.rule in
        (s, l.keeps.kept (record { target = e.target; commands = e.commands; state = s }) here);
    links = l.links ∙ h.links;
  }

  -- One rule was read.
  pub record Taken (p : Parser lib) (e : Entry) (p' : Parser lib) : Type 0 where
    pub entry : HasEntry p'.graph e
    pub leaves : (j : Text) → str_eq e.target j ≡ false → Leaves p p' j
    pub quiet : p'.warnings ≡ p.warnings
    pub first_kept : (x : Text) → p.first_target ≡ some x → p'.first_target ≡ some x
    pub first_new :
        p.first_target ≡ none → get_value p.graph e.target ≡ none → p'.first_target ≡ some e.target

  step-rule :
      (t : Text) (deps : List Text) (p : Parser lib)
      → IsTarget t
      → AreWords deps
      → step lib (rule_text t deps) p ≡ ok (rule_step lib t (spaced_out deps) (numbered lib p))
  unfolding step
  step-rule t deps p named spelled = rw (classify-rule t deps named spelled, step) refl

  current-rule_step :
      (t dep_line : Text) (p : Parser lib) → (rule_step lib t dep_line p).curr_rule ≡ some t
  unfolding rule_step
  current-rule_step t dep_line p = refl

  closed-rule_step :
      (t dep_line : Text) (p : Parser lib) → (rule_step lib t dep_line p).in_command_block ≡ false
  unfolding rule_step
  closed-rule_step t dep_line p = refl

  quiet-rule_step :
      (t dep_line : Text) (p : Parser lib) → (rule_step lib t dep_line p).warnings ≡ p.warnings
  unfolding rule_step
  quiet-rule_step t dep_line p = refl

  first_kept-rule_step :
      (t dep_line : Text) (p : Parser lib) (x : Text)
      → p.first_target ≡ some x
      → (rule_step lib t dep_line p).first_target ≡ some x
  unfolding rule_step
  first_kept-rule_step t dep_line p x old = ground arith

  first_new-rule_step :
      (t dep_line : Text) (p : Parser lib)
      → p.first_target ≡ none
      → get_value p.graph t ≡ none
      → (rule_step lib t dep_line p).first_target ≡ some t
  unfolding rule_step
  first_new-rule_step t dep_line p old new = ground arith

  graph-rule_step :
      (t : Text) (deps : List Text) (p : Parser lib)
      → AreWords deps
      → (rule_step lib t (spaced_out deps) p).graph
        ≡ add_dependencies lib (ensure_vertex lib p.graph t) t deps
  unfolding rule_step
  graph-rule_step t deps p spelled =
      ap (add_dependencies lib (ensure_vertex lib p.graph t) t) (words-spaced_out deps spelled)

  -- the line of a rule, and then its commands
  pub take-entry :
      (e : Entry) (rest : List Text) (p : Parser lib)
      → IsEntry e
      → IsOpen p.graph e.target
      → (p' : Parser lib) × (read_lines lib (written_entry e ++ rest) p ≡ read_lines lib rest p')
        × Taken p e p'
  unfolding read_lines
  take-entry e rest p proper vacant =
      let t = e.target in
      let q = rule_step lib t (spaced_out e.deps) (numbered lib p) in
      let grown =
        subst (Depends lib p.graph t e.deps)
          (sym (graph-rule_step t e.deps (numbered lib p) proper.spelled))
          (add_dependencies-Depends lib p.graph t e.deps vacant.alone proper.distinct) in
      let own =
        ap (λ g. get_value g t) (graph-rule_step t e.deps (numbered lib p) proper.spelled)
        ∙ add_dependencies-own lib p.graph t e.deps vacant.alone proper.distinct vacant.value in
      let (p', read, f) =
        recipes-Filled lib e.commands rest q t [] 0 proper.trimmed
          (current-rule_step t (spaced_out e.deps) (numbered lib p)) own
          (inr (closed-rule_step t (spaced_out e.deps) (numbered lib p), refl)) in
      (
        p',
        ap (λ r. r >>= read_lines lib (map recipe_text e.commands ++ rest))
              (step-rule t e.deps p proper.named proper.spelled)
            ∙ read,
        record {
          entry = record { rule = f.filled; links = f.links t ∙ grown.own };
          leaves = λ j other. record {
            keeps = Keeps-trans lib j (grown.keeps j) (Keeps-same lib j (f.others j other));
            links = f.links j ∙ grown.others j other;
          };
          quiet = f.quiet ∙ quiet-rule_step t (spaced_out e.deps) (numbered lib p);
          first_kept =
              λ x old. f.first ∙ first_kept-rule_step t (spaced_out e.deps) (numbered lib p) x old;
          first_new = λ old new.
              f.first ∙ first_new-rule_step t (spaced_out e.deps) (numbered lib p) old new;
        },
      )

  abbrev pub AreOpen : Graph → List Entry → Type 0
  AreOpen g [] = Unit
  AreOpen g (e ∷ es) = IsOpen g e.target × AreOpen g es

  abbrev pub HasAll : Graph → List Entry → Type 0
  HasAll g [] = Unit
  HasAll g (e ∷ es) = HasEntry g e × HasAll g es

  AreOpen-Leaves :
      {p p' : Parser lib} (t : Text) (es : List Entry)
      → ((j : Text) → str_eq t j ≡ false → Leaves p p' j)
      → contains (targets es) t ≡ false
      → AreOpen p.graph es
      → AreOpen p'.graph es
  AreOpen-Leaves t [] leaves apart vacant = tt
  AreOpen-Leaves t (e ∷ es) leaves apart vacant =
      let same = str_eq_sym t e.target in
      (
        IsOpen-Leaves e.target (leaves e.target (ground arith)) vacant.0,
        AreOpen-Leaves t es leaves (ground arith) vacant.1,
      )

  -- The first rule that is read gives the first target, where there was none.
  abbrev FirstIs : Parser lib → List Entry → Parser lib → Type 0
  FirstIs p [] p' = Unit
  FirstIs p (e ∷ es) p' =
      p.first_target ≡ none → get_value p.graph e.target ≡ none → p'.first_target ≡ some e.target

  -- All rules were read.
  pub record TakenAll (p : Parser lib) (es : List Entry) (p' : Parser lib) : Type 0 where
    pub entries : HasAll p'.graph es
    pub leaves : (j : Text) → contains (targets es) j ≡ false → Leaves p p' j
    pub quiet : p'.warnings ≡ p.warnings
    pub first_kept : (x : Text) → p.first_target ≡ some x → p'.first_target ≡ some x
    pub first_new : FirstIs p es p'

  pub take-entries :
      (es : List Entry) (p : Parser lib)
      → IsMakefile es
      → AreOpen p.graph es
      → (p' : Parser lib) × (read_lines lib (written es) p ≡ ok p') × TakenAll p es p'
  unfolding read_lines
  take-entries [] p proper vacant = (
    p,
    refl,
    record {
      entries = tt;
      leaves = λ j apart. record { keeps = Keeps-refl lib p.graph j; links = refl };
      quiet = refl;
      first_kept = λ x old. old;
      first_new = tt;
    },
  )
  take-entries (e ∷ es) p proper vacant =
      let (p1, read, one) = take-entry e (written es) p proper.0 vacant.0 in
      let (p2, read_all, all) =
        take-entries es p1 proper.2 (AreOpen-Leaves e.target es one.leaves proper.1 vacant.1) in
      (
        p2,
        read ∙ read_all,
        record {
          entries = (HasEntry-Leaves e (all.leaves e.target proper.1) one.entry, all.entries);
          leaves =
              λ j apart. Leaves-trans j (one.leaves j (ground arith)) (all.leaves j (ground arith));
          quiet = all.quiet ∙ one.quiet;
          first_kept = λ x old. all.first_kept x (one.first_kept x old);
          first_new = λ old new. all.first_kept e.target (one.first_new old new);
        },
      )
