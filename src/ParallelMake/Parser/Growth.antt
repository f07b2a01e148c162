-- ===== src/ParallelMake/Parser/Growth.antt =====
-- How the graph grows while parallel_make/parser.c reads a line with a rule.
use cs.Prelude.{
  ◌≡◌, refl, some, none, is_some, true, false, ◌||◌, if◌then◌else◌, List, [], ◌∷◌, ◌++◌, arith, ap,
  sym, subst, ◌∙◌, append_assoc, append-nil, ◌⊎◌, inl, inr, Option-cases, Bool-cases, none≢some,
}
use cs.Prelude.Chars.{str_eq, str_eq_sound, str_eq_refl, str_eq_sym}
use cs.ParallelMake.{Text, Rule, rule_of, contains, GraphLibrary}
use cs.ParallelMake.Parser.{contains_vertex, ensure_vertex, add_dependencies}

-- No string stands twice on the list.
abbrev pub AreDistinct : List Text → Type 0
AreDistinct [] = Unit
AreDistinct (x ∷ xs) = (contains xs x ≡ false) × AreDistinct xs

-- None of the second list is on the first.
abbrev AreOutside : (xs ds : List Text) → Type 0
AreOutside xs [] = Unit
AreOutside xs (d ∷ ds) = (contains xs d ≡ false) × AreOutside xs ds

contains-snoc :
    (xs : List Text) (d t : Text) → contains (xs ++ d ∷ []) t ≡ contains xs t || str_eq d t
contains-snoc [] d t = ground arith
contains-snoc (x ∷ xs) d t = ground (arith, contains-snoc xs d t)

AreOutside-snoc :
    (xs ds : List Text) (d : Text)
    → AreOutside xs ds
    → contains ds d ≡ false
    → AreOutside (xs ++ d ∷ []) ds
AreOutside-snoc xs [] d out apart = tt
AreOutside-snoc xs (e ∷ ds) d out apart = (
  contains-snoc xs d e ∙ (let here = out.0 in let same = str_eq_sym d e in ground arith),
  AreOutside-snoc xs ds d out.1 (ground arith),
)

AreOutside-nil : (ds : List Text) → AreOutside [] ds
AreOutside-nil [] = tt
AreOutside-nil (d ∷ ds) = (refl, AreOutside-nil ds)

module _ (lib : GraphLibrary) where
  open lib use {
    Graph, get_value, neighbors, set_value, add_edge, get-set, neighbors-set, get-add_edge,
    neighbors-add_edge,
  }

  -- A rule that is there stays as it is, and a key that is not may get a fresh rule.
  pub record Keeps (g g' : Graph) (j : Text) : Type 0 where
    pub kept : (r : Rule) → get_value g j ≡ some r → get_value g' j ≡ some r
    pub fresh : get_value g j ≡ none → (get_value g' j ≡ none) ⊎ (get_value g' j ≡ some (rule_of j))

  pub Keeps-refl : (g : Graph) (j : Text) → Keeps g g j
  Keeps-refl g j = record { kept = λ r e. e; fresh = λ e. inl e }

  pub Keeps-trans : {g g' g'' : Graph} (j : Text) → Keeps g g' j → Keeps g' g'' j → Keeps g g'' j
  Keeps-trans j k k' = record {
    kept = λ r e. k'.kept r (k.kept r e);
    fresh = λ e. elim (k.fresh e) [ inl f ↦ k'.fresh f | inr f ↦ inr (k'.kept (rule_of j) f) ];
  }

  pub Keeps-same : {g g' : Graph} (j : Text) → get_value g' j ≡ get_value g j → Keeps g g' j
  Keeps-same j e = record { kept = λ r f. e ∙ f; fresh = λ f. inl (e ∙ f) }

  pub Keeps-is_some :
      {g g' : Graph} (j : Text)
      → Keeps g g' j
      → contains_vertex lib g j ≡ true
      → contains_vertex lib g' j ≡ true
  Keeps-is_some {g} {g'} j k there = elim (Option-cases (get_value g j)) [
    | inl e ↦ let no : is_some (get_value g j) ≡ false = ap is_some e in cc
    | inr (r, e) ↦ ap is_some (k.kept r e)
  ]

  ensure_new :
      (g : Graph) (k : Text)
      → get_value g k ≡ none
      → ensure_vertex lib g k ≡ set_value g k (rule_of k)
  ensure_new g k e = ap (λ o. if is_some o then g else set_value g k (rule_of k)) e

  ensure_old :
      (g : Graph) (k : Text) (r : Rule) → get_value g k ≡ some r → ensure_vertex lib g k ≡ g
  ensure_old g k r e = ap (λ o. if is_some o then g else set_value g k (rule_of k)) e

  set_new-Keeps :
      (g : Graph) (k j : Text) → get_value g k ≡ none → Keeps g (set_value g k (rule_of k)) j
  set_new-Keeps g k j e = elim (Bool-cases (str_eq k j)) [
    | inl same ↦
        let here : k ≡ j = str_eq_sound k j same in
        let gone : get_value g j ≡ none = subst (λ x. get_value g x ≡ none) here e in
        let now : get_value (set_value g k (rule_of k)) j ≡ some (rule_of j) =
          get-set g k (rule_of k) j
          ∙ ap (λ b. if b then some (rule_of k) else get_value g j) same
          ∙ ap (λ x. some (rule_of x)) here in
        record { kept = λ r f. absurd (none≢some (sym gone ∙ f)); fresh = λ f. inr now }
    | inr other ↦
        Keeps-same j (
          get-set g k (rule_of k) j ∙ ap (λ b. if b then some (rule_of k) else get_value g j) other)
  ]

  pub ensure-Keeps : (g : Graph) (k j : Text) → Keeps g (ensure_vertex lib g k) j
  ensure-Keeps g k j = elim (Option-cases (get_value g k)) [
    | inl e ↦ subst (λ g'. Keeps g g' j) (sym (ensure_new g k e)) (set_new-Keeps g k j e)
    | inr (r, e) ↦ subst (λ g'. Keeps g g' j) (sym (ensure_old g k r e)) (Keeps-refl g j)
  ]

  pub neighbors-ensure :
      (g : Graph) (k j : Text) → neighbors (ensure_vertex lib g k) j ≡ neighbors g j
  neighbors-ensure g k j = elim (Option-cases (get_value g k)) [
    | inl e ↦ ap (λ g'. neighbors g' j) (ensure_new g k e) ∙ neighbors-set g k (rule_of k) j e
    | inr (r, e) ↦ ap (λ g'. neighbors g' j) (ensure_old g k r e)
  ]

  pub ensure-contains :
      (g : Graph) (k : Text) → contains_vertex lib (ensure_vertex lib g k) k ≡ true
  ensure-contains g k = elim (Option-cases (get_value g k)) [
    | inl e ↦
        ap (λ g'. is_some (get_value g' k)) (ensure_new g k e)
        ∙ ap is_some (
            get-set g k (rule_of k) k
            ∙ ap (λ b. if b then some (rule_of k) else get_value g k) (str_eq_refl k))
    | inr (r, e) ↦ ap (λ g'. is_some (get_value g' k)) (ensure_old g k r e) ∙ ap is_some e
  ]

  ensure-own :
      (g : Graph) (k : Text)
      → (get_value g k ≡ none) ⊎ (get_value g k ≡ some (rule_of k))
      → get_value (ensure_vertex lib g k) k ≡ some (rule_of k)
  ensure-own g k (inl e) =
      ap (λ g'. get_value g' k) (ensure_new g k e)
      ∙ get-set g k (rule_of k) k
      ∙ ap (λ b. if b then some (rule_of k) else get_value g k) (str_eq_refl k)
  ensure-own g k (inr e) = ap (λ g'. get_value g' k) (ensure_old g k (rule_of k) e) ∙ e

  -- The graph `g'` is `g` with edges from `t` to the keys `ds`, and with the vertices that these need.
  pub record Linked (g : Graph) (t : Text) (ds : List Text) (g' : Graph) : Type 0 where
    pub keeps : (j : Text) → Keeps g g' j
    pub own : neighbors g' t ≡ neighbors g t ++ ds
    pub others : (j : Text) → str_eq t j ≡ false → neighbors g' j ≡ neighbors g j

  add_one :
      (g : Graph) (t d : Text)
      → contains_vertex lib g t ≡ true
      → contains (neighbors g t) d ≡ false
      → Linked g t (d ∷ []) (add_edge (ensure_vertex lib g d) t d)
  add_one g t d there new =
      let g1 = ensure_vertex lib g d in
      let t_in = Keeps-is_some t (ensure-Keeps g d t) there in
      let d_in = ensure-contains g d in
      record {
        keeps = λ j.
            Keeps-trans j (ensure-Keeps g d j) (Keeps-same j (get-add_edge g1 t d j t_in d_in));
        own =
            neighbors-add_edge g1 t d t t_in d_in
            ∙ ap
                (λ b.
                  if b
                  then (if contains (neighbors g1 t) d
                      then neighbors g1 t
                      else neighbors g1 t ++ (d ∷ []))
                  else neighbors g1 t)
                (str_eq_refl t)
            ∙ ap (λ ns. if contains ns d then ns else ns ++ (d ∷ [])) (neighbors-ensure g d t)
            ∙ ap (λ b. if b then neighbors g t else neighbors g t ++ (d ∷ [])) new;
        others = λ j other.
            neighbors-add_edge g1 t d j t_in d_in
            ∙ ap
                (λ b.
                  if b
                  then (if contains (neighbors g1 t) d
                      then neighbors g1 t
                      else neighbors g1 t ++ (d ∷ []))
                  else neighbors g1 j)
                other
            ∙ neighbors-ensure g d j;
      }

  pub add_dependencies-Linked :
      (g : Graph) (t : Text) (ds : List Text)
      → contains_vertex lib g t ≡ true
      → AreDistinct ds
      → AreOutside (neighbors g t) ds
      → Linked g t ds (add_dependencies lib g t ds)
  unfolding add_dependencies
  add_dependencies-Linked g t [] there distinct out = record {
    keeps = Keeps-refl g;
    own = sym (append-nil (neighbors g t));
    others = λ j other. refl;
  }
  add_dependencies-Linked g t (d ∷ ds) there distinct out =
      let g1 = add_edge (ensure_vertex lib g d) t d in
      let one = add_one g t d there out.0 in
      let rest = add_dependencies-Linked g1 t ds (Keeps-is_some t (one.keeps t) there) distinct.1 (
        subst (λ ns. AreOutside ns ds) (sym one.own)
          (AreOutside-snoc (neighbors g t) ds d out.1 distinct.0)) in
      record {
        keeps = λ j. Keeps-trans j (one.keeps j) (rest.keeps j);
        own = rest.own ∙ ap (λ ns. ns ++ ds) one.own ∙ append_assoc (neighbors g t) (d ∷ []) ds;
        others = λ j other. rest.others j other ∙ one.others j other;
      }

  -- The dependencies of a key that has none yet.
  pub record Depends (g : Graph) (t : Text) (ds : List Text) (g' : Graph) : Type 0 where
    pub keeps : (j : Text) → Keeps g g' j
    pub own : neighbors g' t ≡ ds
    pub others : (j : Text) → str_eq t j ≡ false → neighbors g' j ≡ neighbors g j

  pub add_dependencies-Depends :
      (g : Graph) (t : Text) (ds : List Text)
      → neighbors g t ≡ []
      → AreDistinct ds
      → Depends g t ds (add_dependencies lib (ensure_vertex lib g t) t ds)
  add_dependencies-Depends g t ds alone distinct =
      let g1 = ensure_vertex lib g t in
      let none_yet : neighbors g1 t ≡ [] = neighbors-ensure g t t ∙ alone in
      let l =
        add_dependencies-Linked g1 t ds (ensure-contains g t) distinct
          (subst (λ ns. AreOutside ns ds) (sym none_yet) (AreOutside-nil ds)) in
      record {
        keeps = λ j. Keeps-trans j (ensure-Keeps g t j) (l.keeps j);
        own = l.own ∙ ap (λ ns. ns ++ ds) none_yet;
        others = λ j other. l.others j other ∙ neighbors-ensure g t j;
      }

  -- The key itself is there with its fresh rule.
  pub add_dependencies-own :
      (g : Graph) (t : Text) (ds : List Text)
      → neighbors g t ≡ []
      → AreDistinct ds
      → (get_value g t ≡ none) ⊎ (get_value g t ≡ some (rule_of t))
      → get_value (add_dependencies lib (ensure_vertex lib g t) t ds) t ≡ some (rule_of t)
  add_dependencies-own g t ds alone distinct value =
      let g1 = ensure_vertex lib g t in
      let none_yet : neighbors g1 t ≡ [] = neighbors-ensure g t t ∙ alone in
      let l =
        add_dependencies-Linked g1 t ds (ensure-contains g t) distinct
          (subst (λ ns. AreOutside ns ds) (sym none_yet) (AreOutside-nil ds)) in
      (l.keeps t).kept (rule_of t) (ensure-own g t value)
