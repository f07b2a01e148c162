-- ===== src/ParallelMake/Parser.antt =====
-- parallel_make/parser.c: the loop over the lines of a Makefile, over any graph library.
-- The lines are what getline returns, and have no null byte; there are fewer than 2 ^ 31 of them.
pub mod Lines
pub mod Growth
pub mod Block
pub mod Entries
pub mod RoundTrip
use cs.Prelude.{
  ℕ, zero, suc, ◌+◌, ◌-◌, ◌≡◌, Option, none, some, is_some, Bool, true, false, ◌==◌, ◌&&◌,
  if◌then◌else◌, List, [], ◌∷◌, ◌++◌, length, take, drop, get_or,
}
use cs.MakefileText.{
  is_makefile_target, skip_whitespace, terminate_whitespace, strip_back_whitespace,
  strip_back_comments, split_line_on_spaces,
}
use cs.ParallelMake.{Text, Rule, rule_of, GraphLibrary}

-- The messages with which the program exits, with the line they name.
pub data Stop : Type 0 where
  no_makefile no_such_file no_targets : Stop
  recipe_commences missing_separator : (line_number : ℕ) → Stop
  no_rule : (target : Text) → Stop

pub data Result (A : Type 0) : Type 0 where
  ok : A → Result A
  stop : Stop → Result A

infixl 5 ◌>>=◌
abbrev pub ◌>>=◌ : {A B : Type 0} → Result A → (A → Result B) → Result B
ok a >>= f = f a
stop s >>= f = stop s

-- What one line of a Makefile is.
pub data Line : Type 0 where
  blank : Line
  recipe : (command : Text) → Line
  rule : (target dep_line : Text) → Line
  malformed : Line

-- A line without its newline and a carriage return in front of that.
unfoldable pub chomp : Text → Text
chomp line_buf =
    let len = length line_buf - 1 in
    let line = take len line_buf in
    if get_or line_buf len 0 == 10
    then (if get_or line (len - 1) 0 == 13 then take (len - 1) line else line)
    else line_buf

-- `strstr(line, ":")`: the place of the first colon
unfoldable pub find_colon : Text → Option ℕ
find_colon [] = none
find_colon (c ∷ cs) =
    let further : Option ℕ = elim (find_colon cs) [ none ↦ none | some i ↦ some (suc i) ] in
    if c == 58 then some 0 else further

unfoldable pub rule_line : Text → Line
unfolding find_colon terminate_whitespace
rule_line line = elim (find_colon line) [
  | none ↦ malformed
  | some colon ↦ rule (terminate_whitespace (take colon line)) (drop (suc colon) line)
]

unfoldable pub classify : Text → Line
unfolding chomp strip_back_whitespace skip_whitespace strip_back_comments rule_line
    is_makefile_target
classify raw =
    let line_buf = strip_back_whitespace (chomp raw) in
    let line = strip_back_comments (skip_whitespace line_buf) in
    if length line == 0
    then blank
    else (if get_or line_buf 0 0 == 9
        then recipe line
        else (if is_makefile_target line then rule_line line else malformed))

-- The tokens of `split_line_on_spaces`, which always ends.
abbrev pub words : Text → List Text
words dep_line = elim (split_line_on_spaces dep_line) [ none ↦ [] | some tokens ↦ tokens ]

module _ (lib : GraphLibrary) where
  open lib use {Graph, create, vertices, get_value, neighbors, set_value, write, add_edge}

  -- The variables of the loop. A warning has the line, the line of the recipe that is dropped, and the target.
  pub record Parser : Type 0 where
    pub graph : Graph
    pub first_target : Option Text
    pub curr_rule : Option Text
    pub line_number : ℕ
    pub in_command_block : Bool
    pub warnings : List (ℕ × ℕ × Text)

  abbrev pub contains_vertex : Graph → Text → Bool
  contains_vertex g key = is_some (get_value g key)

  -- a key that is added with a fresh rule where it is new
  abbrev pub ensure_vertex : Graph → Text → Graph
  ensure_vertex g key = if contains_vertex g key then g else set_value g key (rule_of key)

  abbrev pub rule_at : Graph → Text → Rule
  rule_at g key = elim (get_value g key) [ none ↦ rule_of key | some r ↦ r ]

  -- The first command of a block: the rule gets the line, and the commands of an earlier block are dropped,
  -- with a warning.
  abbrev pub mark : Parser → Text → Rule → Parser
  mark p target r =
      let marked = record r { state = p.line_number } in
      if r.state == 0 then record p { graph = write p.graph target marked } else record p {
        graph = write p.graph target (record marked { commands = [] });
        warnings = p.warnings ++ ((p.line_number, r.state, target) ∷ []);
      }

  pub start_block : Text → Parser → Parser
  start_block target p =
      let marked = mark p target (rule_at p.graph target) in
      if p.in_command_block then p else marked

  abbrev pub add_command : Text → Parser → Text → Rule → Parser
  add_command command p target r = record p {
    graph = write p.graph target (record r { commands = r.commands ++ (command ∷ []) });
    in_command_block = true;
  }

  -- a recipe line, with the rule that it belongs to
  pub recipe_to : (curr_rule : Option Text) → Text → Parser → Result Parser
  unfolding start_block
  recipe_to none command p = stop (recipe_commences p.line_number)
  recipe_to (some target) command p =
      let q = start_block target p in ok (add_command command q target (rule_at q.graph target))

  pub recipe_step : Text → Parser → Result Parser
  unfolding recipe_to
  recipe_step command p = recipe_to p.curr_rule command p

  pub add_dependencies : Graph → Text → List Text → Graph
  add_dependencies g target [] = g
  add_dependencies g target (d ∷ ds) =
      add_dependencies (add_edge (ensure_vertex g d) target d) target ds

  pub rule_step : (target dep_line : Text) → Parser → Parser
  unfolding add_dependencies split_line_on_spaces
  rule_step target dep_line p =
      let first : Option Text = elim p.first_target [ none ↦ some target | some t ↦ some t ] in
      record p {
        graph = add_dependencies (ensure_vertex p.graph target) target (words dep_line);
        first_target = if contains_vertex p.graph target then p.first_target else first;
        curr_rule = some target;
        in_command_block = false;
      }

  pub step : Text → Parser → Result Parser
  unfolding classify recipe_step rule_step
  step raw p =
      let q = record p { line_number = p.line_number + 1 } in
      elim (classify raw) [
        | blank ↦ ok q
        | recipe command ↦ recipe_step command q
        | rule target dep_line ↦ ok (rule_step target dep_line q)
        | malformed ↦ stop (missing_separator q.line_number)
      ]

  pub read_lines : List Text → Parser → Result Parser
  unfolding step
  read_lines [] p = ok p
  read_lines (raw ∷ rest) p = do q ← step raw p; read_lines rest q

  -- the sentinel vertex, and nothing else
  abbrev pub start : Parser
  start = record {
    graph = set_value create [] (rule_of []);
    first_target = none;
    curr_rule = none;
    line_number = 0;
    in_command_block = false;
    warnings = [];
  }

  pub add_goals : Graph → (goals : List Text) → Result Graph
  add_goals g [] = ok g
  add_goals g (target ∷ goals) =
      let added = add_goals (add_edge g [] target) goals in
      if contains_vertex g target then added else stop (no_rule target)

  pub zero_out : Graph → List Text → Graph
  zero_out g [] = g
  zero_out g (target ∷ targets) =
      zero_out (write g target (record (rule_at g target) { state = 0 })) targets

  pub zero_out_states : Graph → Graph
  unfolding zero_out
  zero_out_states g = zero_out g (vertices g)

  -- the goals, or the first target where there are none
  pub choose_goals : List Text → (first_target : Option Text) → Result (List Text)
  choose_goals (goal ∷ goals) first_target = ok (goal ∷ goals)
  choose_goals [] (some first) = ok (first ∷ [])
  choose_goals [] none = stop no_targets

  pub finish : Parser → (goals : List Text) → Result (Graph × List (ℕ × ℕ × Text))
  unfolding choose_goals add_goals zero_out_states
  finish p goals = do
    targets ← choose_goals goals p.first_target
    g ← add_goals p.graph targets
    ok (zero_out_states g, p.warnings)

  -- `open_makefile`: no name, a name that cannot be opened, or the lines of the file
  pub data Source : Type 0 where
    unnamed unreadable : Source
    opened : List Text → Source

  pub open_makefile : Source → (goals : List Text) → Result (List Text)
  open_makefile unnamed [] = stop no_makefile
  open_makefile unnamed (goal ∷ goals) = stop (no_rule goal)
  open_makefile unreadable goals = stop no_such_file
  open_makefile (opened lines) goals = ok lines

  -- The graph, and the warnings that were printed.
  pub parse_makefile : Source → (goals : List Text) → Result (Graph × List (ℕ × ℕ × Text))
  unfolding open_makefile read_lines finish
  parse_makefile makefile goals = do
    lines ← open_makefile makefile goals
    p ← read_lines lines start
    finish p goals
