-- ===== src/Evals/Run.antt =====
-- evals/trajectory.py: `run_eval` and the scores it is made of. The graph, the JSON parser, the judge
-- and the query of the corpus are parameters; `lower` is `str.lower`. A ratio of the summary is kept
-- as its two numbers. The calls of the MCP session's teardown and of the clock are left out.
pub mod Rows
mod Tests
use arush_adabala_tax_liabil.Prelude.{
  ℕ, zero, suc, ◌+◌, ◌-◌, ◌*◌, ◌/◌, ◌%◌, ◌≤◌, ◌<◌, min, String, ◌≡◌, refl, sym, ap, ◌∙◌, ◌≢◌, ◌↔◌,
  ◌⊎◌, inl, inr, Bool, true, false, not, ◌&&◌, ◌||◌, Option, none, some, List, [], ◌∷◌, ◌++◌, map,
  arith, ltb, leb, if◌then◌else◌, Bool-cases, Option-cases, leb→le, lt→ltb, Eq, ◌==◌, ==_refl,
  length, take, get_elem?, length-append, length-take, length-map, any, All, All-append, All-take,
  contains, Exc, Result, ok, raised, bind, bind-eq-ok, Result-cases, ok_injective, ok_or,
  budget_exceeded, value_error, key_error, type_error, runtime_error, timeout_error,
  validation_error, dependency_unavailable, string_eq, nat_eq, list_eq, graph_recursion,
  http_timeout, http_error, cancelled, other,
}
use arush_adabala_tax_liabil.Prelude.Int.{ℤ, pos, negsuc}
use arush_adabala_tax_liabil.Prelude.Text.{Text, occurs}
use arush_adabala_tax_liabil.Agent.State.{AgentState, Doc}
use arush_adabala_tax_liabil.Mcp.Json.{Json, str, obj, get}
use arush_adabala_tax_liabil.Evals.Trajectory.{trajectory_match}
use arush_adabala_tax_liabil.Evals.Suite.{Scenario}
use arush_adabala_tax_liabil.Evals.Contexts.{Found, hydrate_contexts}

-- `(up - down) / over`
pub record Ratio : Type 0 where
  pub up : ℕ
  pub down : ℕ
  pub over : ℕ

abbrev pub zero_ratio : Ratio
zero_ratio = record { up = 0; down = 0; over = 1 }

-- no baseline, or none above zero, is no regression
unfoldable pub cost_regression : ℕ → ℤ → Ratio
cost_regression current (negsuc n) = zero_ratio
cost_regression current (pos zero) = zero_ratio
cost_regression current (pos (suc n)) = record { up = current; down = suc n; over = suc n }

-- The file of the last run: absent, unreadable, or with what `int` makes of the field.
unfoldable pub load_baseline : Option (Result ℤ) → ℤ
load_baseline none = pos 0
load_baseline (some (ok n)) = n
load_baseline (some (raised e)) = pos 0

pub record Row : Type 0 where
  pub qid : String
  pub match : ℕ
  pub visited : List String
  pub expected : List String
  pub answer : Text
  pub answer_substring_hit : Bool
  pub cost_usd_e5 : ℕ
  pub contexts : List Text
  pub question : Text
  pub error : Option Exc

pub record World (F : Type 0) : Type 0 where
  pub invoke : Scenario → Result (AgentState Text F)
  pub lower : Text → Text
  pub loads : Text → Option (Json F)
  pub render : Json F → Text
  pub query : Option (List (Text × ℕ) → Result (List Found))

module _ {F : Type 0} (world : World F) where
  open world use {invoke, lower, loads, render, query}

  -- `str(parsed.get("text", ""))`
  unfoldable pub field_text : Option (Json F) → Text
  field_text none = []
  field_text (some (str t)) = t
  field_text (some v) = render v

  unfoldable pub parsed_text : Text → Option (Json F) → Text
  parsed_text raw (some (obj d)) = field_text (get "text" d)
  parsed_text raw v = raw

  unfoldable pub answer_text : Option Text → Text
  answer_text none = []
  answer_text (some []) = []
  answer_text (some (c ∷ raw)) = parsed_text (c ∷ raw) (loads (c ∷ raw))

  unfoldable pub row_of : Scenario → AgentState Text F → Row
  row_of sc state = record {
    qid = sc.qid;
    match = trajectory_match state.visited_nodes sc.expected_nodes;
    visited = state.visited_nodes;
    expected = sc.expected_nodes;
    answer = answer_text state.answer;
    answer_substring_hit =
        occurs (lower sc.expected_answer_substring) (lower (answer_text state.answer));
    cost_usd_e5 = state.cost_usd_e5;
    contexts = hydrate_contexts query state.docs;
    question = sc.question;
    error = none;
  }

  -- A scenario that raised is a row of the empty state.
  unfoldable pub error_row : Scenario → Exc → Row
  error_row sc e = record {
    qid = sc.qid;
    match = trajectory_match [] sc.expected_nodes;
    visited = [];
    expected = sc.expected_nodes;
    answer = [];
    answer_substring_hit = occurs (lower sc.expected_answer_substring) (lower []);
    cost_usd_e5 = 0;
    contexts = [];
    question = sc.question;
    error = some e;
  }

  -- `except Exception`: a cancellation ends the run
  unfoldable pub settle_row : Scenario → Result (AgentState Text F) → Result Row
  settle_row sc (ok state) = ok (row_of sc state)
  settle_row sc (raised cancelled) = raised cancelled
  settle_row sc (raised e) = ok (error_row sc e)

-- The four variables of the loop.
pub record Tally : Type 0 where
  pub matched : ℕ
  pub answer_hits : ℕ
  pub total_cost_e5 : ℕ
  pub rows : List Row

abbrev pub no_rows : Tally
no_rows = record { matched = 0; answer_hits = 0; total_cost_e5 = 0; rows = [] }

unfoldable pub tallied : Tally → Row → Tally
tallied t row = record {
  matched = t.matched + (if row.match == 1 then 1 else 0);
  answer_hits = t.answer_hits + (if row.answer_substring_hit then 1 else 0);
  total_cost_e5 = t.total_cost_e5 + row.cost_usd_e5;
  rows = t.rows ++ row ∷ [];
}

unfoldable pub run_rows : {F : Type 0} → World F → Tally → List Scenario → Result Tally
run_rows world t [] = ok t
run_rows world t (sc ∷ suite) =
    bind (settle_row world sc (world.invoke sc)) λ row. run_rows world (tallied t row) suite

-- What the judge gives, by the shapes that are read: the column of a frame, or an item.
pub data Item (F : Type 0) : Type 0 where
  missing : Item F
  listed : List F → Item F
  scalar : Option F → Item F

pub record Judged (F : Type 0) : Type 0 where
  pub frame_mean : Option F
  pub item : Item F

module _ {F : Type 0} (is_nan : F → Bool) (mean : List F → F) where
  unfoldable pub measured : F → Option F
  measured value = if is_nan value then none else some value

  unfoldable pub item_mean : Item F → Option F
  item_mean missing = none
  item_mean (listed []) = none
  item_mean (listed (x ∷ xs)) = measured (mean (x ∷ xs))
  item_mean (scalar none) = none
  item_mean (scalar (some x)) = measured x

  unfoldable pub mean_faithfulness : Judged F → Option F
  mean_faithfulness judged = elim judged.frame_mean [
    | some x ↦ measured x
    | none ↦ item_mean judged.item
  ]

  unfoldable pub judged_mean : Result (Judged F) → Option F
  judged_mean (ok judged) = mean_faithfulness judged
  judged_mean (raised e) = none

  unfoldable pub scorable : List Row → List Row
  scorable [] = []
  scorable (r ∷ rows) =
      let rest = scorable rows in
      if r.answer == [] then rest else elim r.contexts [ [] ↦ rest | c ∷ cs ↦ r ∷ rest ]

  unfoldable pub judge_rows : (List Row → Result (Judged F)) → List Row → Option F
  judge_rows evaluate [] = none
  judge_rows evaluate (r ∷ rows) = judged_mean (evaluate (r ∷ rows))

  -- `none` is a judge that cannot be imported
  unfoldable pub score_with_ragas : Option (List Row → Result (Judged F)) → List Row → Option F
  score_with_ragas none rows = none
  score_with_ragas (some evaluate) rows = judge_rows evaluate (scorable rows)

pub record Summary (F : Type 0) : Type 0 where
  pub scenarios : ℕ
  pub trajectory_match : Ratio
  pub answer_substring_rate : Ratio
  pub faithfulness : Option F
  pub mean_cost_usd_e5 : ℕ
  pub baseline_cost_usd_e5 : ℤ
  pub cost_regression : Ratio
  pub rows : List Row

-- `n / len(suite) if suite else 0.0`
unfoldable pub share : ℕ → ℕ → Ratio
share n zero = zero_ratio
share n (suc size) = record { up = n; down = 0; over = suc size }

unfoldable pub mean_cost : ℕ → ℕ → ℕ
mean_cost total zero = 0
mean_cost total (suc size) = total / suc size

unfoldable pub summarise : {F : Type 0} → Tally → ℕ → Option F → ℤ → Summary F
unfolding share mean_cost
summarise t size faithfulness baseline = record {
  scenarios = size;
  trajectory_match = share t.matched size;
  answer_substring_rate = share t.answer_hits size;
  faithfulness = faithfulness;
  mean_cost_usd_e5 = mean_cost t.total_cost_e5 size;
  baseline_cost_usd_e5 = baseline;
  cost_regression = cost_regression (mean_cost t.total_cost_e5 size) baseline;
  rows = t.rows;
}

-- `score` is the judge on the rows, or the constant `none` where faithfulness is not scored.
unfoldable pub run_eval :
    {F : Type 0} → World F → (List Row → Option F) → ℤ → List Scenario → Result (Summary F)
run_eval world score baseline suite =
    bind (run_rows world no_rows suite) λ t. ok (summarise t (length suite) (score t.rows) baseline)
