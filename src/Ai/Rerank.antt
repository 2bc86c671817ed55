-- ===== src/Ai/Rerank.antt =====
-- The rerank stage of rerank.py, and the counters of metrics.py. Floats `F` are a parameter with
-- their `>`, and so are the cross-encoder with the time that it takes, Cohere's endpoint, the
-- environment and `str.strip().lower()`. Spans and logs are left out.
pub mod Contract
mod Tests
use arush_adabala_tax_liabil.Prelude.{
  ℕ, zero, suc, ◌+◌, ◌-◌, ◌*◌, ◌/◌, ◌%◌, ◌≤◌, ◌<◌, min, String, ◌≡◌, refl, sym, ap, ◌∙◌, ◌≢◌, ◌↔◌,
  ◌⊎◌, inl, inr, Bool, true, false, not, ◌&&◌, ◌||◌, Option, none, some, List, [], ◌∷◌, ◌++◌, map,
  arith, ltb, leb, if◌then◌else◌, Bool-cases, Option-cases, leb→le, lt→ltb, Eq, ◌==◌, ==_refl,
  length, take, get_elem?, length-append, length-take, length-map, any, All, All-append, All-take,
  contains, Exc, Result, ok, raised, bind, bind-eq-ok, Result-cases, ok_injective, ok_or,
  budget_exceeded, value_error, key_error, type_error, runtime_error, timeout_error,
  validation_error, dependency_unavailable, string_eq, nat_eq, list_eq, graph_recursion,
  http_timeout, http_error, cancelled, other,
}
use arush_adabala_tax_liabil.Prelude.Dict.{get_or}
use arush_adabala_tax_liabil.Prelude.Int.{ℤ, pos, negsuc}
use arush_adabala_tax_liabil.Prelude.Text.{Text, codes}
use arush_adabala_tax_liabil.Ai.Sorting.{sort_desc}

abbrev pub passage_char_cap : ℕ
passage_char_cap = 1024

pub record Metrics : Type 0 where
  pub requests : ℕ
  pub timeouts : ℕ

unfoldable pub record_rerank : Bool → Metrics → Metrics
record_rerank true m = record { requests = m.requests + 1; timeouts = m.timeouts + 1 }
record_rerank false m = record m { requests = m.requests + 1 }

pub record Candidate (F : Type 0) : Type 0 where
  pub chunk_id : Text
  pub text : Text
  pub score : F

abbrev pub rescored : {F : Type 0} → Candidate F × F → Candidate F
rescored (c, s) = record c { score = s }

pub data Backend : Type 0 where
  bge cohere : Backend

-- A row of Cohere's reply: its index, -1 where it has none, and its score, if it has one.
pub record Row (F : Type 0) : Type 0 where
  pub index : ℤ
  pub relevance_score : Option F

pub data Reply (F : Type 0) : Type 0 where
  timed_out_reply http_failure not_json : Reply F
  rows : List (Row F) → Reply F

-- `predict` answers the scores and the milliseconds that they took, or raises, as loading the model may.
pub record Services (F : Type 0) : Type 0 where
  pub gt : F → F → Bool
  pub of_int : ℕ → F
  pub predict : List (Text × Text) → Result (List F × F)
  pub cohere_api_key : Option Text
  pub post : Text → List Text → ℕ → ℕ → Reply F
  pub reranker_env : Option Text
  pub strip_lower : Text → Text

unfoldable pub zip : {A B : Type 0} → List A → List B → List (A × B)
zip [] bs = []
zip (a ∷ as') [] = []
zip (a ∷ as') (b ∷ bs) = (a, b) ∷ zip as' bs

-- what a stage answers: the candidates, and whether the rerank did not contribute
abbrev pub Answer : Type 0 → Type 0
Answer F = List (Candidate F) × Bool

module _ {F : Type 0} (services : Services F) where
  abbrev pub best_first : List (Candidate F × F) → List (Candidate F × F)
  best_first scored = sort_desc services.gt (λ p. p.1) scored

  unfoldable pub settle_bge : List (Candidate F) → ℕ → List F → Bool → Answer F
  settle_bge candidates top_k scores true = (take top_k candidates, true)
  settle_bge candidates top_k scores false =
      (map rescored (take top_k (best_first (zip candidates scores))), false)

  -- The breach is counted on both paths, and not where the scoring raised.
  unfoldable pub bge_scored :
      List (Candidate F) → ℕ → ℕ → Metrics → Result (List F × F) → Result (Answer F) × Metrics
  bge_scored candidates top_k timeout_ms m (raised e) = (raised e, m)
  bge_scored candidates top_k timeout_ms m (ok (scores, elapsed_ms)) =
      let timed_out = services.gt elapsed_ms (services.of_int timeout_ms) in
      (ok (settle_bge candidates top_k scores timed_out), record_rerank timed_out m)

  unfoldable pub bge_rerank :
      Text → List (Candidate F) → ℕ → ℕ → Metrics → Result (Answer F) × Metrics
  bge_rerank query [] top_k timeout_ms m = (ok ([], false), m)
  bge_rerank query (c ∷ cs) top_k timeout_ms m =
      bge_scored (c ∷ cs) top_k timeout_ms m
        (services.predict (map (λ d. (query, take passage_char_cap d.text)) (c ∷ cs)))

  unfoldable pub resolve_reranker : Option Text → Result Backend
  resolve_reranker name =
      let raw = services.strip_lower (get_or name (get_or services.reranker_env (codes "bge"))) in
      if contains raw
        (codes "bge" ∷ codes "baai/bge-reranker-base" ∷ codes "bge-reranker-base" ∷ [])
      then ok bge
      else (if contains raw (codes "cohere" ∷ codes "rerank-3.5" ∷ [])
          then ok cohere
          else raised value_error)

  -- the candidate of a row, where its index is one of those sent
  abbrev pub named : List (Candidate F) → ℤ → Option (Candidate F)
  named candidates (negsuc n) = none
  named candidates (pos n) = get_elem? candidates n

  abbrev pub scored_row : Option (Candidate F) → Option F → Result (List (Candidate F × F))
  scored_row none score = ok []
  scored_row (some c) none = raised key_error
  scored_row (some c) (some s) = ok ((c, s) ∷ [])

  -- Rows with an index out of range are dropped; one without a score raises.
  unfoldable pub scored_rows : List (Candidate F) → List (Row F) → Result (List (Candidate F × F))
  scored_rows candidates [] = ok []
  scored_rows candidates (row ∷ more) =
      bind (scored_row (named candidates row.index) row.relevance_score)
        λ first. bind (scored_rows candidates more) λ rest. ok (first ++ rest)

  -- a timeout and an HTTP error leave `scored` empty
  abbrev pub read_reply : List (Candidate F) → Reply F → Result (List (Candidate F × F))
  read_reply candidates timed_out_reply = ok []
  read_reply candidates http_failure = ok []
  read_reply candidates not_json = raised value_error
  read_reply candidates (rows rs) = scored_rows candidates rs

  unfoldable pub settle_cohere :
      List (Candidate F)
      → ℕ
      → Metrics
      → Result (List (Candidate F × F))
      → Result (Answer F) × Metrics
  settle_cohere candidates top_k m (raised e) = (raised e, m)
  settle_cohere candidates top_k m (ok []) =
      (ok (take top_k candidates, true), record_rerank true m)
  settle_cohere candidates top_k m (ok (p ∷ ps)) =
      (ok (map rescored (take top_k (best_first (p ∷ ps))), false), record_rerank false m)

  -- a missing or empty credential raises before anything is sent
  abbrev pub authorised : Text → Metrics → Result (Answer F) × Metrics → Result (Answer F) × Metrics
  authorised [] m call = (raised runtime_error, m)
  authorised (k ∷ key) m call = call

  unfoldable pub cohere_rerank :
      Text → List (Candidate F) → ℕ → ℕ → Metrics → Result (Answer F) × Metrics
  cohere_rerank query [] top_k timeout_ms m = (ok ([], false), m)
  cohere_rerank query (c ∷ cs) top_k timeout_ms m =
      authorised (get_or services.cohere_api_key []) m (
        settle_cohere (c ∷ cs) top_k m (
          read_reply (c ∷ cs) (
            services.post query (map (λ d. take passage_char_cap d.text) (c ∷ cs)) top_k
              timeout_ms)))

  abbrev pub dispatch :
      Text → List (Candidate F) → ℕ → ℕ → Metrics → Result Backend → Result (Answer F) × Metrics
  dispatch query candidates top_k timeout_ms m (raised e) = (raised e, m)
  dispatch query candidates top_k timeout_ms m (ok bge) =
      bge_rerank query candidates top_k timeout_ms m
  dispatch query candidates top_k timeout_ms m (ok cohere) =
      cohere_rerank query candidates top_k timeout_ms m

  unfoldable pub rerank_candidates :
      Text → List (Candidate F) → ℕ → ℕ → Option Text → Metrics → Result (Answer F) × Metrics
  rerank_candidates query candidates top_k timeout_ms name m =
      dispatch query candidates top_k timeout_ms m (resolve_reranker name)
