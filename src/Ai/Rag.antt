-- ===== src/Ai/Rag.antt =====
-- `retrieve_and_generate` of rag.py: cache, retrieve, fuse, diversify, rerank, generate, store. The
-- encoder, the two SQL retrievers, the similarities of the encoder's vectors and the completion are
-- parameters, beside those of the stages; `M` stands for metadata filters. The coverage diagnostic of
-- the answer is left out.
pub mod Serve
mod Tests
use arush_adabala_tax_liabil.Prelude.{
  ℕ, zero, suc, ◌+◌, ◌-◌, ◌*◌, ◌/◌, ◌%◌, ◌≤◌, ◌<◌, min, String, ◌≡◌, refl, sym, ap, ◌∙◌, ◌≢◌, ◌↔◌,
  ◌⊎◌, inl, inr, Bool, true, false, not, ◌&&◌, ◌||◌, Option, none, some, List, [], ◌∷◌, ◌++◌, map,
  arith, ltb, leb, if◌then◌else◌, Bool-cases, Option-cases, leb→le, lt→ltb, Eq, ◌==◌, ==_refl,
  length, take, get_elem?, length-append, length-take, length-map, any, All, All-append, All-take,
  contains, Exc, Result, ok, raised, bind, bind-eq-ok, Result-cases, ok_injective, ok_or,
  budget_exceeded, value_error, key_error, type_error, runtime_error, timeout_error,
  validation_error, dependency_unavailable, string_eq, nat_eq, list_eq, graph_recursion,
  http_timeout, http_error, cancelled, other,
}
use arush_adabala_tax_liabil.Prelude.Dict.{get_or}
use arush_adabala_tax_liabil.Prelude.Text.{Text, codes}
use arush_adabala_tax_liabil.Prelude.Text.Decimal.{decimal}
use arush_adabala_tax_liabil.Agent.Budget.{Usage}
use arush_adabala_tax_liabil.Ai.Cache.{Redis, Codec, cache_lookup, cache_store, default_ttl_seconds}
use arush_adabala_tax_liabil.Ai.Hybrid.{Floats, Hit, k_const, rrf_fuse}
use arush_adabala_tax_liabil.Ai.Mmr.{Scores, mmr_pick}
use arush_adabala_tax_liabil.Ai.Rerank.{Metrics, Candidate, Services, rerank_candidates}

abbrev pub fused_k : ℕ
fused_k = 60

abbrev pub mmr_k : ℕ
mmr_k = 20

abbrev pub rerank_top_k : ℕ
rerank_top_k = 6

abbrev pub rerank_timeout_ms : ℕ
rerank_timeout_ms = 300

abbrev pub false_values : List Text
false_values = codes "0" ∷ codes "false" ∷ codes "no" ∷ codes "off" ∷ []

-- A stage is on unless its variable says otherwise.
unfoldable pub flag_from_env : (Text → Text) → Option Text → Bool → Bool
flag_from_env strip_lower none default = default
flag_from_env strip_lower (some raw) default = not (contains (strip_lower raw) false_values)

pub record Flags : Type 0 where
  pub hybrid_on : Bool
  pub mmr_on : Bool
  pub rerank_on : Bool
  pub filter_on : Bool

pub record CitedChunk (F : Type 0) : Type 0 where
  pub chunk_id : Text
  pub chunk_text : Text
  pub score : F
  pub tenant_id : Text

-- What is cached: the answer without its usage.
pub record Payload (F : Type 0) : Type 0 where
  pub text : Text
  pub citations : List (CitedChunk F)
  pub rerank_timed_out : Bool

-- A completion: the text of its first block, if that is a text block, and its usage.
pub record Generated : Type 0 where
  pub first_text : Option Text
  pub usage : Option Usage

-- The numbered context, from `[1]` on, and the question.
unfoldable pub numbered : {F : Type 0} → ℕ → List (Candidate F) → Text
numbered i [] = []
numbered i (c ∷ []) = codes "[" ++ decimal i ++ codes "] " ++ c.text
numbered i (c ∷ d ∷ cs) =
    (codes "[" ++ decimal i ++ codes "] " ++ c.text) ++ 10 ∷ 10 ∷ numbered (i + 1) (d ∷ cs)

unfoldable pub build_prompt : {F : Type 0} → Text → List (Candidate F) → Text
build_prompt query context =
    (codes "Answer the question using only the numbered context below."
      ++ 10 ∷ 10 ∷ numbered 1 context)
    ++ 10 ∷ 10 ∷ codes "Question: "
    ++ query

pub record Pipeline (Q M F : Type 0) : Type 0 where
  pub encode : Text → Q
  pub dense_topk_filtered : Q → Text → Option M → Result (List (Hit F))
  pub sparse_topk_fts : Text → Text → Result (List (Hit F))
  pub floats : Floats F
  pub one : F
  pub similarities : Q → List (Hit F) → Scores F
  pub services : Services F
  pub create : Text → Result Generated

-- What a request reads and writes: Redis, and the counters.
pub record Sidecar (S : Type 0) : Type 0 where
  pub store : S
  pub metrics : Metrics

abbrev pub candidate : {F : Type 0} → Hit F → Candidate F
candidate (chunk_id, text, score) = record { chunk_id = chunk_id; text = text; score = score }

abbrev pub cite : {F : Type 0} → Text → Candidate F → CitedChunk F
cite tenant_id c = record {
  chunk_id = c.chunk_id;
  chunk_text = c.text;
  score = c.score;
  tenant_id = tenant_id;
}

unfoldable pub answer_of : {F : Type 0} → Text → List (Candidate F) × Bool → Generated → Payload F
answer_of tenant_id (reranked, timed_out) message = record {
  text = get_or message.first_text [];
  citations = map (cite tenant_id) reranked;
  rerank_timed_out = timed_out;
}

module _ {S Q M F : Type 0} (redis : Redis S) (codec : Codec Q (Payload F)) (world : Pipeline Q M F)
    (flags : Flags) where
  unfoldable pub fuse : List (Hit F) → List (Hit F) → List (Hit F)
  fuse dense sparse =
      if flags.hybrid_on
      then rrf_fuse world.floats k_const world.one world.one fused_k dense sparse
      else take fused_k dense

  unfoldable pub diversify : Q → List (Hit F) → Result (List (Hit F))
  diversify vec fused =
      if flags.mmr_on
      then mmr_pick (world.similarities vec fused) fused mmr_k
      else ok (take mmr_k fused)

  -- Both retrievers, the fusion and the selection.
  unfoldable pub retrieve : Text → Text → Option M → Result (List (Candidate F))
  retrieve query tenant_id metadata_filter =
      let vec = world.encode query in
      bind
        (world.dense_topk_filtered vec tenant_id
          (if flags.filter_on then metadata_filter else none))
        λ dense.
          bind (if flags.hybrid_on then world.sparse_topk_fts query tenant_id else ok []) λ sparse.
            bind (diversify vec (fuse dense sparse)) λ diversified. ok (map candidate diversified)

  unfoldable pub rerank_stage :
      Text → Metrics → Result (List (Candidate F)) → Result (List (Candidate F) × Bool) × Metrics
  rerank_stage query m (raised e) = (raised e, m)
  rerank_stage query m (ok diversified) =
      if flags.rerank_on
      then rerank_candidates world.services query diversified rerank_top_k rerank_timeout_ms none m
      else (ok (take rerank_top_k diversified, false), m)

  -- The answer is stored without its usage.
  unfoldable pub settle_answer :
      Text
      → Text
      → Sidecar S
      → List (Candidate F) × Bool
      → Result Generated
      → Result (Payload F × Option Usage) × Sidecar S
  settle_answer query tenant_id s context (raised e) = (raised e, s)
  settle_answer query tenant_id s context (ok message) =
      let answer = answer_of tenant_id context message in
      (
        ok (answer, message.usage),
        record s {
          store =
              cache_store redis codec s.store (world.encode query) tenant_id answer
                default_ttl_seconds;
        },
      )

  unfoldable pub generate :
      Text
      → Text
      → Sidecar S
      → Result (List (Candidate F) × Bool) × Metrics
      → Result (Payload F × Option Usage) × Sidecar S
  generate query tenant_id s (raised e, m) = (raised e, record s { metrics = m })
  generate query tenant_id s (ok context, m) =
      settle_answer query tenant_id (record s { metrics = m }) context
        (world.create (build_prompt query context.0))

  -- A hit is answered as it was stored, with no usage.
  unfoldable pub after_lookup :
      Text
      → Text
      → Option M
      → Sidecar S
      → Result (Option (Payload F))
      → Result (Payload F × Option Usage) × Sidecar S
  after_lookup query tenant_id metadata_filter s (raised e) = (raised e, s)
  after_lookup query tenant_id metadata_filter s (ok (some cached)) = (ok (cached, none), s)
  after_lookup query tenant_id metadata_filter s (ok none) =
      generate query tenant_id s
        (rerank_stage query s.metrics (retrieve query tenant_id metadata_filter))

  unfoldable pub retrieve_and_generate :
      Text → Text → Option M → Sidecar S → Result (Payload F × Option Usage) × Sidecar S
  retrieve_and_generate query tenant_id metadata_filter s =
      after_lookup query tenant_id metadata_filter s
        (cache_lookup redis codec s.store (world.encode query) tenant_id)
