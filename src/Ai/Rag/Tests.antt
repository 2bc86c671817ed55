-- ===== src/Ai/Rag/Tests.antt =====
-- One question asked twice, over a store in memory; scores are numbers, and every service answers.
use arush_adabala_tax_liabil.Prelude.{
  ℕ, zero, suc, ◌+◌, ◌-◌, ◌*◌, ◌/◌, ◌≡◌, refl, Bool, true, false, Option, none, some, List, [], ◌∷◌,
  ◌++◌, ltb, length, ok, string_eq, nat_eq, list_eq,
}
use arush_adabala_tax_liabil.Prelude.Text.{Text, codes}
use arush_adabala_tax_liabil.Agent.Budget.{Usage}
use arush_adabala_tax_liabil.Ai.Cache.{Codec, cache_lookup, get_epoch, Laws}
use arush_adabala_tax_liabil.Ai.Mmr.{
  mmr_pick, pick_loop, next_pick, best_of, score, remove, select, range_from,
}
use arush_adabala_tax_liabil.Ai.Rerank.{timed_out_reply}
use arush_adabala_tax_liabil.Ai.Cache.Isolation.{Owned}
use arush_adabala_tax_liabil.Ai.Cache.Memory.{Store, redis, codec_of, laws_of}
use arush_adabala_tax_liabil.Ai.Hybrid.{Hit}
use arush_adabala_tax_liabil.Ai.Rag.{
  Flags, CitedChunk, Payload, Pipeline, Sidecar, retrieve_and_generate, retrieve, rerank_stage,
  generate, settle_answer, answer_of, fuse, diversify, after_lookup,
}
use arush_adabala_tax_liabil.Ai.Rag.Serve.{tenants, retrieve_and_generate_again}

-- A text as its codes, each one more, and a 0.
abbrev enc : Text → Text
enc [] = 0 ∷ []
enc (c ∷ t) = suc c ∷ enc t

abbrev dec : Text → Text × Text
dec [] = ([], [])
dec (zero ∷ r) = ([], r)
dec (suc c ∷ r) = let (t, r') = dec r in (c ∷ t, r')

dec-enc : (t r : Text) → dec (enc t ++ r) ≡ (t, r)
dec-enc [] r = refl
dec-enc (c ∷ t) r = rw (dec-enc t r) refl

abbrev encs : List (CitedChunk ℕ) → Text
encs [] = []
encs (c ∷ cs) = c.score ∷ (enc c.chunk_id ++ (enc c.chunk_text ++ (enc c.tenant_id ++ encs cs)))

abbrev decs : ℕ → Text → List (CitedChunk ℕ)
decs zero r = []
decs (suc n) [] = []
decs (suc n) (s ∷ r) =
    let (id, r1) = dec r in
    let (text, r2) = dec r1 in
    let (tenant, r3) = dec r2 in
    record { chunk_id = id; chunk_text = text; score = s; tenant_id = tenant } ∷ decs n r3

decs-encs : (cs : List (CitedChunk ℕ)) → decs (length cs) (encs cs) ≡ cs
decs-encs [] = refl
decs-encs (c ∷ cs) = rw (dec-enc c.chunk_id (enc c.chunk_text ++ (enc c.tenant_id ++ encs cs))) (
    rw (dec-enc c.chunk_text (enc c.tenant_id ++ encs cs))
      (rw (dec-enc c.tenant_id (encs cs)) (rw (decs-encs cs) refl)))

abbrev flag : Bool → ℕ
flag true = 1
flag false = 0

abbrev is_one : ℕ → Bool
is_one zero = false
is_one (suc n) = true

abbrev dumps : Payload ℕ → Text
dumps a = flag a.rerank_timed_out ∷ length a.citations ∷ (enc a.text ++ encs a.citations)

abbrev loads : Text → Option (Payload ℕ)
loads (b ∷ n ∷ r) =
    let (text, r') = dec r in
    some (record { text = text; citations = decs n r'; rerank_timed_out = is_one b })
loads _ = none

is_one-flag : (b : Bool) → is_one (flag b) ≡ b
is_one-flag true = refl
is_one-flag false = refl

loads-dumps : (a : Payload ℕ) → loads (dumps a) ≡ some a
loads-dumps a =
    rw (dec-enc a.text (encs a.citations))
      (rw (decs-encs a.citations) (rw (is_one-flag a.rerank_timed_out) refl))

abbrev codec : Codec ℕ (Payload ℕ)
codec = codec_of loads dumps (λ a. tenants a.citations)

laws : Laws redis codec
laws = laws_of loads dumps (λ a. tenants a.citations) loads-dumps

abbrev hits : List (Hit ℕ)
hits = (codes "chunk-a-p0", codes "text a", 3) ∷ (codes "chunk-b-p0", codes "text b", 5) ∷ []

abbrev used : Option Usage
used = some (record { input_tokens = some 9; output_tokens = some 2 })

abbrev world : Pipeline ℕ ℕ ℕ
world = record {
  encode = λ t. 0;
  dense_topk_filtered = λ vec tenant_id filter. ok hits;
  sparse_topk_fts = λ query tenant_id. ok [];
  floats = record { gt = λ a b. ltb b a; add = λ a b. a + b; div = λ a b. a / b; of_int = λ n. n };
  one = 1;
  similarities = λ vec fused. record {
    gt = λ a b. ltb b a;
    minus_infinity = 0;
    to_query = λ i. i + 1;
    to_picked = λ picked i. 0;
    lambda_param = 1;
    one = 1;
    mul = λ a b. a * b;
    sub = λ a b. a - b;
  };
  services = record {
    gt = λ a b. ltb b a;
    of_int = λ n. n;
    predict = λ pairs. ok ([], 0);
    cohere_api_key = none;
    post = λ query documents top_n timeout_ms. timed_out_reply;
    reranker_env = none;
    strip_lower = λ t. t;
  };
  create = λ prompt. ok (record { first_text = some (codes "yes"); usage = used });
}

abbrev flags : Flags
flags = record { hybrid_on = false; mmr_on = true; rerank_on = false; filter_on = true }

abbrev fresh : Sidecar Store
fresh = record { store = λ k. none; metrics = record { requests = 0; timeouts = 0 } }

abbrev mine : Text
mine = codes "mine"

abbrev answered : Payload ℕ
answered = record {
  text = codes "yes";
  citations =
      record {
        chunk_id = codes "chunk-b-p0";
        chunk_text = codes "text b";
        score = 5;
        tenant_id = mine;
      }
      ∷ record {
        chunk_id = codes "chunk-a-p0";
        chunk_text = codes "text a";
        score = 3;
        tenant_id = mine;
      }
      ∷ [];
  rerank_timed_out = false;
}

abbrev served_by : Sidecar Store
served_by = (retrieve_and_generate redis codec world flags (codes "q") mine none fresh).1

ran :
    retrieve_and_generate redis codec world flags (codes "q") mine none fresh
    ≡ (ok (answered, used), served_by)
unfolding retrieve_and_generate after_lookup generate settle_answer answer_of rerank_stage retrieve
    fuse diversify cache_lookup get_epoch mmr_pick pick_loop next_pick best_of score remove select
    range_from
ran = refl

retrieve_and_generate_again_example :
    (retrieve_and_generate redis codec world flags (codes "q") mine (some 4) served_by
      ≡ (ok (answered, none), served_by))
    × Owned mine (tenants answered.citations)
retrieve_and_generate_again_example =
    retrieve_and_generate_again redis codec world flags laws (λ a. refl) (codes "q") mine none
      (some 4) fresh served_by answered used ran
