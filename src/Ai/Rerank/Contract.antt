-- ===== src/Ai/Rerank/Contract.antt =====
-- What either backend promises to the pipeline.
use arush_adabala_tax_liabil.Prelude.{
  ℕ, zero, suc, ◌+◌, ◌≤◌, ◌≡◌, refl, sym, ap, ◌⊎◌, inl, inr, Bool, true, false, Option, none, some,
  List, [], ◌∷◌, map, arith, length, take, get_elem?, length-take, length-map, All, All-append,
  All-take, Result, ok, raised, bind-eq-ok, ok_or, string_eq, nat_eq, list_eq,
}
use mathlib.Core.Path.{subst}
use arush_adabala_tax_liabil.Prelude.Dict.{get_or}
use arush_adabala_tax_liabil.Prelude.Int.{ℤ, pos, negsuc}
use arush_adabala_tax_liabil.Prelude.Text.{Text}
use arush_adabala_tax_liabil.Ai.Sorting.{
  sort_desc, IsDescending, All-sort_desc, IsOrder, sort_desc-IsDescending, take-IsDescending,
}
use arush_adabala_tax_liabil.Ai.Rerank.{
  Metrics, record_rerank, Candidate, rescored, Backend, bge, cohere, Row, Reply, timed_out_reply,
  http_failure, not_json, rows, Services, zip, Answer, best_first, settle_bge, bge_scored,
  bge_rerank, resolve_reranker, named, scored_row, scored_rows, read_reply, settle_cohere,
  authorised, cohere_rerank, dispatch, rerank_candidates,
}

module _ {F : Type 0} (services : Services F) where
  -- A result is one of the candidates, up to its score.
  abbrev pub Among : List (Candidate F) → Candidate F → Type 0
  Among [] r = ⊥
  Among (c ∷ cs) r = ((r.chunk_id ≡ c.chunk_id) × (r.text ≡ c.text)) ⊎ Among cs r

  abbrev pub Counted : Metrics → Metrics → ℕ → Type 0
  Counted m m' breaches = (m'.requests ≡ m.requests + 1) × (m'.timeouts ≡ m.timeouts + breaches)

  -- A raise leaves the counters; a fallback is the retrieval order, counted as one; a rerank is at
  -- most `top_k` of the candidates by descending score, and is counted where there were any.
  abbrev pub Contract : List (Candidate F) → ℕ → Metrics → Result (Answer F) × Metrics → Type 0
  Contract candidates top_k m (raised e, m') = m' ≡ m
  Contract candidates top_k m (ok (results, true), m') =
      (results ≡ take top_k candidates) × Counted m m' 1
  Contract candidates top_k m (ok (results, false), m') =
      (length results ≤ top_k)
      × All (λ r. Among candidates r) results
      × IsDescending services.gt (λ r. r.score) results
      × (((candidates ≡ []) × (m' ≡ m)) ⊎ Counted m m' 0)

  below :
      (k : F) (ps : List (Candidate F × F))
      → All (λ q. services.gt q.1 k ≡ false) ps
      → All (λ r. services.gt r.score k ≡ false) (map rescored ps)
  below k [] h = tt
  below k (p ∷ ps) h = (h.0, below k ps h.1)

  mapped :
      (P : Candidate F → Type 0) (ps : List (Candidate F × F))
      → All (λ p. P (rescored p)) ps
      → All P (map rescored ps)
  mapped P [] h = tt
  mapped P (p ∷ ps) h = (h.0, mapped P ps h.1)

  map-IsDescending :
      (ps : List (Candidate F × F))
      → IsDescending services.gt (λ p. p.1) ps
      → IsDescending services.gt (λ r. r.score) (map rescored ps)
  map-IsDescending [] h = tt
  map-IsDescending (p ∷ ps) h = (below p.1 ps h.0, map-IsDescending ps h.1)

  Ranked : List (Candidate F) → List (Candidate F × F) → Type 0
  Ranked candidates scored = All (λ p. Among candidates (rescored p)) scored

  zip-Ranked :
      (all cs : List (Candidate F)) (ss : List F)
      → ((r : Candidate F) → Among cs r → Among all r)
      → Ranked all (zip cs ss)
  unfolding zip Ranked
  zip-Ranked all [] ss h = tt
  zip-Ranked all (c ∷ cs) [] h = tt
  zip-Ranked all (c ∷ cs) (s ∷ ss) h =
      (h _ (inl (refl, refl)), zip-Ranked all cs ss λ r a. h r (inr a))

  named-Among :
      (cs : List (Candidate F)) (n : ℕ) (c : Candidate F) (s : F)
      → get_elem? cs n ≡ some c
      → Among cs (rescored (c, s))
  named-Among [] n c s h = ground arith
  named-Among (d ∷ cs) zero c s h =
      let same : d ≡ c = ap (λ o. get_or o d) h in
      inl (ap (λ x. x.chunk_id) (sym same), ap (λ x. x.text) (sym same))
  named-Among (d ∷ cs) (suc n) c s h = inr (named-Among cs n c s h)

  module _ (order : IsOrder services.gt) where
    Ranked-Contract :
        (candidates : List (Candidate F)) (top_k : ℕ) (m : Metrics)
        (scored : List (Candidate F × F))
        → Ranked candidates scored
        → Contract candidates top_k m (
          ok (map rescored (take top_k (best_first services scored)), false),
          record_rerank false m,
        )
    unfolding Ranked record_rerank
    Ranked-Contract candidates top_k m scored h =
        let best = sort_desc services.gt (λ p. p.1) scored in
        let top = take top_k best in
        (
          omega (arith, length-map rescored top, length-take top_k best),
          mapped (λ r. Among candidates r) top
              (All-take _ top_k best (
                All-sort_desc services.gt (λ p. p.1) (λ p. Among candidates (rescored p)) scored
                  h)),
          map-IsDescending top (
              take-IsDescending services.gt (λ p. p.1) top_k best
                (sort_desc-IsDescending services.gt (λ p. p.1) order scored)),
          inr (omega arith, omega arith),
        )

    settle_bge-Contract :
        (c : Candidate F) (cs : List (Candidate F)) (top_k : ℕ) (m : Metrics) (scores : List F)
        (timed_out : Bool)
        → Contract
            (c ∷ cs)
            top_k
            m
            (ok (settle_bge services (c ∷ cs) top_k scores timed_out), record_rerank timed_out m)
    unfolding settle_bge record_rerank
    settle_bge-Contract c cs top_k m scores true = (refl, (refl, refl))
    settle_bge-Contract c cs top_k m scores false =
        Ranked-Contract (c ∷ cs) top_k m (zip (c ∷ cs) scores)
          (zip-Ranked (c ∷ cs) (c ∷ cs) scores λ r a. a)

    bge_scored-Contract :
        (c : Candidate F) (cs : List (Candidate F)) (top_k timeout_ms : ℕ) (m : Metrics)
        (r : Result (List F × F))
        → Contract (c ∷ cs) top_k m (bge_scored services (c ∷ cs) top_k timeout_ms m r)
    unfolding bge_scored
    bge_scored-Contract c cs top_k timeout_ms m (raised e) = refl
    bge_scored-Contract c cs top_k timeout_ms m (ok (scores, elapsed_ms)) =
        settle_bge-Contract c cs top_k m scores _

    bge-Contract :
        (query : Text) (candidates : List (Candidate F)) (top_k timeout_ms : ℕ) (m : Metrics)
        → Contract candidates top_k m (bge_rerank services query candidates top_k timeout_ms m)
    unfolding bge_rerank
    bge-Contract query [] top_k timeout_ms m = (omega arith, tt, tt, inl (refl, refl))
    bge-Contract query (c ∷ cs) top_k timeout_ms m = bge_scored-Contract c cs top_k timeout_ms m _

    nothing-Ranked :
        (candidates : List (Candidate F)) (scored : List (Candidate F × F))
        → ok [] ≡ ok scored
        → Ranked candidates scored
    unfolding Ranked
    nothing-Ranked candidates [] h = tt
    nothing-Ranked candidates (p ∷ ps) h = ground arith

    scored_row-Ranked :
        (candidates : List (Candidate F)) (o : Option (Candidate F)) (score : Option F)
        (first : List (Candidate F × F))
        → ((c : Candidate F) (s : F) → o ≡ some c → Among candidates (rescored (c, s)))
        → scored_row services o score ≡ ok first
        → Ranked candidates first
    unfolding Ranked
    scored_row-Ranked candidates none score first among h = nothing-Ranked candidates first h
    scored_row-Ranked candidates (some c) none first among h = ground arith
    scored_row-Ranked candidates (some c) (some s) first among h =
        let one : Ranked candidates ((c, s) ∷ []) = (among c s refl, tt) in
        let same : (c, s) ∷ [] ≡ first = ap (λ r. ok_or r first) h in
        subst (λ ps. Ranked candidates ps) same one

    first-Ranked :
        (candidates : List (Candidate F)) (i : ℤ) (score : Option F)
        (first : List (Candidate F × F))
        → scored_row services (named services candidates i) score ≡ ok first
        → Ranked candidates first
    first-Ranked candidates (negsuc n) score first h = nothing-Ranked candidates first h
    first-Ranked candidates (pos n) score first h =
        scored_row-Ranked candidates (get_elem? candidates n) score first
          (λ c s e. named-Among candidates n c s e) h

    scored_rows-Ranked :
        (candidates : List (Candidate F)) (rs : List (Row F)) (scored : List (Candidate F × F))
        → scored_rows services candidates rs ≡ ok scored
        → Ranked candidates scored
    unfolding scored_rows Ranked
    scored_rows-Ranked candidates [] scored h = nothing-Ranked candidates scored h
    scored_rows-Ranked candidates (row ∷ more) scored h =
        let (first, e, h') = bind-eq-ok _ _ h in
        let (rest, e', h'') = bind-eq-ok _ _ h' in
        rw (ap (λ r. ok_or r scored) h'') at (
          All-append (λ p. Among candidates (rescored p)) first rest
            (first-Ranked candidates row.index row.relevance_score first e)
            (scored_rows-Ranked candidates more rest e'))

    settle_cohere-Contract :
        (candidates : List (Candidate F)) (top_k : ℕ) (m : Metrics)
        (read : Result (List (Candidate F × F)))
        → ((scored : List (Candidate F × F)) → read ≡ ok scored → Ranked candidates scored)
        → Contract candidates top_k m (settle_cohere services candidates top_k m read)
    unfolding settle_cohere record_rerank
    settle_cohere-Contract candidates top_k m (raised e) h = refl
    settle_cohere-Contract candidates top_k m (ok []) h = (refl, (refl, refl))
    settle_cohere-Contract candidates top_k m (ok (p ∷ ps)) h =
        Ranked-Contract candidates top_k m (p ∷ ps) (h _ refl)

    read_reply-Ranked :
        (candidates : List (Candidate F)) (reply : Reply F) (scored : List (Candidate F × F))
        → read_reply services candidates reply ≡ ok scored
        → Ranked candidates scored
    unfolding Ranked
    read_reply-Ranked candidates timed_out_reply scored h = nothing-Ranked candidates scored h
    read_reply-Ranked candidates http_failure scored h = nothing-Ranked candidates scored h
    read_reply-Ranked candidates not_json scored h = ground arith
    read_reply-Ranked candidates (rows rs) scored h = scored_rows-Ranked candidates rs scored h

    authorised-Contract :
        (key : Text) (candidates : List (Candidate F)) (top_k : ℕ) (m : Metrics)
        (call : Result (Answer F) × Metrics)
        → Contract candidates top_k m call
        → Contract candidates top_k m (authorised services key m call)
    authorised-Contract [] candidates top_k m call h = refl
    authorised-Contract (k ∷ key) candidates top_k m call h = h

    cohere-Contract :
        (query : Text) (candidates : List (Candidate F)) (top_k timeout_ms : ℕ) (m : Metrics)
        → Contract candidates top_k m (cohere_rerank services query candidates top_k timeout_ms m)
    unfolding cohere_rerank
    cohere-Contract query [] top_k timeout_ms m = (omega arith, tt, tt, inl (refl, refl))
    cohere-Contract query (c ∷ cs) top_k timeout_ms m = authorised-Contract _ (c ∷ cs) top_k m _ (
        settle_cohere-Contract (c ∷ cs) top_k m _ λ scored h. read_reply-Ranked (c ∷ cs) _ scored h)

    dispatch-Contract :
        (query : Text) (candidates : List (Candidate F)) (top_k timeout_ms : ℕ) (m : Metrics)
        (b : Result Backend)
        → Contract candidates top_k m (dispatch services query candidates top_k timeout_ms m b)
    dispatch-Contract query candidates top_k timeout_ms m (raised e) = refl
    dispatch-Contract query candidates top_k timeout_ms m (ok bge) =
        bge-Contract query candidates top_k timeout_ms m
    dispatch-Contract query candidates top_k timeout_ms m (ok cohere) =
        cohere-Contract query candidates top_k timeout_ms m

    -- Whichever backend is named, a rerank keeps the contract: a fallback is the retrieval order cut
    -- to `top_k`, flagged and counted as a breach; a rerank is at most `top_k` of the candidates by
    -- descending score; a raise counts nothing. Scores are floats that compare, none of them a NaN.
    pub rerank_candidates-Contract :
        (query : Text) (candidates : List (Candidate F)) (top_k timeout_ms : ℕ) (name : Option Text)
        (m : Metrics)
        → Contract candidates top_k m
            (rerank_candidates services query candidates top_k timeout_ms name m)
    unfolding rerank_candidates
    rerank_candidates-Contract query candidates top_k timeout_ms name m =
        dispatch-Contract query candidates top_k timeout_ms m (resolve_reranker services name)
