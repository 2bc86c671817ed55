-- ===== src/Ai/Rag/Serve.antt =====
-- What a repeated question costs, and whose chunks an answer cites.
use arush_adabala_tax_liabil.Prelude.{
  ◌≡◌, refl, ap, ◌∙◌, Bool, Option, none, some, List, [], ◌∷◌, map, if◌then◌else◌, ==_refl, Result,
  ok, raised, ok_or, string_eq, nat_eq, list_eq,
}
use mathlib.Core.Path.{subst}
use arush_adabala_tax_liabil.Prelude.Text.{Text}
use arush_adabala_tax_liabil.Ai.Cache.{default_ttl_seconds}
use arush_adabala_tax_liabil.Agent.Budget.{Usage}
use arush_adabala_tax_liabil.Ai.Cache.{Redis, Codec, cache_lookup, cache_store, Laws}
use arush_adabala_tax_liabil.Ai.Cache.Isolation.{
  Owned, Owned-any, cache_lookup-Owned, cache_lookup-cache_store,
}
use arush_adabala_tax_liabil.Ai.Rerank.{Metrics, Candidate}
use arush_adabala_tax_liabil.Ai.Rag.{
  Flags, CitedChunk, Payload, Generated, Pipeline, Sidecar, cite, answer_of, settle_answer,
  generate, after_lookup, retrieve_and_generate,
}

abbrev pub tenants : {F : Type 0} → List (CitedChunk F) → List (Option (Option Text))
tenants cs = map (λ c. some (some c.tenant_id)) cs

cited-Owned :
    {F : Type 0} (t : Text) (cs : List (Candidate F)) → Owned t (tenants (map (cite t) cs))
cited-Owned t [] = tt
cited-Owned t (c ∷ cs) = (rw (==_refl t) refl, cited-Owned t cs)

module _ {S Q M F : Type 0} (redis : Redis S) (codec : Codec Q (Payload F)) (world : Pipeline Q M F)
    (flags : Flags) where
  -- the answer is the tenant's, and the store serves it to the same question
  abbrev Served : Text → Text → Payload F → Sidecar S → Type 0
  Served query t a s = cache_lookup redis codec s.store (world.encode query) t ≡ ok (some a)

  module _ (laws : Laws redis codec)
      (reads : (a : Payload F) → codec.citations a ≡ tenants a.citations) where
    answer-Owned :
        (t : Text) (context : List (Candidate F) × Bool) (message : Generated)
        → Owned t (codec.citations (answer_of t context message))
    unfolding answer_of
    answer-Owned t (reranked, timed_out) message = rw (reads _) (cited-Owned t reranked)

    settle_answer-Served :
        (query t : Text) (s : Sidecar S) (context : List (Candidate F) × Bool)
        (end : Result Generated) (a : Payload F) (u : Option Usage) (s' : Sidecar S)
        → settle_answer redis codec world flags query t s context end ≡ (ok (a, u), s')
        → Served query t a s'
    unfolding settle_answer
    settle_answer-Served query t s context (raised e) a u s' h = cc
    settle_answer-Served query t s context (ok message) a u s' h =
        let answer = answer_of t context message in
        let store =
          cache_store redis codec s.store (world.encode query) t answer default_ttl_seconds in
        let after : Sidecar S = record s { store = store } in
        let owned = Owned-any t (codec.citations answer) (answer-Owned t context message) in
        let served : Served query t answer after =
          cache_lookup-cache_store redis codec laws s.store (world.encode query) t answer
            default_ttl_seconds
          ∙ ap (λ b. ok (if b then none else some answer)) owned in
        let same : answer ≡ a =
          ap (λ p. (ok_or {A = Payload F × Option Usage} p.0 (answer, none)).0) h in
        subst (λ x. Served query t a x) (ap (λ p. p.1) h)
          (subst (λ x. Served query t x after) same served)

    generate-Served :
        (query t : Text) (s : Sidecar S) (ranked : Result (List (Candidate F) × Bool) × Metrics)
        (a : Payload F) (u : Option Usage) (s' : Sidecar S)
        → generate redis codec world flags query t s ranked ≡ (ok (a, u), s')
        → Served query t a s'
    unfolding generate
    generate-Served query t s (raised e, m) a u s' h = cc
    generate-Served query t s (ok context, m) a u s' h =
        settle_answer-Served query t _ context _ a u s' h

    after_lookup-Served :
        (query t : Text) (filter : Option M) (s : Sidecar S) (found : Result (Option (Payload F)))
        (a : Payload F) (u : Option Usage) (s' : Sidecar S)
        → cache_lookup redis codec s.store (world.encode query) t ≡ found
        → after_lookup redis codec world flags query t filter s found ≡ (ok (a, u), s')
        → Served query t a s'
    unfolding after_lookup
    after_lookup-Served query t filter s (raised e) a u s' looked h = cc
    after_lookup-Served query t filter s (ok (some cached)) a u s' looked h =
        let same : cached ≡ a =
          ap (λ p. (ok_or {A = Payload F × Option Usage} p.0 (cached, none)).0) h in
        subst (λ x. Served query t a x) (ap (λ p. p.1) h)
          (subst (λ x. Served query t x s) same looked)
    after_lookup-Served query t filter s (ok none) a u s' looked h =
        generate-Served query t s _ a u s' h

    -- Once a question has been answered, the same question of the same tenant is answered alike, under
    -- any filter: with no usage, and without a change of the store or the counters. Every citation of
    -- the answer is labelled with that tenant.
    pub retrieve_and_generate_again :
        (query t : Text) (filter filter' : Option M) (s s' : Sidecar S) (a : Payload F)
        (u : Option Usage)
        → retrieve_and_generate redis codec world flags query t filter s ≡ (ok (a, u), s')
        → (retrieve_and_generate redis codec world flags query t filter' s' ≡ (ok (a, none), s'))
          × Owned t (codec.citations a)
    unfolding retrieve_and_generate after_lookup
    retrieve_and_generate_again query t filter filter' s s' a u h =
        let served = after_lookup-Served query t filter s _ a u s' refl h in
        (
          ap (λ found. after_lookup redis codec world flags query t filter' s' found) served,
          cache_lookup-Owned redis codec s'.store (world.encode query) t a served,
        )
