-- ===== src/Ai/Cache/Epochs.antt =====
-- The life of the store: answers stored, epochs bumped, entries expired; what a bump invalidates.
use arush_adabala_tax_liabil.Prelude.{
  ℕ, ◌+◌, ◌≤◌, ◌<◌, ◌≡◌, sym, ap, ◌∙◌, ◌≢◌, ◌⊎◌, inl, inr, none, arith, Bool-cases, ◌==◌, ok,
  string_eq, nat_eq, list_eq,
}
use arush_adabala_tax_liabil.Prelude.Text.{Text}
use arush_adabala_tax_liabil.Prelude.Text.Separator.{Free}
use arush_adabala_tax_liabil.Ai.Cache.{
  Redis, Codec, epoch_key, semantic_key, bucket_key, read_epoch, get_epoch, read_entry, bump_epoch,
  cache_lookup, cache_store, Laws,
}
use arush_adabala_tax_liabil.Ai.Cache.Keys.{
  semantic_key_injective, epoch_key_injective, epoch_key-apart,
}
use arush_adabala_tax_liabil.Ai.Cache.Isolation.{epoch-store}

module _ {S Q J : Type 0} (redis : Redis S) (codec : Codec Q J) where
  -- One step of the store. An expiry drops answers, and no epoch: those keys have no TTL.
  pub data Step : S → S → Type 0 where
    stored :
        (r : S) (query : Q) (t : Text) (a : J) (ttl : ℕ)
        → Step r (cache_store redis codec r query t a ttl)
    bumped : (r : S) (t : Text) → Step r (bump_epoch redis codec r t).1
    expired :
        (r r' : S)
        → ((t : Text) → redis.get r' (epoch_key t) ≡ redis.get r (epoch_key t))
        → ((k : Text) → (redis.get r' k ≡ redis.get r k) ⊎ (redis.get r' k ≡ none))
        → Step r r'

  pub data Reach : S → S → Type 0 where
    here : {r : S} → Reach r r
    after : {r s u : S} → Reach r s → Step s u → Reach r u

  -- Nothing is stored under an epoch that a tenant has not come to.
  abbrev pub IsCurrent : S → Type 0
  IsCurrent r =
      (t d : Text) (n : ℕ)
      → Free b':' d
      → get_epoch redis codec r t < n
      → redis.get r (semantic_key t n d) ≡ none

  module _ (laws : Laws redis codec) where
    epoch-bump :
        (r : S) (t : Text)
        → get_epoch redis codec (bump_epoch redis codec r t).1 t ≡ get_epoch redis codec r t + 1
    unfolding get_epoch bump_epoch
    epoch-bump r t =
        ap (λ o. read_epoch redis codec o) (laws.get-incr r (epoch_key t)) ∙ laws.int-decimal _

    epoch-bump_other :
        (r : S) (t t' : Text)
        → t ≢ t'
        → get_epoch redis codec (bump_epoch redis codec r t).1 t' ≡ get_epoch redis codec r t'
    unfolding get_epoch bump_epoch
    epoch-bump_other r t t' apart =
        ap (λ o. read_epoch redis codec o)
          (laws.get-incr_other r (epoch_key t) (epoch_key t')
            λ e. apart (epoch_key_injective t t' e))

    entry-bump :
        (r : S) (t t' d : Text) (n : ℕ)
        → redis.get (bump_epoch redis codec r t).1 (semantic_key t' n d)
          ≡ redis.get r (semantic_key t' n d)
    unfolding bump_epoch
    entry-bump r t t' d n = laws.get-incr_other r (epoch_key t) _ (epoch_key-apart t t' n d)

    epoch-bump_least :
        (r : S) (t t' : Text)
        → get_epoch redis codec r t' ≤ get_epoch redis codec (bump_epoch redis codec r t).1 t'
    epoch-bump_least r t t' = elim (Bool-cases (t == t')) [
      | inl e ↦
          let same : t ≡ t' = ((list_eq {A = ℕ}).beq_iff t t').0 e in
          rw (sym same) (omega (arith, epoch-bump r t))
      | inr e ↦ omega (
        arith,
        epoch-bump_other r t t'
            (λ same. let h = ((list_eq {A = ℕ}).beq_iff t t').1 same in ground (arith, h, e)),
      )
    ]

    stored-IsCurrent :
        (r : S) (query : Q) (t : Text) (a : J) (ttl : ℕ)
        → IsCurrent r
        → IsCurrent (cache_store redis codec r query t a ttl)
    unfolding cache_store bucket_key
    stored-IsCurrent r query t a ttl h t' d n free future =
        let future' : get_epoch redis codec r t' < n =
          rw (epoch-store redis codec laws r query t t' a ttl) at future in
        laws.get-set_other r _ (semantic_key t' n d) _ ttl (λ k.
          let (same, epoch, digest) =
            semantic_key_injective t t' _ n _ d (laws.digest-Free query) free k in
          omega (arith, ap (λ x. get_epoch redis codec r x) same, epoch, future'))
        ∙ h t' d n free future'

    bumped-IsCurrent : (r : S) (t : Text) → IsCurrent r → IsCurrent (bump_epoch redis codec r t).1
    bumped-IsCurrent r t h t' d n free future =
        entry-bump r t t' d n ∙ h t' d n free (omega (arith, epoch-bump_least r t t'))

    expired-IsCurrent :
        (r r' : S)
        → ((t : Text) → redis.get r' (epoch_key t) ≡ redis.get r (epoch_key t))
        → ((k : Text) → (redis.get r' k ≡ redis.get r k) ⊎ (redis.get r' k ≡ none))
        → IsCurrent r
        → IsCurrent r'
    unfolding get_epoch
    expired-IsCurrent r r' epochs entries h t d n free future =
        elim (entries (semantic_key t n d)) [
          | inl same ↦ same ∙ h t d n free (rw (epochs t) at future)
          | inr gone ↦ gone
        ]

    Step-IsCurrent : (r r' : S) → Step r r' → IsCurrent r → IsCurrent r'
    Step-IsCurrent r r' (stored s query t a ttl) h = stored-IsCurrent r query t a ttl h
    Step-IsCurrent r r' (bumped s t) h = bumped-IsCurrent r t h
    Step-IsCurrent r r' (expired s s' epochs entries) h = expired-IsCurrent r r' epochs entries h

    Reach-IsCurrent : (r r' : S) → Reach r r' → IsCurrent r → IsCurrent r'
    Reach-IsCurrent r r' here h = h
    Reach-IsCurrent r r' (after {s = s} reach step) h =
        Step-IsCurrent s r' step (Reach-IsCurrent r s reach h)

    -- From a store that holds no answers, after any stores, bumps and expiries: a bump makes every
    -- lookup of its tenant a miss, and leaves the lookups of other tenants as they were.
    pub bump_epoch-invalidates :
        (r r' : S) (t : Text) (query : Q)
        → ((k : Text) → redis.get r k ≡ none)
        → Reach r r'
        → (cache_lookup redis codec (bump_epoch redis codec r' t).1 query t ≡ ok none)
          × ((t' : Text)
              → t ≢ t'
              → cache_lookup redis codec (bump_epoch redis codec r' t).1 query t'
                ≡ cache_lookup redis codec r' query t')
    unfolding cache_lookup bucket_key
    bump_epoch-invalidates r r' t query empty reach =
        let current = Reach-IsCurrent r r' reach (λ t d n free future. empty _) in
        let missing =
          entry-bump r' t t (codec.digest query) _
          ∙ current t (codec.digest query) _ (laws.digest-Free query)
              (omega (arith, epoch-bump r' t)) in
        (
          ap (λ o. read_entry redis codec t o) missing,
          λ t' apart.
              rw (epoch-bump_other r' t t' apart)
                (ap (λ o. read_entry redis codec t' o) (entry-bump r' t t' (codec.digest query) _)),
        )
