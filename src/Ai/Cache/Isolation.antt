-- ===== src/Ai/Cache/Isolation.antt =====
-- Lookups of cache.py, after stores of the same tenant and of others.
use arush_adabala_tax_liabil.Prelude.{
  ℕ, ◌≡◌, refl, sym, ap, ◌∙◌, ◌≢◌, inl, inr, false, Option, none, some, List, [], ◌∷◌, arith,
  if◌then◌else◌, Bool-cases, any, All, ok, ok_or, string_eq, nat_eq, list_eq,
}
use arush_adabala_tax_liabil.Prelude.Text.{Text}
use arush_adabala_tax_liabil.Prelude.Dict.{get_or}
use arush_adabala_tax_liabil.Ai.Cache.{
  Redis, Codec, epoch_key, mismatch, bucket_key, read_epoch, get_epoch, vetted, read_answer,
  read_entry, cache_lookup, cache_store, Laws,
}
use arush_adabala_tax_liabil.Ai.Cache.Keys.{semantic_key_injective, epoch_key-apart}

-- Every citation that is a mapping names the tenant.
abbrev pub Owned : Text → List (Option (Option Text)) → Type 0
Owned tenant_id citations = All (λ c. mismatch tenant_id c ≡ false) citations

any-Owned : (t : Text) (cs : List (Option (Option Text))) → any (mismatch t) cs ≡ false → Owned t cs
any-Owned t [] h = tt
any-Owned t (c ∷ cs) h = elim (Bool-cases (mismatch t c)) [
  | inl e ↦ absurd (let h' = rw e at h in ground arith)
  | inr e ↦ (e, any-Owned t cs (rw e at h))
]

pub Owned-any :
    (t : Text) (cs : List (Option (Option Text))) → Owned t cs → any (mismatch t) cs ≡ false
Owned-any t [] h = refl
Owned-any t (c ∷ cs) h = rw (h.0) (Owned-any t cs h.1)

module _ {S Q J : Type 0} (redis : Redis S) (codec : Codec Q J) where
  vetted-Owned :
      (t : Text) (answer a : J) → vetted redis codec t answer ≡ some a → Owned t (codec.citations a)
  vetted-Owned t answer a h = elim (Bool-cases (any (mismatch t) (codec.citations answer))) [
    | inl e ↦ absurd (let h' = rw e at h in ground arith)
    | inr e ↦
        let h' : some answer ≡ some a = rw e at h in
        let same : answer ≡ a = ap (λ o. get_or o answer) h' in
        rw same at (any-Owned t (codec.citations answer) e)
  ]

  read_answer-Owned :
      (t : Text) (o : Option J) (a : J)
      → read_answer redis codec t o ≡ ok (some a)
      → Owned t (codec.citations a)
  read_answer-Owned t none a h = ground arith
  read_answer-Owned t (some answer) a h = vetted-Owned t answer a (ap (λ r. ok_or r none) h)

  read_entry-Owned :
      (t : Text) (raw : Option Text) (a : J)
      → read_entry redis codec t raw ≡ ok (some a)
      → Owned t (codec.citations a)
  read_entry-Owned t none a h = ground arith
  read_entry-Owned t (some raw) a h = read_answer-Owned t (codec.loads raw) a h

  -- Whatever stands in the store, an answer that a lookup serves cites only the requesting tenant.
  pub cache_lookup-Owned :
      (r : S) (query : Q) (t : Text) (a : J)
      → cache_lookup redis codec r query t ≡ ok (some a)
      → Owned t (codec.citations a)
  unfolding cache_lookup
  cache_lookup-Owned r query t a h = read_entry-Owned t _ a h

  module _ (laws : Laws redis codec) where
    pub epoch-store :
        (r : S) (query : Q) (t t' : Text) (a : J) (ttl : ℕ)
        → get_epoch redis codec (cache_store redis codec r query t a ttl) t'
          ≡ get_epoch redis codec r t'
    unfolding get_epoch cache_store bucket_key
    epoch-store r query t t' a ttl =
        ap (λ o. read_epoch redis codec o)
          (laws.get-set_other r _ (epoch_key t') _ ttl (λ e. epoch_key-apart t' t _ _ (sym e)))

    -- An answer that was stored is served to the same tenant and bucket, if its citations are the
    -- tenant's; one that cites another tenant is a miss for good.
    pub cache_lookup-cache_store :
        (r : S) (query : Q) (t : Text) (a : J) (ttl : ℕ)
        → cache_lookup redis codec (cache_store redis codec r query t a ttl) query t
          ≡ ok (if any (mismatch t) (codec.citations a) then none else some a)
    unfolding cache_lookup cache_store bucket_key
    cache_lookup-cache_store r query t a ttl = rw (epoch-store r query t t a ttl) (
        ap (λ o. read_entry redis codec t o) (laws.get-set r _ (codec.dumps a) ttl)
        ∙ ap (λ o. read_answer redis codec t o) (laws.loads-dumps a))

    -- A store for one tenant leaves every lookup of another as it was, for any query.
    pub cache_store-isolated :
        (r : S) (query query' : Q) (t t' : Text) (a : J) (ttl : ℕ)
        → t ≢ t'
        → cache_lookup redis codec (cache_store redis codec r query t a ttl) query' t'
          ≡ cache_lookup redis codec r query' t'
    unfolding cache_lookup cache_store bucket_key
    cache_store-isolated r query query' t t' a ttl apart = rw (epoch-store r query t t' a ttl) (
        ap (λ o. read_entry redis codec t' o)
          (laws.get-set_other r _ _ (codec.dumps a) ttl λ e. apart (
            (semantic_key_injective t t' _ _ _ _ (laws.digest-Free query) (laws.digest-Free query')
              e).0)))
