-- ===== src/Ai/Cache.antt =====
-- cache.py: the semantic cache of one tenant's answers. Redis, the digest of the quantised query
-- vector, `int` and the JSON library are parameters: what the code relies on of them is in `Laws`.
-- A query `Q` stands for its vector, `J` for an answer.
pub mod Keys
pub mod Isolation
pub mod Epochs
pub mod Memory
mod Tests
use arush_adabala_tax_liabil.Prelude.{
  ℕ, zero, suc, ◌+◌, ◌-◌, ◌*◌, ◌/◌, ◌%◌, ◌≤◌, ◌<◌, min, String, ◌≡◌, refl, sym, ap, ◌∙◌, ◌≢◌, ◌↔◌,
  ◌⊎◌, inl, inr, Bool, true, false, not, ◌&&◌, ◌||◌, Option, none, some, List, [], ◌∷◌, ◌++◌, map,
  arith, ltb, leb, if◌then◌else◌, Bool-cases, Option-cases, leb→le, lt→ltb, Eq, ◌==◌, ==_refl,
  length, take, get_elem?, length-append, length-take, length-map, any, All, All-append, All-take,
  contains, Exc, Result, ok, raised, bind, bind-eq-ok, Result-cases, ok_injective, ok_or,
  budget_exceeded, value_error, key_error, type_error, runtime_error, timeout_error,
  validation_error, dependency_unavailable, string_eq, nat_eq, list_eq, graph_recursion,
  http_timeout, http_error, cancelled, other,
}
use arush_adabala_tax_liabil.Prelude.Text.{Text, codes}
use arush_adabala_tax_liabil.Prelude.Text.Decimal.{decimal}
use arush_adabala_tax_liabil.Prelude.Text.Separator.{Free}

abbrev pub default_ttl_seconds : ℕ
default_ttl_seconds = 3600

-- `incr` answers the new count.
pub record Redis (S : Type 0) : Type 0 where
  pub get : S → Text → Option Text
  pub set : S → Text → Text → ℕ → S
  pub incr : S → Text → ℕ × S

-- A citation that is no mapping is `none`; one without a tenant holds `none`.
pub record Codec (Q J : Type 0) : Type 0 where
  pub digest : Q → Text
  pub int : Text → ℕ
  pub loads : Text → Option J
  pub dumps : J → Text
  pub citations : J → List (Option (Option Text))

unfoldable pub epoch_key : Text → Text
epoch_key tenant_id = codes "taxcalc_ai:cache-epoch:" ++ tenant_id

abbrev pub semantic_prefix : Text
semantic_prefix = codes "taxcalc_ai:sem:"

unfoldable pub semantic_key : Text → ℕ → Text → Text
semantic_key tenant_id epoch digest =
    ((semantic_prefix ++ tenant_id) ++ b':' ∷ b'e' ∷ decimal epoch) ++ b':' ∷ digest

-- `citation.get("tenant_id") != tenant_id`, for a citation that is a mapping
abbrev pub mismatch : Text → Option (Option Text) → Bool
mismatch tenant_id none = false
mismatch tenant_id (some none) = true
mismatch tenant_id (some (some owner)) = not (owner == tenant_id)

module _ {S Q J : Type 0} (redis : Redis S) (codec : Codec Q J) where
  unfoldable pub bucket_key : Q → Text → ℕ → Text
  bucket_key query tenant_id epoch = semantic_key tenant_id epoch (codec.digest query)

  abbrev pub read_epoch : Option Text → ℕ
  read_epoch none = 0
  read_epoch (some raw) = codec.int raw

  unfoldable pub get_epoch : S → Text → ℕ
  get_epoch r tenant_id = read_epoch (redis.get r (epoch_key tenant_id))

  unfoldable pub bump_epoch : S → Text → ℕ × S
  bump_epoch r tenant_id = redis.incr r (epoch_key tenant_id)

  abbrev pub vetted : Text → J → Option J
  vetted tenant_id answer =
      if any (mismatch tenant_id) (codec.citations answer) then none else some answer

  -- what is made of the stored text; text that is no JSON raises
  abbrev pub read_answer : Text → Option J → Result (Option J)
  read_answer tenant_id none = raised value_error
  read_answer tenant_id (some answer) = ok (vetted tenant_id answer)

  abbrev pub read_entry : Text → Option Text → Result (Option J)
  read_entry tenant_id none = ok none
  read_entry tenant_id (some raw) = read_answer tenant_id (codec.loads raw)

  unfoldable pub cache_lookup : S → Q → Text → Result (Option J)
  cache_lookup r query tenant_id =
      read_entry tenant_id (redis.get r (bucket_key query tenant_id (get_epoch r tenant_id)))

  unfoldable pub cache_store : S → Q → Text → J → ℕ → S
  cache_store r query tenant_id answer ttl_seconds =
      redis.set r (bucket_key query tenant_id (get_epoch r tenant_id)) (codec.dumps answer)
        ttl_seconds

  -- A key that was just written holds its value, other keys keep theirs, `incr` counts in decimal
  -- from zero; `int` reads a decimal back; a digest is hexadecimal; JSON text reads back.
  pub record Laws : Type 0 where
    pub get-set : (r : S) (k v : Text) (ttl : ℕ) → redis.get (redis.set r k v ttl) k ≡ some v
    pub get-set_other :
        (r : S) (k j v : Text) (ttl : ℕ) → k ≢ j → redis.get (redis.set r k v ttl) j ≡ redis.get r j
    pub get-incr :
        (r : S) (k : Text)
        → redis.get (redis.incr r k).1 k ≡ some (decimal (read_epoch (redis.get r k) + 1))
    pub get-incr_other :
        (r : S) (k j : Text) → k ≢ j → redis.get (redis.incr r k).1 j ≡ redis.get r j
    pub int-decimal : (n : ℕ) → codec.int (decimal n) ≡ n
    pub digest-Free : (query : Q) → Free b':' (codec.digest query)
    pub loads-dumps : (answer : J) → codec.loads (codec.dumps answer) ≡ some answer
