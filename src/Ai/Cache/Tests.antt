-- ===== src/Ai/Cache/Tests.antt =====
-- The cache over a Redis that is a function from keys: a store, a bump, and another tenant.
use arush_adabala_tax_liabil.Prelude.{
  ℕ, ◌≡◌, refl, ◌≢◌, none, some, [], ◌∷◌, ok, string_eq, nat_eq, list_eq,
}
use arush_adabala_tax_liabil.Prelude.Text.{Text, codes}
use arush_adabala_tax_liabil.Ai.Cache.{Codec, cache_lookup, cache_store, bump_epoch, Laws}
use arush_adabala_tax_liabil.Ai.Cache.Memory.{Store, redis, codec_of, laws_of}
use arush_adabala_tax_liabil.Ai.Cache.Epochs.{here, after, stored, bump_epoch-invalidates}

-- an answer is the tenant that its one citation names
abbrev codec : Codec ℕ Text
codec = codec_of (λ t. some t) (λ a. a) (λ a. some (some a) ∷ [])

laws : Laws redis codec
laws = laws_of (λ t. some t) (λ a. a) (λ a. some (some a) ∷ []) (λ a. refl)

abbrev empty : Store
empty = λ k. none

abbrev mine : Text
mine = codes "mine"

bump_epoch-invalidates_example :
    (cache_lookup redis codec
        (bump_epoch redis codec (cache_store redis codec empty 1 mine mine 3600) mine).1
        1
        mine
      ≡ ok none)
    × ((t' : Text)
        → mine ≢ t'
        → cache_lookup redis codec
            (bump_epoch redis codec (cache_store redis codec empty 1 mine mine 3600) mine).1
            1
            t'
          ≡ cache_lookup redis codec (cache_store redis codec empty 1 mine mine 3600) 1 t')
bump_epoch-invalidates_example =
    bump_epoch-invalidates redis codec laws empty (cache_store redis codec empty 1 mine mine 3600)
      mine 1 (λ k. refl) (after here (stored empty 1 mine mine 3600))
