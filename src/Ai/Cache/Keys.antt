-- ===== src/Ai/Cache/Keys.antt =====
-- The keys of cache.py, taken apart.
use arush_adabala_tax_liabil.Prelude.{
  ℕ, ◌≡◌, ap, ◌≢◌, some, [], ◌∷◌, ◌++◌, arith, get_elem?, All, string_eq, nat_eq, list_eq,
}
use arush_adabala_tax_liabil.Prelude.Text.{Text, codes}
use arush_adabala_tax_liabil.Prelude.Text.Decimal.{
  decimal, IsDigit, decimal-IsDigit, decimal_injective,
}
use arush_adabala_tax_liabil.Prelude.Text.Separator.{Free, split_last_unique, append_cancel}
use arush_adabala_tax_liabil.Ai.Cache.{epoch_key, semantic_prefix, semantic_key}

digits-Free : (s : Text) → All IsDigit s → Free b':' s
digits-Free [] h = tt
digits-Free (c ∷ s) h = (ground arith, digits-Free s h.1)

-- Two cache keys are one key only for one tenant, one epoch and one digest, where digests hold no
-- colon; tenants may be any text.
pub semantic_key_injective :
    (t t' : Text) (n n' : ℕ) (d d' : Text)
    → Free b':' d
    → Free b':' d'
    → semantic_key t n d ≡ semantic_key t' n' d'
    → (t ≡ t') × (n ≡ n') × (d ≡ d')
unfolding semantic_key
semantic_key_injective t t' n n' d d' h h' e =
    let (heads, digests) =
      split_last_unique b':' ((semantic_prefix ++ t) ++ b':' ∷ b'e' ∷ decimal n)
        ((semantic_prefix ++ t') ++ b':' ∷ b'e' ∷ decimal n') d d' h h' e in
    let parts : (semantic_prefix ++ t ≡ semantic_prefix ++ t')
        × (b'e' ∷ decimal n ≡ b'e' ∷ decimal n') =
      split_last_unique b':' (semantic_prefix ++ t) (semantic_prefix ++ t') (b'e' ∷ decimal n)
        (b'e' ∷ decimal n') ((omega arith), digits-Free _ (decimal-IsDigit n))
        ((omega arith), digits-Free _ (decimal-IsDigit n')) heads in
    (
      append_cancel semantic_prefix t t' parts.0,
      decimal_injective n n' (append_cancel (b'e' ∷ []) (decimal n) (decimal n') parts.1),
      digests,
    )

pub epoch_key_injective : (t t' : Text) → epoch_key t ≡ epoch_key t' → t ≡ t'
unfolding epoch_key
epoch_key_injective t t' e = append_cancel (codes "taxcalc_ai:cache-epoch:") t t' e

pub epoch_key-apart : (t t' : Text) (n : ℕ) (d : Text) → epoch_key t ≢ semantic_key t' n d
unfolding epoch_key semantic_key
epoch_key-apart t t' n d e =
    let at_eleven : some 99 ≡ some 115 = ap (λ s. get_elem? s 11) e in ground (arith, at_eleven)
