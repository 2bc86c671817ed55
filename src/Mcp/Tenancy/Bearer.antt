-- ===== src/Mcp/Tenancy/Bearer.antt =====
-- tenancy.py: `parse_bearer` beside `auth_headers`.
use arush_adabala_tax_liabil.Prelude.{
  ℕ, ◌≡◌, refl, ◌∙◌, ◌≢◌, inl, inr, false, Option, none, some, [], ◌∷◌, ◌++◌, map, arith,
  if◌then◌else◌, Bool-cases, ◌==◌, string_eq, nat_eq, list_eq,
}
use arush_adabala_tax_liabil.Prelude.Text.{Text, codes}
use arush_adabala_tax_liabil.Prelude.Dict.{lookup}
use arush_adabala_tax_liabil.Prelude.Equality.{list_beq}
use arush_adabala_tax_liabil.Mcp.Tenancy.{
  set_request_identity, auth_headers, bearer_token, or_text, partition_space, lower, is_space,
  drop_spaces, drop_last_spaces, strip, parse_bearer,
}

drop_last_step : Text → ℕ → Text
drop_last_step [] c = if is_space c then [] else c ∷ []
drop_last_step (d ∷ t) c = c ∷ d ∷ t

drop_last-step :
    (c : ℕ) (s : Text) → drop_last_spaces (c ∷ s) ≡ drop_last_step (drop_last_spaces s) c
unfolding drop_last_step drop_last_spaces
drop_last-step c s = ground arith

drop_last-cons :
    (c d : ℕ) (t : Text)
    → drop_last_spaces (d ∷ t) ≡ d ∷ t
    → drop_last_spaces (c ∷ d ∷ t) ≡ c ∷ d ∷ t
unfolding drop_last_step
drop_last-cons c d t h = rw (drop_last-step c (d ∷ t), h) refl

drop_last_again_step :
    (c : ℕ) (s : Text)
    → drop_last_spaces s ≡ s
    → drop_last_spaces (drop_last_step s c) ≡ drop_last_step s c
unfolding drop_last_step drop_last_spaces
drop_last_again_step c [] h = ground arith
drop_last_again_step c (d ∷ t) h = drop_last-cons c d t h

drop_last_again : (s : Text) → drop_last_spaces (drop_last_spaces s) ≡ drop_last_spaces s
drop_last_again [] = unfold drop_last_spaces in refl
drop_last_again (c ∷ s) =
    rw (drop_last-step c s) (drop_last_again_step c (drop_last_spaces s) (drop_last_again s))

-- A text that does not begin with white space.
Flush : Text → Type 0
Flush [] = Unit
Flush (c ∷ s) = is_space c ≡ false

drop_spaces-Flush : (s : Text) → Flush (drop_spaces s)
unfolding drop_spaces Flush
drop_spaces-Flush [] = tt
drop_spaces-Flush (c ∷ s) = elim (Bool-cases (is_space c)) [
  | inl e ↦ rw e (drop_spaces-Flush s)
  | inr e ↦ rw e e
]

drop_spaces-fixes-Flush : (s : Text) → Flush s → drop_spaces s ≡ s
unfolding drop_spaces Flush
drop_spaces-fixes-Flush [] h = refl
drop_spaces-fixes-Flush (c ∷ s) h = rw h refl

step-Flush : (c : ℕ) (s : Text) → is_space c ≡ false → Flush (drop_last_step s c)
unfolding drop_last_step Flush
step-Flush c [] h = rw h h
step-Flush c (d ∷ s) h = h

drop_last-Flush : (s : Text) → Flush s → Flush (drop_last_spaces s)
drop_last-Flush [] h = unfold drop_last_spaces in h
drop_last-Flush (c ∷ s) h =
    rw (drop_last-step c s) (step-Flush c (drop_last_spaces s) (unfold Flush in h))

strip_again : (s : Text) → strip (strip s) ≡ strip s
unfolding strip
strip_again s =
    rw
      (drop_spaces-fixes-Flush (drop_last_spaces (drop_spaces s))
        (drop_last-Flush (drop_spaces s) (drop_spaces-Flush s)))
      (drop_last_again (drop_spaces s))

parse_partitioned : Text × Text → Text
parse_partitioned (scheme, token) = if map lower scheme == codes "bearer" then strip token else []

parse-partitioned : (h : Text) → parse_bearer (some h) ≡ parse_partitioned (partition_space h)
unfolding parse_bearer parse_partitioned
parse-partitioned h = refl

partitioned-strip : (p : Text × Text) → strip (parse_partitioned p) ≡ parse_partitioned p
unfolding parse_partitioned
partitioned-strip (scheme, token) = elim (Bool-cases (map lower scheme == codes "bearer")) [
  | inl e ↦ rw e (strip_again token)
  | inr e ↦ rw e (unfold strip drop_spaces drop_last_spaces in refl)
]

pub parse_bearer-strip : (header : Option Text) → strip (parse_bearer header) ≡ parse_bearer header
parse_bearer-strip none = unfold strip drop_spaces drop_last_spaces parse_bearer in refl
parse_bearer-strip (some h) = rw (parse-partitioned h) (partitioned-strip (partition_space h))

parse_prefixed : (t : Text) → parse_bearer (some (codes "Bearer " ++ t)) ≡ strip t
unfolding parse_bearer partition_space lower strip list_beq
parse_prefixed t = refl

or_text_left : (a b : Text) → a ≢ [] → or_text a b ≡ a
or_text_left [] b h = absurd (h refl)
or_text_left (c ∷ a) b h = refl

-- The credential that a request is forwarded with reads back as the one that came in, whatever white
-- space and case its header had, and never as the configured one.
pub parse_bearer-auth_headers :
    (header : Option Text) (tenant configured tenant_id : Text)
    → parse_bearer header ≢ []
    → parse_bearer (
        lookup "Authorization"
          (auth_headers (set_request_identity (parse_bearer header) tenant) configured tenant_id))
      ≡ parse_bearer header
unfolding auth_headers set_request_identity bearer_token lookup
parse_bearer-auth_headers header tenant configured tenant_id h =
    rw (or_text_left (parse_bearer header) configured h)
      (parse_prefixed (parse_bearer header) ∙ parse_bearer-strip header)
