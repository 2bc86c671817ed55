-- ===== src/Evals/Contexts.antt =====
-- evals/trajectory.py: `hydrate_contexts`. The query of the corpus is a parameter: it answers rows of
-- a document, an index and a text, or raises. A text is a number if its characters are ASCII digits.
pub mod Corpus
mod Tests
use arush_adabala_tax_liabil.Prelude.{
  ℕ, zero, suc, ◌+◌, ◌-◌, ◌*◌, ◌/◌, ◌%◌, ◌≤◌, ◌<◌, min, String, ◌≡◌, refl, sym, ap, ◌∙◌, ◌≢◌, ◌↔◌,
  ◌⊎◌, inl, inr, Bool, true, false, not, ◌&&◌, ◌||◌, Option, none, some, List, [], ◌∷◌, ◌++◌, map,
  arith, ltb, leb, if◌then◌else◌, Bool-cases, Option-cases, leb→le, lt→ltb, Eq, ◌==◌, ==_refl,
  length, take, get_elem?, length-append, length-take, length-map, any, All, All-append, All-take,
  contains, Exc, Result, ok, raised, bind, bind-eq-ok, Result-cases, ok_injective, ok_or,
  budget_exceeded, value_error, key_error, type_error, runtime_error, timeout_error,
  validation_error, dependency_unavailable, string_eq, nat_eq, list_eq, graph_recursion,
  http_timeout, http_error, cancelled, other,
}
use arush_adabala_tax_liabil.Prelude.Text.{Text, codes, starts_with, occurs, drop_prefix}
use arush_adabala_tax_liabil.Prelude.Text.Decimal.{int}
use arush_adabala_tax_liabil.Prelude.Dict.{get_or}
use arush_adabala_tax_liabil.Agent.State.{Doc}

-- `s.rsplit(t, 1)[1]`, where `t` occurs in `s`
unfoldable pub after_last : Text → Text → Option Text
after_last t [] = none
after_last t (c ∷ s) = elim (after_last t s) [
  | some tail ↦ some tail
  | none ↦ if starts_with t (c ∷ s) then some (drop_prefix t (c ∷ s)) else none
]

unfoldable pub all_digits : Text → Bool
all_digits [] = true
all_digits (c ∷ s) = leb 48 c && leb c 57 && all_digits s

-- `str.isdigit`, which is false of the empty text
unfoldable pub is_digit : Text → Bool
is_digit [] = false
is_digit (c ∷ s) = all_digits (c ∷ s)

unfoldable pub tail_index : Text → ℕ
tail_index tail = if is_digit tail then int tail else 0

unfoldable pub index_of : Text → ℕ
index_of chunk_id =
    if starts_with (codes "chunk-") chunk_id && occurs (codes "-p") chunk_id
    then tail_index (get_or (after_last (codes "-p") chunk_id) [])
    else 0

unfoldable pub keys_of : {F : Type 0} → List (Doc F) → List (Text × ℕ)
keys_of [] = []
keys_of (d ∷ docs) =
    let keys = keys_of docs in
    if d.doc_id == [] then keys else (d.doc_id, index_of d.chunk_id) ∷ keys

pub record Found : Type 0 where
  pub doc_id : Text
  pub chunk_idx : ℕ
  pub chunk_text : Text

-- `found`: of two rows with one key the last counts
unfoldable pub found : Text → ℕ → List Found → Option Text
found d n [] = none
found d n (r ∷ rows) = elim (found d n rows) [
  | some t ↦ some t
  | none ↦ if r.doc_id == d && r.chunk_idx == n then some r.chunk_text else none
]

-- `[found[k] for k in keys if k in found]`
unfoldable pub texts_of : List (Text × ℕ) → List Found → List Text
texts_of [] rows = []
texts_of ((d, n) ∷ keys) rows = elim (found d n rows) [
  | some t ↦ t ∷ texts_of keys rows
  | none ↦ texts_of keys rows
]

unfoldable pub read_texts : List (Text × ℕ) → Result (List Found) → List Text
read_texts keys (ok rows) = texts_of keys rows
read_texts keys (raised e) = []

unfoldable pub fetch_texts : (List (Text × ℕ) → Result (List Found)) → List (Text × ℕ) → List Text
fetch_texts query [] = []
fetch_texts query (k ∷ keys) = read_texts (k ∷ keys) (query (k ∷ keys))

-- with no DSN there is no query
unfoldable pub hydrate_contexts :
    {F : Type 0} → Option (List (Text × ℕ) → Result (List Found)) → List (Doc F) → List Text
hydrate_contexts none docs = []
hydrate_contexts (some query) docs = fetch_texts query (keys_of docs)
