-- ===== src/Ai/Hybrid.antt =====
-- `rrf_fuse` of hybrid.py. Floats `F` are a parameter with `+`, `/` and `>`; the two
-- retrievers are SQL, and their outputs are arguments.
pub mod Fusion
use arush_adabala_tax_liabil.Prelude.{
  ℕ, zero, suc, ◌+◌, ◌-◌, ◌*◌, ◌/◌, ◌%◌, ◌≤◌, ◌<◌, min, String, ◌≡◌, refl, sym, ap, ◌∙◌, ◌≢◌, ◌↔◌,
  ◌⊎◌, inl, inr, Bool, true, false, not, ◌&&◌, ◌||◌, Option, none, some, List, [], ◌∷◌, ◌++◌, map,
  arith, ltb, leb, if◌then◌else◌, Bool-cases, Option-cases, leb→le, lt→ltb, Eq, ◌==◌, ==_refl,
  length, take, get_elem?, length-append, length-take, length-map, any, All, All-append, All-take,
  contains, Exc, Result, ok, raised, bind, bind-eq-ok, Result-cases, ok_injective, ok_or,
  budget_exceeded, value_error, key_error, type_error, runtime_error, timeout_error,
  validation_error, dependency_unavailable, string_eq, nat_eq, list_eq, graph_recursion,
  http_timeout, http_error, cancelled, other,
}
use arush_adabala_tax_liabil.Prelude.Dict.{Dict, lookup, insert, get_or, or_else}
use arush_adabala_tax_liabil.Prelude.Text.{Text}
use arush_adabala_tax_liabil.Ai.Sorting.{sort_desc}

abbrev pub k_const : ℕ
k_const = 60

pub record Floats (F : Type 0) : Type 0 where
  pub gt : F → F → Bool
  pub add : F → F → F
  pub div : F → F → F
  pub of_int : ℕ → F

-- a row of a retriever: `(chunk_id, chunk_text, score)`
abbrev pub Hit : Type 0 → Type 0
Hit F = Text × Text × F

abbrev pub keep_or_insert : Text → Text → Dict Text Text → Option Text → Dict Text Text
keep_or_insert k v d none = insert k v d
keep_or_insert k v d (some w) = d

-- `texts.setdefault(chunk_id, text)`
unfoldable pub setdefault : Text → Text → Dict Text Text → Dict Text Text
setdefault k v d = keep_or_insert k v d (lookup k d)

module _ {F : Type 0} (floats : Floats F) where
  -- `scores[chunk_id] += weight / (k_const + rank)` on a `defaultdict(float)`
  unfoldable pub add_score : ℕ → F → ℕ → Text → Dict Text F → Dict Text F
  add_score damping weight rank chunk_id scores =
      insert chunk_id
        (floats.add (get_or (lookup chunk_id scores) (floats.of_int 0))
          (floats.div weight (floats.of_int (damping + rank))))
        scores

  unfoldable pub score_hits : ℕ → F → ℕ → List (Hit F) → Dict Text F → Dict Text F
  score_hits damping weight rank [] scores = scores
  score_hits damping weight rank ((chunk_id, text, old) ∷ hits) scores =
      score_hits damping weight (rank + 1) hits (add_score damping weight rank chunk_id scores)

  -- the dense texts win over the sparse ones
  unfoldable pub dense_texts : List (Hit F) → Dict Text Text → Dict Text Text
  dense_texts [] texts = texts
  dense_texts ((chunk_id, text, old) ∷ hits) texts = dense_texts hits (insert chunk_id text texts)

  unfoldable pub sparse_texts : List (Hit F) → Dict Text Text → Dict Text Text
  sparse_texts [] texts = texts
  sparse_texts ((chunk_id, text, old) ∷ hits) texts =
      sparse_texts hits (setdefault chunk_id text texts)

  abbrev pub fused_scores : ℕ → F → F → List (Hit F) → List (Hit F) → Dict Text F
  fused_scores damping w_dense w_sparse dense sparse =
      score_hits damping w_sparse 1 sparse (score_hits damping w_dense 1 dense [])

  abbrev pub fused_texts : List (Hit F) → List (Hit F) → Dict Text Text
  fused_texts dense sparse = sparse_texts sparse (dense_texts dense [])

  abbrev pub with_text : Text → F → Option Text → List (Hit F) → List (Hit F)
  with_text chunk_id score none more = more
  with_text chunk_id score (some text) more = (chunk_id, text, score) ∷ more

  -- `texts[chunk_id]` for each scored entry; every scored id has a text
  unfoldable pub with_texts : Dict Text Text → List (Text × F) → List (Hit F)
  with_texts texts [] = []
  with_texts texts ((chunk_id, score) ∷ more) =
      with_text chunk_id score (lookup chunk_id texts) (with_texts texts more)

  unfoldable pub rrf_fuse : ℕ → F → F → ℕ → List (Hit F) → List (Hit F) → List (Hit F)
  rrf_fuse damping w_dense w_sparse top_k dense sparse = with_texts (fused_texts dense sparse) (
      take top_k
        (sort_desc floats.gt (λ kv. kv.1) (fused_scores damping w_dense w_sparse dense sparse)))
