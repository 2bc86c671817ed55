-- ===== src/Ai/Hybrid/Fusion.antt =====
-- The result of `rrf_fuse`: which chunks it lists, and with which texts.
use arush_adabala_tax_liabil.Prelude.{
  ℕ, zero, suc, ◌+◌, ◌≤◌, ◌≡◌, refl, sym, ap, ◌∙◌, ◌≢◌, ◌↔◌, inl, inr, Bool, true, Option, none,
  some, List, [], ◌∷◌, arith, if◌then◌else◌, Bool-cases, ◌==◌, length, take, length-take, All,
  string_eq, nat_eq, list_eq,
}
use arush_adabala_tax_liabil.Prelude.Dict.{
  Dict, lookup, insert, or_else, Distinct, insert-Distinct, lookup-insert,
}
use arush_adabala_tax_liabil.Prelude.Text.{Text}
use arush_adabala_tax_liabil.Ai.Sorting.{insert_desc, sort_desc}
use arush_adabala_tax_liabil.Ai.Hybrid.{
  Floats, Hit, keep_or_insert, setdefault, with_text, add_score, score_hits, dense_texts,
  sparse_texts, fused_scores, fused_texts, with_texts, rrf_fuse,
}

-- the text of an id in a list of hits: that of the last hit
unfoldable pub text_in : {F : Type 0} → Text → List (Hit F) → Option Text
text_in id [] = none
text_in id ((k, t, s) ∷ hits) = or_else (text_in id hits) (if k == id then some t else none)

-- ... and that of the first hit
unfoldable pub first_text : {F : Type 0} → Text → List (Hit F) → Option Text
first_text id [] = none
first_text id ((k, t, s) ∷ hits) = if k == id then some t else first_text id hits

same : (k d : Text) → (k == d) ≡ true ↔ k ≡ d
same k d = (list_eq {A = ℕ}).beq_iff k d

lookup-keep :
    (k j v : Text) (d : Dict Text Text) (o : Option Text)
    → lookup k d ≡ o
    → lookup j (keep_or_insert k v d o) ≡ or_else (lookup j d) (if k == j then some v else none)
lookup-keep k j v d none e = ground (arith, lookup-insert k j v d, same k j, e)
lookup-keep k j v d (some w) e = ground (arith, same k j, e)

lookup-setdefault :
    (k j v : Text) (d : Dict Text Text)
    → lookup j (setdefault k v d) ≡ or_else (lookup j d) (if k == j then some v else none)
unfolding setdefault
lookup-setdefault k j v d = lookup-keep k j v d (lookup k d) refl

module _ {F : Type 0} (gt : F → F → Bool) where
  lookup-insert_desc :
      (j k : Text) (v : F) (d : Dict Text F)
      → lookup k d ≡ none
      → lookup j (insert_desc gt (λ kv. kv.1) (k, v) d) ≡ (if k == j then some v else lookup j d)
  unfolding insert_desc lookup
  lookup-insert_desc j k v [] h = refl
  lookup-insert_desc j k v ((i, w) ∷ d) h = elim (Bool-cases (gt w v)) [
    | inl more ↦ rw more (ground (arith, lookup-insert_desc j k v d, same i k, same i j, same k j))
    | inr less ↦ rw less refl
  ]

  Distinct-insert_desc :
      (k : Text) (v : F) (d : Dict Text F)
      → lookup k d ≡ none
      → Distinct d
      → Distinct (insert_desc gt (λ kv. kv.1) (k, v) d)
  unfolding insert_desc lookup
  Distinct-insert_desc k v [] h u = (refl, tt)
  Distinct-insert_desc k v ((i, w) ∷ d) h u = elim (Bool-cases (gt w v)) [
    | inl more ↦
        rw more (
          ground
            (arith, lookup-insert_desc i k v d, Distinct-insert_desc k v d, same i k, same k i))
    | inr less ↦ rw less (h, (u.0, u.1))
  ]

  lookup-sort :
      (j : Text) (d : Dict Text F)
      → Distinct d
      → lookup j (sort_desc gt (λ kv. kv.1) d) ≡ lookup j d
  unfolding sort_desc lookup
  lookup-sort j [] u = refl
  lookup-sort j ((k, v) ∷ d) u =
      lookup-insert_desc j k v (sort_desc gt (λ kv. kv.1) d) (lookup-sort k d u.1 ∙ u.0)
      ∙ ap (λ o. if k == j then some v else o) (lookup-sort j d u.1)

  Distinct-sort : (d : Dict Text F) → Distinct d → Distinct (sort_desc gt (λ kv. kv.1) d)
  unfolding sort_desc
  Distinct-sort [] u = tt
  Distinct-sort ((k, v) ∷ d) u =
      Distinct-insert_desc k v (sort_desc gt (λ kv. kv.1) d) (lookup-sort k d u.1 ∙ u.0)
        (Distinct-sort d u.1)

lookup-take :
    {F : Type 0} (j : Text) (n : ℕ) (d : Dict Text F)
    → lookup j d ≡ none
    → lookup j (take n d) ≡ none
unfolding lookup
lookup-take j zero d h = refl
lookup-take j (suc n) [] h = refl
lookup-take j (suc n) ((k, v) ∷ d) h = ground (arith, lookup-take j n d)

Distinct-take : {F : Type 0} (n : ℕ) (d : Dict Text F) → Distinct d → Distinct (take n d)
Distinct-take zero d u = tt
Distinct-take (suc n) [] u = tt
Distinct-take (suc n) ((k, v) ∷ d) u = (lookup-take k n d u.0, Distinct-take n d u.1)

module _ {F : Type 0} (floats : Floats F) where
  lookup-dense_texts :
      (id : Text) (hits : List (Hit F)) (texts : Dict Text Text)
      → lookup id (dense_texts floats hits texts) ≡ or_else (text_in id hits) (lookup id texts)
  unfolding dense_texts text_in
  lookup-dense_texts id [] texts = refl
  lookup-dense_texts id ((k, t, s) ∷ hits) texts =
      ground (arith, lookup-dense_texts id hits (insert k t texts), lookup-insert k id t texts)

  lookup-sparse_texts :
      (id : Text) (hits : List (Hit F)) (texts : Dict Text Text)
      → lookup id (sparse_texts floats hits texts) ≡ or_else (lookup id texts) (first_text id hits)
  unfolding sparse_texts first_text
  lookup-sparse_texts id [] texts = ground arith
  lookup-sparse_texts id ((k, t, s) ∷ hits) texts =
      ground
        (arith, lookup-sparse_texts id hits (setdefault k t texts), lookup-setdefault k id t texts)

  score_hits-Distinct :
      (damping : ℕ) (weight : F) (rank : ℕ) (hits : List (Hit F)) (scores : Dict Text F)
      → Distinct scores
      → Distinct (score_hits floats damping weight rank hits scores)
  unfolding score_hits add_score
  score_hits-Distinct damping weight rank [] scores u = u
  score_hits-Distinct damping weight rank ((k, t, s) ∷ hits) scores u =
      score_hits-Distinct damping weight (rank + 1) hits _ (insert-Distinct k _ scores u)

  -- `id` is the chunk of none of the hits.
  abbrev pub Unlisted : Text → List (Hit F) → Type 0
  Unlisted id hits = All (λ hit. hit.0 ≢ id) hits

  abbrev pub DistinctIds : List (Hit F) → Type 0
  DistinctIds [] = Unit
  DistinctIds (hit ∷ hits) = Unlisted hit.0 hits × DistinctIds hits

  with_text-Unlisted :
      (k j : Text) (v : F) (o : Option Text) (more : List (Hit F))
      → k ≢ j
      → Unlisted j more
      → Unlisted j (with_text floats k v o more)
  with_text-Unlisted k j v none more h u = u
  with_text-Unlisted k j v (some t) more h u = (h, u)

  with_texts-Unlisted :
      (texts : Dict Text Text) (j : Text) (d : List (Text × F))
      → lookup j d ≡ none
      → Unlisted j (with_texts floats texts d)
  unfolding with_texts lookup
  with_texts-Unlisted texts j [] h = tt
  with_texts-Unlisted texts j ((k, v) ∷ d) h =
      with_text-Unlisted k j v (lookup k texts) (with_texts floats texts d)
        (λ e. ground (arith, same k j)) (with_texts-Unlisted texts j d (ground arith))

  with_text-Distinct :
      (k : Text) (v : F) (o : Option Text) (more : List (Hit F))
      → Unlisted k more
      → DistinctIds more
      → DistinctIds (with_text floats k v o more)
  with_text-Distinct k v none more h u = u
  with_text-Distinct k v (some t) more h u = (h, u)

  with_texts-Distinct :
      (texts : Dict Text Text) (d : List (Text × F))
      → Distinct d
      → DistinctIds (with_texts floats texts d)
  unfolding with_texts
  with_texts-Distinct texts [] u = tt
  with_texts-Distinct texts ((k, v) ∷ d) u =
      with_text-Distinct k v (lookup k texts) (with_texts floats texts d)
        (with_texts-Unlisted texts k d u.0) (with_texts-Distinct texts d u.1)

  abbrev Texted : Dict Text Text → List (Hit F) → Type 0
  Texted texts hits = All (λ hit. lookup hit.0 texts ≡ some hit.1) hits

  with_text-Texted :
      (texts : Dict Text Text) (k : Text) (v : F) (o : Option Text) (more : List (Hit F))
      → lookup k texts ≡ o
      → Texted texts more
      → Texted texts (with_text floats k v o more)
  with_text-Texted texts k v none more e h = h
  with_text-Texted texts k v (some t) more e h = (e, h)

  with_texts-Texted :
      (texts : Dict Text Text) (d : List (Text × F)) → Texted texts (with_texts floats texts d)
  unfolding with_texts
  with_texts-Texted texts [] = tt
  with_texts-Texted texts ((k, v) ∷ d) =
      with_text-Texted texts k v (lookup k texts) _ refl (with_texts-Texted texts d)

  length-with_text :
      (k : Text) (v : F) (o : Option Text) (more : List (Hit F))
      → length (with_text floats k v o more) ≤ suc (length more)
  length-with_text k v none more = omega arith
  length-with_text k v (some t) more = omega arith

  length-with_texts :
      (texts : Dict Text Text) (d : List (Text × F)) → length (with_texts floats texts d) ≤ length d
  unfolding with_texts
  length-with_texts texts [] = omega arith
  length-with_texts texts ((k, v) ∷ d) = omega (
    arith,
    length-with_text k v (lookup k texts) (with_texts floats texts d),
    length-with_texts texts d,
  )

  -- The text of a chunk by the two retrievers: the dense one's, or else the sparse one's.
  abbrev pub retrieved : List (Hit F) → List (Hit F) → Text → Option Text
  retrieved dense sparse id = or_else (text_in id dense) (first_text id sparse)

  nothing_more : (o : Option Text) → or_else o none ≡ o
  nothing_more none = refl
  nothing_more (some t) = refl

  lookup-fused_texts :
      (dense sparse : List (Hit F)) (id : Text)
      → lookup id (fused_texts floats dense sparse) ≡ retrieved dense sparse id
  unfolding lookup
  lookup-fused_texts dense sparse id =
      lookup-sparse_texts id sparse (dense_texts floats dense [])
      ∙ ap (λ o. or_else o (first_text id sparse))
          (lookup-dense_texts id dense [] ∙ nothing_more (text_in id dense))

  retrieved-All :
      (dense sparse hits : List (Hit F))
      → Texted (fused_texts floats dense sparse) hits
      → All (λ hit. retrieved dense sparse hit.0 ≡ some hit.1) hits
  retrieved-All dense sparse [] h = tt
  retrieved-All dense sparse (hit ∷ hits) h =
      (sym (lookup-fused_texts dense sparse hit.0) ∙ h.0, retrieved-All dense sparse hits h.1)

  -- A fusion lists no chunk twice, at most `top_k` of them, each one with the text that the dense
  -- retriever gave it, or that the sparse one did where the dense one has not found it.
  pub rrf_fuse-Distinct :
      (damping : ℕ) (w_dense w_sparse : F) (top_k : ℕ) (dense sparse : List (Hit F))
      → DistinctIds (rrf_fuse floats damping w_dense w_sparse top_k dense sparse)
        × (length (rrf_fuse floats damping w_dense w_sparse top_k dense sparse) ≤ top_k)
        × All
            (λ hit. retrieved dense sparse hit.0 ≡ some hit.1)
            (rrf_fuse floats damping w_dense w_sparse top_k dense sparse)
  unfolding rrf_fuse
  rrf_fuse-Distinct damping w_dense w_sparse top_k dense sparse =
      let scores = fused_scores floats damping w_dense w_sparse dense sparse in
      let best = sort_desc floats.gt (λ kv. kv.1) scores in
      let distinct =
        score_hits-Distinct damping w_sparse 1 sparse _
          (score_hits-Distinct damping w_dense 1 dense [] tt) in
      (
        with_texts-Distinct _ (take top_k best)
            (Distinct-take top_k best (Distinct-sort floats.gt scores distinct)),
        (omega (
          arith,
          length-with_texts (fused_texts floats dense sparse) (take top_k best),
          length-take top_k best,
        )),
        retrieved-All dense sparse _
            (with_texts-Texted (fused_texts floats dense sparse) (take top_k best)),
      )
