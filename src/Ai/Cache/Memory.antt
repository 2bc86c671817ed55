-- ===== src/Ai/Cache/Memory.antt =====
-- A Redis that is a function from keys to values, which keeps the laws that the cache relies on.
use arush_adabala_tax_liabil.Prelude.{
  ℕ, ◌+◌, ◌≡◌, refl, ◌≢◌, ◌↔◌, inl, inr, true, Option, none, some, List, arith, if◌then◌else◌,
  Option-cases, ◌==◌, ==_refl, string_eq, nat_eq, list_eq,
}
use arush_adabala_tax_liabil.Prelude.Text.{Text, codes}
use arush_adabala_tax_liabil.Prelude.Text.Decimal.{decimal, int, int-decimal}
use arush_adabala_tax_liabil.Ai.Cache.{Redis, Codec, read_epoch, Laws}

abbrev pub Store : Type 0
Store = Text → Option Text

abbrev pub write : Store → Text → Text → Store
write r k v = λ j. if k == j then some v else r j

abbrev pub count : Option Text → ℕ
count none = 0
count (some raw) = int raw

abbrev pub redis : Redis Store
redis = record {
  get = λ r k. r k;
  set = λ r k v ttl. write r k v;
  incr = λ r k. (count (r k) + 1, write r k (decimal (count (r k) + 1)));
}

same : (k d : Text) → (k == d) ≡ true ↔ k ≡ d
same k d = (list_eq {A = ℕ}).beq_iff k d

written : (r : Store) (k v : Text) → write r k v k ≡ some v
written r k v = rw (==_refl k) refl

unwritten : (r : Store) (k j v : Text) → k ≢ j → write r k v j ≡ r j
unwritten r k j v h = ground (arith, same k j)

module _ {J : Type 0} (loads : Text → Option J) (dumps : J → Text)
    (citations : J → List (Option (Option Text))) where
  -- every query falls into one bucket
  abbrev pub codec_of : Codec ℕ J
  codec_of = record {
    digest = λ query. codes "0f";
    int = int;
    loads = loads;
    dumps = dumps;
    citations = citations;
  }

  counted : (r : Store) (k : Text) → read_epoch redis codec_of (r k) ≡ count (r k)
  counted r k = elim (Option-cases (r k)) [ inl e ↦ rw e refl | inr (v, e) ↦ rw e refl ]

  pub laws_of : ((a : J) → loads (dumps a) ≡ some a) → Laws redis codec_of
  laws_of reads = record {
    get-set = λ r k v ttl. written r k v;
    get-set_other = λ r k j v ttl h. unwritten r k j v h;
    get-incr = λ r k. rw (counted r k) (written r k (decimal (count (r k) + 1)));
    get-incr_other = λ r k j h. unwritten r k j (decimal (count (r k) + 1)) h;
    int-decimal = int-decimal;
    digest-Free = λ query. ground arith;
    loads-dumps = reads;
  }
