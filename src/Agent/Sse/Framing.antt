-- ===== src/Agent/Sse/Framing.antt =====
-- The wire form of sse.py: a body as the frames it was written from.
use arush_adabala_tax_liabil.Prelude.{
  ◌≡◌, refl, sym, ap, ◌∙◌, List, [], ◌∷◌, ◌++◌, arith, All, string_eq, nat_eq, list_eq,
}
use mathlib.Core.List.{append_assoc}
use arush_adabala_tax_liabil.Prelude.Text.{Text}
use arush_adabala_tax_liabil.Prelude.Text.Separator.{Free, split_unique}
use arush_adabala_tax_liabil.Agent.Sse.{encode}

abbrev pub encode_all : List (Text × Text) → Text
encode_all [] = []
encode_all ((channel, dumped) ∷ fs) = encode channel dumped ++ encode_all fs

-- A channel has no colon in it, and `json.dumps` without indentation writes no newline.
abbrev pub IsFrame : Text × Text → Type 0
IsFrame (channel, dumped) = Free b':' channel × Free b'\n' dumped

encode-append : (c d r : Text) → encode c d ++ r ≡ c ++ b':' ∷ (d ++ b'\n' ∷ r)
unfolding encode
encode-append c d r =
    append_assoc c (b':' ∷ (d ++ b'\n' ∷ [])) r
    ∙ ap (λ t. c ++ b':' ∷ t) (append_assoc d (b'\n' ∷ []) r)

not-empty : (c r : Text) → c ++ b':' ∷ r ≡ [] → ⊥
not-empty [] r e = ground arith
not-empty (x ∷ c) r e = ground arith

-- A stream of frames, read back frame by frame, is the one that was written.
pub encode_all_injective :
    (fs gs : List (Text × Text))
    → All IsFrame fs
    → All IsFrame gs
    → encode_all fs ≡ encode_all gs
    → fs ≡ gs
encode_all_injective [] [] hf hg e = refl
encode_all_injective [] ((c, d) ∷ gs) hf hg e =
    absurd (not-empty c _ (sym (encode-append c d (encode_all gs)) ∙ sym e))
encode_all_injective ((c, d) ∷ fs) [] hf hg e =
    absurd (not-empty c _ (sym (encode-append c d (encode_all fs)) ∙ e))
encode_all_injective ((c, d) ∷ fs) ((c', d') ∷ gs) hf hg e =
    let (channels, rest) =
      split_unique b':' c c' (d ++ b'\n' ∷ encode_all fs) (d' ++ b'\n' ∷ encode_all gs) hf.0.0
        hg.0.0
        (sym (encode-append c d (encode_all fs)) ∙ e ∙ encode-append c' d' (encode_all gs)) in
    let (bodies, more) =
      split_unique b'\n' d d' (encode_all fs) (encode_all gs) hf.0.1 hg.0.1 rest in
    let later : fs ≡ gs = encode_all_injective fs gs hf.1 hg.1 more in cc
