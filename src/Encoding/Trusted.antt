-- ===== src/Encoding/Trusted.antt =====
-- Which decoded texts are not suspicious.
use mcp_vfp9sp2_toolchain.Base.{
  ℕ, ◌≡◌, ◌↔◌, refl, sym, ap, ◌∙◌, false, Option, some, List, Option-cases, inl, inr, arith,
}
use mcp_vfp9sp2_toolchain.Base.Text.{Text}
use mcp_vfp9sp2_toolchain.Balance.{Letters}
use mcp_vfp9sp2_toolchain.Encoding.{
  Number, Codecs, codec_for_cpid, has_fffd, chosen_cpid, decode_with, decode_sc2, is_suspicious,
}

module _ (letters : Letters) (codecs : Codecs) where
  -- The text is the strict decoding of the bytes by the codec of the code page that counts, and
  -- holds no U+FFFD.
  pub record IsTrusted (raw : List ℕ) (cpid : Number) (text : Text) : Type 0 where
    pub codec : Text
    pub codec_is : codec_for_cpid (some cpid) ≡ some codec
    pub decoded : codecs.strict codec raw ≡ some text
    pub clean : has_fffd text ≡ false

  -- A result is not suspicious exactly when the code page (the header's, or else the one given, or
  -- else the default) has a codec in the table and the text is the strict decoding by it, without
  -- U+FFFD.
  pub decode_sc2-IsTrusted :
      (raw : List ℕ) (given : Option Number) (default : Number)
      → (is_suspicious (some (decode_sc2 letters codecs raw given default).1) ≡ false)
        ↔ IsTrusted raw
            (chosen_cpid letters raw given default)
            (decode_sc2 letters codecs raw given default).0
  unfolding is_suspicious decode_sc2 decode_with
  decode_sc2-IsTrusted raw given default =
      elim (Option-cases (codec_for_cpid (some (chosen_cpid letters raw given default)))) [
        | inl unknown ↦
            rw (unknown, decode_sc2)
              (λ h. absurd (cc h), λ t. absurd (cc (sym unknown ∙ t.codec_is)))
        | inr (codec, known) ↦ elim (Option-cases (codecs.strict codec raw)) [
          | inl failed ↦
              rw (known, failed, decode_with, decode_sc2)
                (
                  λ h. absurd (cc h),
                  λ t.
                      let same : codec ≡ t.codec = cc (sym known ∙ t.codec_is) in
                      absurd (cc (sym failed ∙ ap (λ c. codecs.strict c raw) same ∙ t.decoded)),
                )
          | inr (text, read) ↦
              rw (known, read, decode_with, decode_sc2)
                (
                  λ h. record {
                    codec = codec;
                    codec_is = known;
                    decoded = read;
                    clean = ground (arith, h);
                  },
                  λ t. rw t.clean refl,
                )
        ]
      ]
