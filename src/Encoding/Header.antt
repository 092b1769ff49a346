-- ===== src/Encoding/Header.antt =====
-- The header that FoxBin2Prg writes names the code page that is read back.
use mcp_vfp9sp2_toolchain.Base.{
  ℕ, ◌≡◌, refl, Bool, true, false, not, some, [], ◌∷◌, ◌++◌, ◌==◌, all, arith,
}
use mcp_vfp9sp2_toolchain.Base.Text.{Text, codes, is_space}
use mcp_vfp9sp2_toolchain.Balance.{Letters, after_keyword}
use mcp_vfp9sp2_toolchain.Encoding.{
  some_spaces, until_quote, header_at, header_search, detect_cpid, parse_int,
}

-- `*< FOXBIN2PRG: Version="..." SourceFile="..." CPID="..."` with text behind it
abbrev pub header : Text → Text → Text → Text → Text
header version source cpid rest =
    codes "*< FOXBIN2PRG: Version=\""
    ++ (version
        ++ (codes "\" SourceFile=\"" ++ (source ++ (codes "\" CPID=\"" ++ (cpid ++ b'"' ∷ rest)))))

abbrev pub no_quote : Text → Bool
no_quote = all (λ c. not (c == b'"'))

until_quote-append :
    (s rest : Text) → no_quote s ≡ true → until_quote (s ++ b'"' ∷ rest) ≡ some (s, rest)
unfolding until_quote
until_quote-append [] rest h = refl
until_quote-append (c ∷ s) rest h =
    let other : (c == b'"') ≡ false = ground arith in
    rw (other, until_quote-append s rest (ground arith)) refl

after_keyword-append :
    (letters : Letters)
    → ((c : ℕ) → letters.same_letter c c ≡ true)
    → (kw s : Text) → after_keyword letters kw (kw ++ s) ≡ some s
unfolding after_keyword
after_keyword-append letters h [] s = refl
after_keyword-append letters h (k ∷ kw) s = rw (h k) (after_keyword-append letters h kw s)

header_at-header :
    (letters : Letters)
    → ((c : ℕ) → letters.same_letter c c ≡ true)
    → (version source cpid rest : Text) → no_quote version ≡ true
    → no_quote source ≡ true
    → no_quote cpid ≡ true
    → header_at letters (header version source cpid rest) ≡ some cpid
unfolding header_at some_spaces is_space
header_at-header letters h version source cpid rest v s c =
    let keyword = after_keyword-append letters h in
    let third = cpid ++ b'"' ∷ rest in
    let second = source ++ (codes "\" CPID=\"" ++ third) in
    let first = version ++ (codes "\" SourceFile=\"" ++ second) in
    rw
      (
        keyword (codes "*<") (codes " FOXBIN2PRG: Version=\"" ++ first),
        keyword (codes "FOXBIN2PRG:") (codes " Version=\"" ++ first),
        keyword (codes "Version=\"") first,
        until_quote-append version (codes " SourceFile=\"" ++ second) v,
        keyword (codes "SourceFile=\"") second,
        until_quote-append source (codes " CPID=\"" ++ third) s,
        keyword (codes "CPID=\"") third,
        until_quote-append cpid rest c,
      )
      refl

header_search-first :
    (letters : Letters) (c : ℕ) (s : Text) {m : Text}
    → header_at letters (c ∷ s) ≡ some m
    → header_search letters (c ∷ s) ≡ some m
unfolding header_search
header_search-first letters c s h = rw (h, header_search) refl

-- Where every character is the same letter as itself, a text that begins with a header whose fields
-- hold no double quote has the code page of the header's third field.
detect_cpid-header :
    (letters : Letters)
    → ((c : ℕ) → letters.same_letter c c ≡ true)
    → (version source cpid rest : Text) → no_quote version ≡ true
    → no_quote source ≡ true
    → no_quote cpid ≡ true
    → detect_cpid letters (header version source cpid rest) ≡ parse_int cpid
unfolding detect_cpid
detect_cpid-header letters h version source cpid rest v s c =
    rw (header_search-first letters _ _ (header_at-header letters h version source cpid rest v s c))
      refl
