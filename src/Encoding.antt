-- ===== src/Encoding.antt =====
-- vfp_encoding.py: the code page that the header of a text names, and the decoding of its bytes by
-- a codec that is trusted for it. Python's codecs are a parameter; Latin-1 gives each byte its
-- number.
pub mod Trusted
pub mod Header
mod Tests
use mcp_vfp9sp2_toolchain.Base.{
  ℕ, ◌+◌, ◌*◌, ◌-◌, Bool, true, false, ◌||◌, Option, none, some, List, [], ◌∷◌, within, ◌==◌,
  if◌then◌else◌, any,
}
use mcp_vfp9sp2_toolchain.Base.Text.{Text, codes, is_space, lstrip, strip}
use mcp_vfp9sp2_toolchain.Balance.{Letters, after_keyword}

infixl 5 ◌>>=◌
abbrev pub ◌>>=◌ {ℓ κ} : {R : Type κ} {S : Type ℓ} → Option R → (R → Option S) → Option S
none >>= next = none
some value >>= next = next value

-- An `int`: whether a minus stands before it, and its size.
abbrev pub Number : Type 0
Number = Bool × ℕ

-- The digits of a number, of which `n` has been read; the flag says that one came just before.
-- `int` takes one underscore between two digits.
unfoldable pub digits : Bool → ℕ → Text → Option ℕ
digits after n [] = if after then some n else none
digits after n (c ∷ s) =
    let next = digits true (10 * n + (c - b'0')) s in
    let gap = digits false n s in
    if within b'0' b'9' c then next else if c == b'_' then (if after then gap else none) else none

signed : Bool → Text → Option Number
signed minus s = digits false 0 s >>= λ n. some (minus, n)

-- `int(s)`, for decimal digits of ASCII
unfoldable pub parse_int : Text → Option Number
unfolding signed digits strip
parse_int s = unsigned (strip s)
  where
    unsigned : Text → Option Number
    unsigned [] = none
    unsigned (c ∷ t) =
        if c == b'-'
        then signed true t
        else if c == b'+'
        then signed false t
        else signed false (c ∷ t)

-- `\s+`
unfoldable pub some_spaces : Text → Option Text
some_spaces [] = none
some_spaces (c ∷ s) = if is_space c then some (lstrip is_space s) else none

-- `([^"]*)"`
unfoldable pub until_quote : Text → Option (Text × Text)
until_quote [] = none
until_quote (c ∷ s) =
    let later = until_quote s in
    if c == b'"' then some ([], s) else later >>= λ (value, rest). some (c ∷ value, rest)

module _ (letters : Letters) where
  -- RE_HEADER at one place; the result is its third group.
  unfoldable pub header_at : Text → Option Text
  header_at text = do
    a ← after_keyword letters (codes "*<") text
    b ← after_keyword letters (codes "FOXBIN2PRG:") (lstrip is_space a)
    c ← after_keyword letters (codes "Version=\"") (lstrip is_space b)
    (version, d) ← until_quote c
    e ← some_spaces d
    f ← after_keyword letters (codes "SourceFile=\"") e
    (source, g) ← until_quote f
    h ← some_spaces g
    i ← after_keyword letters (codes "CPID=\"") h
    (cpid, rest) ← until_quote i
    some cpid

  -- `RE_HEADER.search(text)`: the first place where it matches
  unfoldable pub header_search : Text → Option Text
  header_search [] = header_at []
  header_search (c ∷ s) =
      let later = header_search s in elim (header_at (c ∷ s)) [ some m ↦ some m | none ↦ later ]

  unfoldable pub detect_cpid : Text → Option Number
  detect_cpid text = header_search text >>= parse_int

-- CPID_CODECS
abbrev pub cpid_codecs : List (ℕ × Text)
cpid_codecs =
    (1250, codes "cp1250")
    ∷ (852, codes "cp852")
    ∷ (1252, codes "cp1252")
    ∷ (437, codes "cp437")
    ∷ (850, codes "cp850")
    ∷ (855, codes "cp855")
    ∷ (932, codes "cp932")
    ∷ (936, codes "cp936")
    ∷ (949, codes "cp949")
    ∷ (950, codes "cp950")
    ∷ []

abbrev pub default_cpid : Number
default_cpid = (false, 1250)

codec_in : List (ℕ × Text) → ℕ → Option Text
codec_in [] n = none
codec_in ((m, codec) ∷ table) n = if m == n then some codec else codec_in table n

-- `codec_for_cpid`; no number below 0 is in the table
unfoldable pub codec_for_cpid : Option Number → Option Text
unfolding codec_in
codec_for_cpid none = none
codec_for_cpid (some (minus, n)) = if minus then none else codec_in cpid_codecs n

-- `bytes.decode(codec, "strict")`, none for a `UnicodeDecodeError`, and `bytes.decode(codec,
-- "replace")`.
pub record Codecs : Type 0 where
  pub strict : Text → List ℕ → Option Text
  pub replace : Text → List ℕ → Text

pub data DecodeError : Type 0 where
  unknown_cpid strict_failed : DecodeError

pub data Policy : Type 0 where
  no_policy strict_policy replace_policy : Policy

pub record Info : Type 0 where
  pub cpid : Number
  pub codec : Option Text
  pub suspicious : Bool
  pub error : Option DecodeError
  pub policy : Policy

abbrev pub has_fffd : Text → Bool
has_fffd = any (λ c. c == 0xfffd)

abbrev pub first_of : Option Number → Option Number → Number → Number
first_of (some n) given default = n
first_of none (some n) default = n
first_of none none default = default

-- The code page that counts: the header's, or the argument, or the default.
abbrev pub chosen_cpid : Letters → List ℕ → Option Number → Number → Number
chosen_cpid letters raw given default = first_of (detect_cpid letters raw) given default

module _ (letters : Letters) (codecs : Codecs) where
  -- The rest of `decode_sc2` for a codec that is known.
  unfoldable pub decode_with : Number → Text → List ℕ → Text × Info
  decode_with cpid codec raw = elim (codecs.strict codec raw) [
    | some decoded ↦ (
      decoded,
      record {
        cpid = cpid;
        codec = some codec;
        suspicious = has_fffd decoded;
        error = none;
        policy = strict_policy;
      },
    )
    | none ↦ (
      codecs.replace codec raw,
      record {
        cpid = cpid;
        codec = some codec;
        suspicious = true;
        error = some strict_failed;
        policy = replace_policy;
      },
    )
  ]

  unfoldable pub decode_sc2 : List ℕ → Option Number → Number → Text × Info
  unfolding decode_with
  decode_sc2 raw given default =
      let cpid = chosen_cpid letters raw given default in
      elim (codec_for_cpid (some cpid)) [
        | none ↦ (
          raw,
          record {
            cpid = cpid;
            codec = none;
            suspicious = true;
            error = some unknown_cpid;
            policy = no_policy;
          },
        )
        | some codec ↦ decode_with cpid codec raw
      ]

abbrev is_given {ℓ} : {A : Type ℓ} → Option A → Bool
is_given none = false
is_given (some a) = true

abbrev lacks {ℓ} : {A : Type ℓ} → Option A → Bool
lacks none = true
lacks (some a) = false

unfoldable pub is_suspicious : Option Info → Bool
is_suspicious none = true
is_suspicious (some info) = info.suspicious || is_given info.error || lacks info.codec
