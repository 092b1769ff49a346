-- ===== src/Cdx/Slices.antt =====
-- Reads from a byte list that is put together from parts.
use mcp_vfp9sp2_toolchain.Base.{
  ℕ, zero, suc, ◌+◌, ◌<◌, ◌≡◌, refl, Bool, true, false, List, [], ◌∷◌, ◌++◌, arith, length, take,
  drop, any, Bool-cases, inl, inr,
}
use mcp_vfp9sp2_toolchain.Cdx.{Bytes, byte_at}

pub drop-append {ℓ} : {A : Type ℓ} (n : ℕ) (xs ys : List A) → length xs ≡ n → drop n (xs ++ ys) ≡ ys
drop-append zero [] ys h = refl
drop-append zero (x ∷ xs) ys h = absurd (omega arith)
drop-append (suc n) [] ys h = absurd (omega arith)
drop-append (suc n) (x ∷ xs) ys h = drop-append n xs ys (omega arith)

pub take-append {ℓ} : {A : Type ℓ} (n : ℕ) (xs ys : List A) → length xs ≡ n → take n (xs ++ ys) ≡ xs
take-append zero [] ys h = refl
take-append zero (x ∷ xs) ys h = absurd (omega arith)
take-append (suc n) [] ys h = absurd (omega arith)
take-append (suc n) (x ∷ xs) ys h = rw (take-append n xs ys (omega arith))

zero_plus : (i : ℕ) → 0 + i ≡ i
zero_plus i = omega arith

suc_plus : (n i : ℕ) → suc n + i ≡ suc (n + i)
suc_plus n i = omega arith

pub byte_at-append :
    (n i : ℕ) (xs ys : Bytes) → length xs ≡ n → byte_at (xs ++ ys) (n + i) ≡ byte_at ys i
byte_at-append zero i [] ys h = rw (zero_plus i)
byte_at-append zero i (x ∷ xs) ys h = absurd (omega arith)
byte_at-append (suc n) i [] ys h = absurd (omega arith)
byte_at-append (suc n) i (x ∷ xs) ys h = rw (suc_plus n i) (byte_at-append n i xs ys (omega arith))

any-take :
    (p : ℕ → Bool) (n i : ℕ) (xs : Bytes)
    → i < n
    → i < length xs
    → p (byte_at xs i) ≡ true
    → any p (take n xs) ≡ true
any-take p zero i xs h k e = absurd (omega arith)
any-take p (suc n) i [] h k e = absurd (omega arith)
any-take p (suc n) zero (x ∷ xs) h k e = rw e
any-take p (suc n) (suc i) (x ∷ xs) h k e =
    ground (arith, any-take p n i xs (omega arith) (omega arith) e)

-- A byte of a slice that passes the test is found by `any`.
pub any-slice :
    (p : ℕ → Bool) (n off i : ℕ) (content : Bytes)
    → i < n
    → off + i < length content
    → p (byte_at content (off + i)) ≡ true
    → any p (take n (drop off content)) ≡ true
any-slice p n zero i content h k e = any-take p n i content h (omega arith) (rw (zero_plus i) at e)
any-slice p n (suc off) i [] h k e = absurd (omega arith)
any-slice p n (suc off) i (x ∷ xs) h k e =
    any-slice p n off i xs h (omega arith) (rw (suc_plus off i) at e)

-- The other direction: the slice holds no byte that passes the test.
pub any-slice_false :
    (p : ℕ → Bool) (n off i : ℕ) (content : Bytes)
    → i < n
    → off + i < length content
    → any p (take n (drop off content)) ≡ false
    → p (byte_at content (off + i)) ≡ false
any-slice_false p n off i content h k e = elim (Bool-cases (p (byte_at content (off + i)))) [
  | inl hit ↦ cc (any-slice p n off i content h k hit)
  | inr miss ↦ miss
]
