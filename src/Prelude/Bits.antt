-- ===== src/Prelude/Bits.antt =====
-- The binary digits of `bit_and`: how it is computed digit by digit, and masks with a single hole.
use Prim.Native.Nat.{ℕ, zero, suc, ◌+◌, ◌*◌, ◌/◌, ◌%◌, ◌≤◌, min, bit_and, digits, bit_and-bitwise}
use mathlib.Core.Path.{◌≡◌, refl, sym, ap, ◌∙◌}
use native.Mathlib.Omega.{arith}

-- Digits beyond those of the first number make no difference.
digits_enough :
    (z : ℕ → ℕ) (f : ℕ → ℕ → ℕ) (n m a b : ℕ) → a ≤ n → a ≤ m → digits z f n a b ≡ digits z f m a b
digits_enough z f zero zero a b ha hb = refl
digits_enough z f zero (suc m) zero b ha hb = refl
digits_enough z f zero (suc m) (suc a) b ha hb = absurd (omega arith)
digits_enough z f (suc n) zero zero b ha hb = refl
digits_enough z f (suc n) zero (suc a) b ha hb = absurd (omega arith)
digits_enough z f (suc n) (suc m) zero b ha hb = refl
digits_enough z f (suc n) (suc m) (suc a) b ha hb =
    ap (λ rest. rest * 2 + f (suc a % 2) (b % 2))
      (digits_enough z f n m (suc a / 2) (b / 2) (omega arith) (omega arith))

-- The lowest digit, and the rest.
pub bit_and-halves : (a b : ℕ) → bit_and a b ≡ bit_and (a / 2) (b / 2) * 2 + min (a % 2) (b % 2)
bit_and-halves zero b =
    let nothing : (c : ℕ) → bit_and 0 c ≡ 0 = λ c. bit_and-bitwise 0 c in
    omega (arith, nothing b, nothing (b / 2))
bit_and-halves (suc a) b =
    let same =
      digits_enough (λ c. 0) min a (suc a / 2) (suc a / 2) (b / 2) (omega arith) (omega arith) in
    bit_and-bitwise (suc a) b
    ∙ ap (λ rest. rest * 2 + min (suc a % 2) (b % 2))
        (same ∙ sym (bit_and-bitwise (suc a / 2) (b / 2)))

-- `k` ones.
abbrev pub ones : ℕ → ℕ
ones zero = 0
ones (suc k) = ones k * 2 + 1

-- `n` ones, a zero, and `k` ones below it.
abbrev pub hole : ℕ → ℕ → ℕ
hole zero n = ones n * 2
hole (suc k) n = hole k n * 2 + 1

-- A number with the digit `k` taken away.
abbrev pub without_digit : ℕ → ℕ → ℕ
without_digit zero v = v / 2 * 2
without_digit (suc k) v = without_digit k (v / 2) * 2 + v % 2

-- The number has no digits above those of `hole k n`.
abbrev pub Fits : ℕ → ℕ → ℕ → Type 0
Fits zero n v = v / 2 ≤ ones n
Fits (suc k) n v = Fits k n (v / 2)

bit_and-ones : (k a : ℕ) → a ≤ ones k → bit_and a (ones k) ≡ a
bit_and-ones zero zero h = refl
bit_and-ones zero (suc a) h = absurd (omega arith)
bit_and-ones (suc k) a h =
    let low : (ones k * 2 + 1) / 2 ≡ ones k = omega arith in
    let rest : bit_and (a / 2) ((ones k * 2 + 1) / 2) ≡ a / 2 =
      rw low (bit_and-ones k (a / 2) (omega arith)) in
    omega (arith, bit_and-halves a (ones k * 2 + 1), rest)

pub bit_and-hole : (k n v : ℕ) → Fits k n v → bit_and v (hole k n) ≡ without_digit k v
bit_and-hole zero n v h =
    let low : ones n * 2 / 2 ≡ ones n = omega arith in
    let rest : bit_and (v / 2) (ones n * 2 / 2) ≡ v / 2 = rw low (bit_and-ones n (v / 2) h) in
    omega (arith, bit_and-halves v (ones n * 2), rest)
bit_and-hole (suc k) n v h =
    let low : (hole k n * 2 + 1) / 2 ≡ hole k n = omega arith in
    let rest : bit_and (v / 2) ((hole k n * 2 + 1) / 2) ≡ without_digit k (v / 2) =
      rw low (bit_and-hole k n (v / 2) h) in
    omega (arith, bit_and-halves v (hole k n * 2 + 1), rest)
