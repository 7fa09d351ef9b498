-- ===== src/Prelude/Bits.antt =====
-- `a & mask` and `a | b` at variables, for masks of ones and for fields that do not overlap.
use Prim.Native.Nat.{min, max, bit_and, bit_or, digits, bit_and-bitwise, bit_or-bitwise}
use cxxprogram.Prelude.{
  ap, arith, refl, suc, sym, zero, ℕ, ◌%◌, ◌*◌, ◌+◌, ◌-◌, ◌/◌, ◌<◌, ◌∙◌, ◌≡◌, ◌≤◌,
}

-- Both operations go through the binary digits of the first number, on fuel. What matters of the
-- fuel is that it is enough.
module _ (ends : ℕ → ℕ) (op : ℕ → ℕ → ℕ) where
  one_more : (fuel a b : ℕ) → a ≤ fuel → digits ends op (suc fuel) a b ≡ digits ends op fuel a b
  one_more (suc fuel) zero b h = refl
  one_more zero zero b h = refl
  one_more zero (suc a) b h = absurd (omega arith)
  one_more (suc fuel) (suc a) b h =
      ap (λ r. r * 2 + op (suc a % 2) (b % 2)) (one_more fuel (suc a / 2) (b / 2) (omega arith))

  spare :
      (extra fuel total a b : ℕ)
      → total ≡ fuel + extra
      → a ≤ fuel
      → digits ends op total a b ≡ digits ends op fuel a b
  spare zero fuel total a b e h =
      ap (λ k. digits ends op k a b) (let same : total ≡ fuel = omega arith in same)
  spare (suc extra) fuel total a b e h =
      ap (λ k. digits ends op k a b) (let same : total ≡ suc (fuel + extra) = omega arith in same)
      ∙ one_more (fuel + extra) a b (omega arith)
      ∙ spare extra fuel (fuel + extra) a b refl h

  lowest :
      (a b : ℕ)
      → digits ends op (suc a) (suc a) b
        ≡ digits ends op (suc a / 2) (suc a / 2) (b / 2) * 2 + op (suc a % 2) (b % 2)
  lowest a b =
      ap (λ r. r * 2 + op (suc a % 2) (b % 2))
        (spare (a - suc a / 2) (suc a / 2) a (suc a / 2) (b / 2) (omega arith) (omega arith))

and_low : (a b : ℕ) → bit_and a b ≡ bit_and (a / 2) (b / 2) * 2 + min (a % 2) (b % 2)
and_low (suc a) b =
    bit_and-bitwise (suc a) b
    ∙ lowest (λ y. 0) min a b
    ∙ ap (λ r. r * 2 + min (suc a % 2) (b % 2)) (sym (bit_and-bitwise (suc a / 2) (b / 2)))
and_low zero b = omega (arith, bit_and-bitwise 0 b, bit_and-bitwise 0 (b / 2))

pub zero-bit_or : (b : ℕ) → bit_or 0 b ≡ b
zero-bit_or b = bit_or-bitwise 0 b

or_low : (a b : ℕ) → bit_or a b ≡ bit_or (a / 2) (b / 2) * 2 + max (a % 2) (b % 2)
or_low (suc a) b =
    bit_or-bitwise (suc a) b
    ∙ lowest (λ y. y) max a b
    ∙ ap (λ r. r * 2 + max (suc a % 2) (b % 2)) (sym (bit_or-bitwise (suc a / 2) (b / 2)))
or_low zero b = omega (arith, zero-bit_or b, zero-bit_or (b / 2))

-- Zero as the second number, below a bound.
and_none : (bound a : ℕ) → a < bound → bit_and a 0 ≡ 0
and_none zero a h = absurd (omega arith)
and_none (suc bound) zero h = bit_and-bitwise 0 0
and_none (suc bound) (suc a) h =
    omega (arith, and_low (suc a) 0, and_none bound (suc a / 2) (omega arith))

or_none : (bound a : ℕ) → a < bound → bit_or a 0 ≡ a
or_none zero a h = absurd (omega arith)
or_none (suc bound) zero h = zero-bit_or 0
or_none (suc bound) (suc a) h =
    omega (arith, or_low (suc a) 0, or_none bound (suc a / 2) (omega arith))

-- The powers of two, by doubling.
abbrev pub pow2 : ℕ → ℕ
pow2 zero = 1
pow2 (suc k) = 2 * pow2 k

pub pow2-pos : (k : ℕ) → 0 < pow2 k
pow2-pos zero = omega arith
pow2-pos (suc k) = omega (arith, pow2-pos k)

-- Dividing by twice a number in two steps.
halve_mod : (a p : ℕ) → 0 < p → (a / 2) % p * 2 + a % 2 ≡ a % (2 * p)
halve_mod a p h = grind arith

-- A mask of k ones keeps the k low bits.
pub bit_and-mask : (k a : ℕ) → bit_and a (pow2 k - 1) ≡ a % pow2 k
bit_and-mask zero a = omega (arith, and_none (suc a) a (omega arith))
bit_and-mask (suc k) a =
    rw (and_low a (2 * pow2 k - 1), half, bit_and-mask k (a / 2))
      (omega (arith, pow2-pos k, halve_mod a (pow2 k) (pow2-pos k)))
  where
    half : (2 * pow2 k - 1) / 2 ≡ pow2 k - 1
    half = omega (arith, pow2-pos k)

-- Where the low field is below the shift, `|` joins the two fields as `+` does.
pub bit_or-disjoint : (k a b : ℕ) → b < pow2 k → bit_or (a * pow2 k) b ≡ a * pow2 k + b
bit_or-disjoint zero a b h =
    let e : b ≡ 0 = omega arith in rw e (or_none (suc (a * 1)) (a * 1) (omega arith) ∙ omega arith)
bit_or-disjoint (suc k) a b h =
    rw (or_low (a * (2 * pow2 k)) b, half, bit_or-disjoint k a (b / 2) (omega arith)) (omega arith)
  where
    half : a * (2 * pow2 k) / 2 ≡ a * pow2 k
    half = omega arith
