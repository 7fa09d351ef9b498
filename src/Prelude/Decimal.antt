-- ===== src/Prelude/Decimal.antt =====
-- Decimal numbers as text: `std::to_string`, and what `atol`, `atoll` and `std::stoi` read.
use cxxprogram.Prelude.{
  Bool, Bool-cases, List, [], ap, arith, if◌then◌else◌, inl, inr, leb, ltb, refl, suc, zero, ℕ, ◌%◌,
  ◌&&◌, ◌*◌, ◌+◌, ◌-◌, ◌/◌, ◌<◌, ◌==◌, ◌||◌, ◌∙◌, ◌∷◌, ◌≡◌, ◌≤◌,
}
use cxxprogram.Prelude.Int.{ℤ, pos, negsuc}

abbrev pub is_digit : ℕ → Bool
is_digit c = leb 48 c && leb c 57

-- The digits of `n` in front of `out`; a number has fewer digits than one more than itself.
pub digits : ℕ → ℕ → List ℕ → List ℕ
digits zero n out = out
digits (suc fuel) n out =
    let rest = digits fuel (n / 10) ((48 + n % 10) ∷ out) in
    if ltb n 10 then (48 + n) ∷ out else rest

unfoldable pub decimal : ℕ → List ℕ
unfolding digits
decimal n = digits (suc n) n []

-- `std::to_string` of a signed number.
unfoldable pub to_string : ℤ → List ℕ
unfolding decimal
to_string (pos n) = decimal n
to_string (negsuc n) = 45 ∷ decimal (suc n)

-- The number that the digits at the front spell, behind `n`; it ends at the first other character.
abbrev pub read_digits : ℕ → List ℕ → ℕ
read_digits n [] = n
read_digits n (c ∷ s) =
    let rest = read_digits (n * 10 + (c - 48)) s in if is_digit c then rest else n

abbrev pub is_space : ℕ → Bool
is_space c = c == 32 || (leb 9 c && leb c 13)

abbrev pub skip_spaces : List ℕ → List ℕ
skip_spaces [] = []
skip_spaces (c ∷ s) = let rest = skip_spaces s in if is_space c then rest else c ∷ s

abbrev pub negate : ℕ → ℤ
negate zero = pos 0
negate (suc n) = negsuc n

abbrev pub read_sign : List ℕ → ℤ
read_sign [] = pos 0
read_sign (c ∷ s) =
    if c == 45
    then negate (read_digits 0 s)
    else if c == 43
    then pos (read_digits 0 s)
    else pos (read_digits 0 (c ∷ s))

-- The value of `atoll`, where it fits the result.
unfoldable pub atoll : List ℕ → ℤ
atoll s = read_sign (skip_spaces s)

-- Every character is a digit.
abbrev pub IsDigits : List ℕ → Type 0
IsDigits [] = Unit {0}
IsDigits (c ∷ s) = (48 ≤ c) × (c ≤ 57) × IsDigits s

digits-IsDigits : (fuel n : ℕ) (out : List ℕ) → IsDigits out → IsDigits (digits fuel n out)
unfolding digits
digits-IsDigits zero n out h = h
digits-IsDigits (suc fuel) n out h =
    ground (arith, digits-IsDigits fuel (n / 10) ((48 + n % 10) ∷ out))

pub decimal-IsDigits : (n : ℕ) → IsDigits (decimal n)
unfolding decimal
decimal-IsDigits n = digits-IsDigits (suc n) n [] tt

read_digits-digits :
    (fuel n : ℕ) (out : List ℕ) → n < fuel → read_digits 0 (digits fuel n out) ≡ read_digits n out
unfolding digits
read_digits-digits zero n out h = absurd (omega arith)
read_digits-digits (suc fuel) n out h = elim (Bool-cases (ltb n 10)) [
  | inl e ↦ rw (e, digits) (ground arith)
  | inr e ↦
      rw (e, digits)
        (read_digits-digits fuel (n / 10) ((48 + n % 10) ∷ out) (ground arith) ∙ ground arith)
]

pub read_digits-decimal : (n : ℕ) → read_digits 0 (decimal n) ≡ n
unfolding decimal
read_digits-decimal n = read_digits-digits (suc n) n [] (omega arith)

-- What does not begin like a number's digits is not skipped over.
read_sign_digit : (s : List ℕ) → IsDigits s → read_sign (skip_spaces s) ≡ pos (read_digits 0 s)
read_sign_digit [] h = refl
read_sign_digit (c ∷ s) h = ground arith

pub atoll-to_string : (z : ℤ) → atoll (to_string z) ≡ z
unfolding atoll to_string
atoll-to_string (pos n) =
    read_sign_digit (decimal n) (decimal-IsDigits n) ∙ ap pos (read_digits-decimal n)
atoll-to_string (negsuc n) = ap negate (read_digits-decimal (suc n))

digits-cons :
    (fuel n c : ℕ) (out : List ℕ) → (d : ℕ) × (s : List ℕ) × (digits fuel n (c ∷ out) ≡ d ∷ s)
unfolding digits
digits-cons zero n c out = (c, out, refl)
digits-cons (suc fuel) n c out = elim (Bool-cases (ltb n 10)) [
  | inl e ↦ (48 + n, c ∷ out, rw (e, digits) refl)
  | inr e ↦
      let (d, s, h) = digits-cons fuel (n / 10) (48 + n % 10) (c ∷ out) in (d, s, rw (e, digits) h)
]

-- A decimal has a first digit.
pub decimal-cons : (n : ℕ) → (d : ℕ) × (s : List ℕ) × (decimal n ≡ d ∷ s)
unfolding decimal digits
decimal-cons n = elim (Bool-cases (ltb n 10)) [
  | inl e ↦ (48 + n, [], rw (e, digits) refl)
  | inr e ↦ let (d, s, h) = digits-cons n (n / 10) (48 + n % 10) [] in (d, s, rw (e, digits) h)
]

pub to_string-pos : (n : ℕ) → to_string (pos n) ≡ decimal n
unfolding to_string
to_string-pos n = refl

pub to_string-negsuc : (n : ℕ) → to_string (negsuc n) ≡ 45 ∷ decimal (suc n)
unfolding to_string
to_string-negsuc n = refl
