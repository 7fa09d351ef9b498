-- ===== src/Redis/Result/Reading.antt =====
-- Reading the rows of a reply (engine/redis/redis_result.cpp).
use mathlib.Core.Option
use native.Mathlib.Nat.{mod-eq_of_lt}
use cxxprogram.Prelude.{
  Bool-cases, List, Option, [], ap, append-nil, append_assoc, arith, false, get_elem?,
  if◌then◌else◌, inl, inr, not, length, length-append, length-map, ltb, map, none, refl, some, suc,
  sym, true, zero, ℕ, ◌%◌, ◌*◌, ◌++◌, ◌+◌, ◌<◌, ◌>>=◌, ◌^◌, ◌∙◌, ◌∷◌, ◌≡◌, ◌≤◌,
}
use cxxprogram.Prelude.Int.{ℤ, pos, negsuc}
use cxxprogram.Prelude.Decimal.{atoll, to_string, atoll-to_string}
use cxxprogram.Redis.Result.{
  is_below, Reply, RedisResult, rows, row, get, checked, bits, signed, ReplyType, get_signed,
}

-- A result that holds a reply and stands at row `p`.
abbrev pub at : Reply → ℕ → RedisResult
at reply p = record { reply = some reply; pos_ = p }

-- One typed read, on every case of the row: past the last row it returns false and moves nothing;
-- else it moves on by one row, and a null text or one out of range is undefined.
pub get_lem {ℓ} :
    {A : Type ℓ} (convert : List ℕ → Option A) (reply : Reply) (p : ℕ)
    → get convert (at reply p) ≡ (
        if is_below p (rows reply)
        then Option.map (λ v. (some v, at reply (p + 1))) (row reply p >>= convert)
        else some (none, at reply p))
unfolding get
get_lem {A} convert reply p = elim (Bool-cases (is_below p (rows reply))) [
  | inr i ↦ rw (i, get)
  | inl i ↦
      let past : not (is_below p (rows reply)) ≡ false = ground arith in
      rw (i, get, past) (chain (row reply p))
]
  where
    kept : A → Option (Option A × RedisResult)
    kept v = some (some v, at reply (p + 1))

    moved : A → Option A × RedisResult
    moved v = (some v, at reply (p + 1))

    last : (o : Option A) → (o >>= kept) ≡ Option.map moved o
    last none = refl
    last (some v) = refl

    chain :
        (o : Option (List ℕ))
        → (o >>= (λ bytes. convert bytes >>= kept)) ≡ Option.map moved (o >>= convert)
    chain none = refl
    chain (some bytes) = last (convert bytes)

-- The value of `k` reads in turn; the inner `none` is a read that returned false.
pub get_many {ℓ} :
    {A : Type ℓ} → (List ℕ → Option A) → ℕ → RedisResult → Option (List (Option A) × RedisResult)
get_many convert zero r = some ([], r)
get_many convert (suc k) r = do
  (v, r') ← get convert r
  (vs, r'') ← get_many convert k r'
  some (v ∷ vs, r'')

-- The rows of a list reply, none of them null.
abbrev pub list_reply : ReplyType → List (List ℕ) → Reply
list_reply t texts = record { type = t; str = none; elements = map (λ text. some text) texts }

get_elem?-middle :
    (before : List (List ℕ)) (text : List ℕ) (after : List (List ℕ))
    → get_elem? (map (λ (x : List ℕ). some x) (before ++ text ∷ after)) (length before)
      ≡ some (some text)
get_elem?-middle [] text after = refl
get_elem?-middle (b ∷ before) text after = get_elem?-middle before text after

-- Fewer than 2 ^ 31 elements are counted as they are.
rows-list_reply :
    (t : ReplyType) (texts : List (List ℕ))
    → length texts < 2 ^ 31
    → rows (list_reply t texts) ≡ pos (length texts)
rows-list_reply t texts h =
    let n : length (map (λ (x : List ℕ). some x) texts) ≡ length texts =
      length-map texts (λ (x : List ℕ). some x) in
    let same : length texts % 2 ^ 32 ≡ length texts = mod-eq_of_lt (omega arith) in
    let positive : ltb (2 * length texts) (2 ^ 32) ≡ true = ground arith in rw (n, same, positive)

-- One read of a row that has a text.
get_text {ℓ} :
    {A : Type ℓ} (convert : List ℕ → Option A) (t : ReplyType) (all before : List (List ℕ))
    (text : List ℕ) (after : List (List ℕ)) (v : A)
    → length all < 2 ^ 31
    → all ≡ before ++ text ∷ after
    → convert text ≡ some v
    → get convert (at (list_reply t all) (length before))
      ≡ some (some v, at (list_reply t all) (length before + 1))
get_text convert t all before text after v k e h =
    let there : ltb (length before) (length all) ≡ true =
      ground (arith, ap length e, length-append before (text ∷ after)) in
    get_lem convert (list_reply t all) (length before)
    ∙ rw (rows-list_reply t all k, there) (rw (e, get_elem?-middle before text after, h))

get_many-from {ℓ} :
    {A : Type ℓ} (convert : List ℕ → Option A) (t : ReplyType) (all before texts : List (List ℕ))
    (vs : List A)
    → length all < 2 ^ 31
    → all ≡ before ++ texts
    → map convert texts ≡ map (λ v. some v) vs
    → get_many convert (length texts) (at (list_reply t all) (length before))
      ≡ some (map (λ v. some v) vs, at (list_reply t all) (length all))
unfolding get_many
get_many-from convert t all before [] [] b e h =
    ap (λ n. some ([], at (list_reply t all) n)) (sym (ap length (e ∙ append-nil before)))
get_many-from convert t all before [] (v ∷ vs) b e h = cc
get_many-from convert t all before (text ∷ texts) [] b e h = cc
get_many-from convert t all before (text ∷ texts) (v ∷ vs) b e h =
    let now = get_text convert t all before text texts v b e (ground arith) in
    let count : length (before ++ text ∷ []) ≡ length before + 1 =
      length-append before (text ∷ []) in
    let rest =
      get_many-from convert t all (before ++ text ∷ []) texts vs b
        (e ∙ sym (append_assoc before (text ∷ []) texts)) (ground arith) in
    rw (now, get_many, ← count, rest)

-- Reading a list reply of fewer than 2 ^ 31 elements, of which every text converts: each read gives
-- the next text's value, and a read after the last one returns false.
pub get_many-list_reply {ℓ} :
    {A : Type ℓ} (convert : List ℕ → Option A) (t : ReplyType) (texts : List (List ℕ)) (vs : List A)
    → length texts < 2 ^ 31
    → map convert texts ≡ map (λ v. some v) vs
    → (get_many convert (length texts) (at (list_reply t texts) 0)
        ≡ some (map (λ v. some v) vs, at (list_reply t texts) (length texts)))
      × (get convert (at (list_reply t texts) (length texts))
          ≡ some (none, at (list_reply t texts) (length texts)))
get_many-list_reply convert t texts vs b h = (
  get_many-from convert t texts [] texts vs b refl h,
  get_lem convert (list_reply t texts) (length texts)
      ∙ let over : ltb (length texts) (length texts) ≡ false = ground arith in
        rw (rows-list_reply t texts b, over),
)

-- The bits of a number in range mean that number again.
signed-bits :
    (half : ℕ) (z : ℤ) → checked half z ≡ some z → signed (2 * half) (bits (2 * half) z) ≡ z
signed-bits half (pos n) h =
    let lt : n < half = ground arith in
    let same : n % (2 * half) ≡ n = mod-eq_of_lt (omega arith) in rw same (ground arith)
signed-bits half (negsuc n) h =
    let lt : n < half = ground arith in
    let same : n % (2 * half) ≡ n = mod-eq_of_lt (omega arith) in rw same (ground arith)

checked_mono :
    (half : ℕ) (z : ℤ) → half ≤ 2 ^ 63 → checked half z ≡ some z → checked (2 ^ 63) z ≡ some z
checked_mono half (pos n) h k = let lt : n < half = ground arith in ground arith
checked_mono half (negsuc n) h k = let lt : n < half = ground arith in ground arith

-- A signed number of at most 64 bits, in the range of the width that it is read in, is read back
-- from its text.
pub get_signed-to_string :
    (half : ℕ) (t : ReplyType) (z : ℤ)
    → half ≤ 2 ^ 63
    → checked half z ≡ some z
    → get_signed (2 * half) (at (record { type = t; str = some (to_string z); elements = [] }) 0)
      ≡ some (some z, at (record { type = t; str = some (to_string z); elements = [] }) 1)
unfolding get_signed
get_signed-to_string half t z h k =
    let fits : checked (2 ^ 63) z ≡ some z = checked_mono half z h k in
    get_lem
      (λ (x : List ℕ).
        Option.map (λ w. signed (2 * half) (bits (2 * half) w)) (checked (2 ^ 63) (atoll x)))
      (record { type = t; str = some (to_string z); elements = [] }) 0
    ∙ rw (atoll-to_string z, fits, signed-bits half z k)
