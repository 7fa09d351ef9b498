-- ===== src/Redis/Result.antt =====
-- engine/redis/redis_result.h and redis_result.cpp: typed reads of a reply, one row after another.
-- `redisReply` is hiredis's; a null `str` is `none`. In a result, `none` is a null pointer that is
-- followed, or text that `atol` and `atoll` may not be given since its number is out of their range.
pub mod Reading
mod Tests
use mathlib.Core.Option
use cxxprogram.Prelude.{
  Bool, List, Option, false, get_elem?, if◌then◌else◌, leb, length, ltb, none, not, some, true, ℕ,
  ◌%◌, ◌*◌, ◌+◌, ◌-◌, ◌==◌, ◌>>=◌, ◌^◌,
}
use cxxprogram.Prelude.Int.{ℤ, pos, negsuc}
use cxxprogram.Prelude.Decimal.{atoll}

-- The types of a reply that the code tells apart.
pub data ReplyType : Type 0 where
  nil error status other : ReplyType

pub record Reply : Type 0 where
  pub type : ReplyType
  pub str : Option (List ℕ)
  pub elements : List (Option (List ℕ))

pub record RedisResult : Type 0 where
  pub reply : Option Reply
  pub pos_ : ℕ

unfoldable pub empty : RedisResult
empty = record { reply = none; pos_ = 0 }

-- The position is kept, and the old reply is not freed.
unfoldable pub set_result : RedisResult → Option Reply → RedisResult
set_result r reply = record r { reply = reply }

-- `NIL` or `ERROR`.
abbrev pub is_failure : ReplyType → Bool
is_failure nil = true
is_failure error = true
is_failure status = false
is_failure other = false

unfoldable pub is_empty : RedisResult → Bool
is_empty r = elim r.reply [ none ↦ true | some reply ↦ is_failure reply.type ]

-- The signed number that some bits mean.
abbrev pub signed : ℕ → ℕ → ℤ
signed modulus b = if ltb (2 * b) modulus then pos b else negsuc (modulus - b - 1)

-- The `size_t` of the elements is narrowed to `int32_t`.
abbrev pub rows : Reply → ℤ
rows reply = elim reply.str [
  | none ↦ signed (2 ^ 32) (length reply.elements % 2 ^ 32)
  | some s ↦ pos 1
]

unfoldable pub get_row_count : RedisResult → Option ℤ
get_row_count r = Option.map rows r.reply

-- `pos_ < n`, both of type `int32_t`. `pos_` starts at 0 and is raised only where this holds, so it
-- is never negative and never passes the greatest `int32_t`.
abbrev pub is_below : ℕ → ℤ → Bool
is_below p (pos n) = ltb p n
is_below p (negsuc n) = false

unfoldable pub fetch : RedisResult → Option Bool
unfolding get_row_count
fetch r = Option.map (is_below r.pos_) (get_row_count r)

-- The text of the current row of a reply: the string, or the element.
abbrev pub row : Reply → ℕ → Option (List ℕ)
row reply i = elim reply.str [ none ↦ get_elem? reply.elements i >>= (λ s. s) | some s ↦ some s ]

-- `get_data()`: the inner `none` is a null pointer.
unfoldable pub get_data : RedisResult → Option (Option (List ℕ) × RedisResult)
get_data r =
    Option.map
      (λ reply.
        if not (is_below r.pos_ (rows reply))
        then (none, r)
        else (row reply r.pos_, record r { pos_ = r.pos_ + 1 }))
      r.reply

-- `get_data(len)`: the length is that of the text.
unfoldable pub get_data_len : RedisResult → Option (Option (List ℕ × ℕ) × RedisResult)
unfolding get_data
get_data_len r =
    Option.map (λ (s, r'). (Option.map (λ bytes. (bytes, length bytes)) s, r')) (get_data r)

-- The shape of every `get_...(value)`: `none` inside is the result `false`.
unfoldable pub get {ℓ} :
    {A : Type ℓ} → (List ℕ → Option A) → RedisResult → Option (Option A × RedisResult)
unfolding fetch get_data
get convert r = do
  more ← fetch r
  elim more [
    | false ↦ some (none, r)
    | true ↦ do (text, r') ← get_data r; bytes ← text; value ← convert bytes; some (some value, r')
  ]

-- The range of a signed number of `2 ^ w` values; a value outside is undefined for `atol`.
abbrev pub checked : ℕ → ℤ → Option ℤ
checked half (pos n) = if ltb n half then some (pos n) else none
checked half (negsuc n) = if ltb n half then some (negsuc n) else none

-- The bits of a number in a width; `signed` is what they mean as a signed number.
abbrev pub bits : ℕ → ℤ → ℕ
bits modulus (pos n) = n % modulus
bits modulus (negsuc n) = modulus - 1 - n % modulus

-- `long` and `int64_t` have 64 bits, `int` has 32.
unfoldable pub get_bool : RedisResult → Option (Option Bool × RedisResult)
unfolding get
get_bool = get (λ s. Option.map (λ z. not (bits (2 ^ 32) z == 0)) (checked (2 ^ 31) (atoll s)))

unfoldable pub get_signed : ℕ → RedisResult → Option (Option ℤ × RedisResult)
unfolding get
get_signed modulus =
    get (λ s. Option.map (λ z. signed modulus (bits modulus z)) (checked (2 ^ 63) (atoll s)))

unfoldable pub get_unsigned : ℕ → RedisResult → Option (Option ℕ × RedisResult)
unfolding get
get_unsigned modulus = get (λ s. Option.map (bits modulus) (checked (2 ^ 63) (atoll s)))

unfoldable pub get_int8 : RedisResult → Option (Option ℤ × RedisResult)
unfolding get_signed
get_int8 = get_signed (2 ^ 8)

unfoldable pub get_uint8 : RedisResult → Option (Option ℕ × RedisResult)
unfolding get_unsigned
get_uint8 = get_unsigned (2 ^ 8)

unfoldable pub get_int32 : RedisResult → Option (Option ℤ × RedisResult)
unfolding get_signed
get_int32 = get_signed (2 ^ 32)

unfoldable pub get_uint32 : RedisResult → Option (Option ℕ × RedisResult)
unfolding get_unsigned
get_uint32 = get_unsigned (2 ^ 32)

unfoldable pub get_int64 : RedisResult → Option (Option ℤ × RedisResult)
unfolding get_signed
get_int64 = get_signed (2 ^ 64)

unfoldable pub get_uint64 : RedisResult → Option (Option ℕ × RedisResult)
unfolding get_unsigned
get_uint64 = get_unsigned (2 ^ 64)

-- `atof` is the C library's, over its floats.
unfoldable pub get_float {ℓ} :
    {F : Type ℓ} → (List ℕ → F) → RedisResult → Option (Option F × RedisResult)
unfolding get
get_float atof = get (λ s. some (atof s))
