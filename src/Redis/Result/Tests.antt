-- ===== src/Redis/Result/Tests.antt =====
-- The theorems on results, at small inputs.
use cxxprogram.Prelude.{List, Option, [], arith, none, refl, some, ℕ, ◌∷◌, ◌≡◌}
use cxxprogram.Prelude.Int.{ℤ, negsuc, pos}
use cxxprogram.Prelude.Decimal.{atoll, to_string}
use cxxprogram.Redis.Result.{other, status, get, get_signed, checked}
use cxxprogram.Redis.Result.Reading.{
  at, list_reply, get_many, get_many-list_reply, get_signed-to_string,
}

abbrev texts : List (List ℕ)
texts = (49 ∷ 50 ∷ []) ∷ (45 ∷ 55 ∷ []) ∷ []

abbrev convert : List ℕ → Option ℤ
convert s = checked 1000 (atoll s)

-- "12" and "-7".
get_many-list_reply_example :
    (get_many convert 2 (at (list_reply other texts) 0)
      ≡ some (some (pos 12) ∷ some (negsuc 6) ∷ [], at (list_reply other texts) 2))
    × (get convert (at (list_reply other texts) 2) ≡ some (none, at (list_reply other texts) 2))
unfolding atoll
get_many-list_reply_example =
    get_many-list_reply convert other texts (pos 12 ∷ negsuc 6 ∷ []) (omega arith) refl

get_signed-to_string_example :
    get_signed 256
      (at (record { type = status; str = some (to_string (negsuc 41)); elements = [] }) 0)
    ≡ some (
      some (negsuc 41),
      at (record { type = status; str = some (to_string (negsuc 41)); elements = [] }) 1,
    )
get_signed-to_string_example = get_signed-to_string 128 status (negsuc 41) (omega arith) refl
