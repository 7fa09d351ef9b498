-- ===== src/Redis/Command.antt =====
-- engine/redis/redis_command.h and redis_command.cpp: a command is a list of parameters, each kept
-- with its length. Text is bytes.
pub mod Params
mod Tests
use mathlib.Core.Option
use cxxprogram.Prelude.{List, Option, [], length, none, some, take, until_zero, ℕ, ◌++◌, ◌∷◌}
use cxxprogram.Prelude.Int.{ℤ, pos}
use cxxprogram.Prelude.Decimal.{to_string}

pub record Command : Type 0 where
  pub params : List (List ℕ)
  pub lens : List ℕ

unfoldable pub empty : Command
empty = record { params = []; lens = [] }

unfoldable pub append : Command → List ℕ → Command
append c bytes = record { params = c.params ++ bytes ∷ []; lens = c.lens ++ length bytes ∷ [] }

-- `push`, which the functions for the signed and the unsigned numbers of every width call.
unfoldable pub push : Command → ℤ → Command
push c value = append c (to_string value)

unfoldable pub push_signed : Command → ℤ → Command
unfolding push
push_signed c value = push c value

unfoldable pub push_unsigned : Command → ℕ → Command
unfolding push
push_unsigned c value = push c (pos value)

-- `push_float` and `push_double`, with the text that the standard library makes of the number.
unfoldable pub push_floating : {Float : Type 0} → (Float → List ℕ) → Command → Float → Command
push_floating to_text_of c value = append c (to_text_of value)

unfoldable pub push_string : Command → List ℕ → Command
push_string c value = append c value

-- `push_string(format, ...)`: `formatted` is what the format and its arguments make; `vsnprintf`
-- keeps 511 bytes of it.
unfoldable pub push_format : Command → List ℕ → Command
push_format c formatted = append c (until_zero (take 511 formatted))

unfoldable pub push_blob : Command → List ℕ → Command
push_blob c bytes = append c bytes

-- `length()`.
unfoldable pub param_count : Command → ℕ
param_count c = length c.lens

unfoldable pub argv : Command → List (List ℕ)
argv c = c.params

unfoldable pub argv_len : Command → List ℕ
argv_len c = c.lens

-- `to_string()` adds a zero to the first parameter and returns its address; `none`: there is none.
unfoldable pub to_text : Command → Option (List ℕ × Command)
to_text c = elim c.params [
  | [] ↦ none
  | p ∷ ps ↦ some (p ++ 0 ∷ [], record c { params = (p ++ 0 ∷ []) ∷ ps })
]
