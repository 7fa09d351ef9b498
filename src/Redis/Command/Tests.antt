-- ===== src/Redis/Command/Tests.antt =====
-- The theorems on commands, at small inputs.
use cxxprogram.Prelude.{List, [], refl, ℕ, ◌++◌, ◌∷◌, ◌≡◌}
use cxxprogram.Prelude.Int.{negsuc}
use cxxprogram.Prelude.Decimal.{atoll}
use cxxprogram.Redis.Command.{Command, argv, push_signed, argv_len}
use cxxprogram.Redis.Command.Params.{IsAligned, push_signed_lem}

-- "set".
abbrev set_command : Command
set_command = record { params = (115 ∷ 101 ∷ 116 ∷ []) ∷ []; lens = 3 ∷ [] }

push_signed_lem_example :
    (text : List ℕ) × (argv (push_signed set_command (negsuc 41)) ≡ argv set_command ++ text ∷ [])
    × IsAligned (push_signed set_command (negsuc 41))
    × (atoll text ≡ negsuc 41)
unfolding argv argv_len
push_signed_lem_example = push_signed_lem set_command (negsuc 41) refl
