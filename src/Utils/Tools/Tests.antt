-- ===== src/Utils/Tools/Tests.antt =====
-- The dump of three bytes in lines of two, and the directory of a path.
use cxxprogram.Prelude.{List, [], arith, length, none, refl, some, ℕ, ◌∷◌, ◌≡◌}
use cxxprogram.Utils.Tools.{
  hex_text, spacer, plain_text, hex_column, hex_dump_one_line, dump_loop, to_hex_dump_text,
  directory, get_app_directory,
}
use cxxprogram.Utils.Tools.HexDump.{hex_column_lem}

-- "A", 0 and "z".
abbrev three : List ℕ
three = 65 ∷ 0 ∷ 122 ∷ []

-- "41 00    : A." and "7A       : z".
hex_dump_runs :
    to_hex_dump_text 4 three 2 []
    ≡ some (
        52 ∷ 49 ∷ 32 ∷ 48 ∷ 48 ∷ 32 ∷ 32 ∷ 32 ∷ 32 ∷ 58 ∷ 32 ∷ 65 ∷ 46 ∷ 10 ∷ 55 ∷ 65 ∷ 32 ∷ 32 ∷ 32
        ∷ 32 ∷ 32 ∷ 32 ∷ 32 ∷ 58 ∷ 32 ∷ 122 ∷ 10 ∷ [])
unfolding to_hex_dump_text dump_loop hex_dump_one_line hex_column hex_text spacer plain_text
hex_dump_runs = refl

-- "/a/b" is in "/a", and so it is with the end of the line that the shell prints.
directory_runs : get_app_directory none (some (47 ∷ 97 ∷ 47 ∷ 98 ∷ 10 ∷ 0 ∷ [])) ≡ 47 ∷ 97 ∷ []
unfolding get_app_directory directory
directory_runs = refl

hex_column_runs : length (hex_column [] three 16) ≡ 51
hex_column_runs = hex_column_lem [] three 16 (omega arith)
