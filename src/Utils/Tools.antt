-- ===== src/Utils/Tools.antt =====
-- engine/utils/tools.hpp: the dump of bytes in hexadecimal, and the directory of the program. Text is
-- bytes; `char` is signed, as on x86, so a byte from 128 on is less than 32. The clocks and the random
-- numbers of the file are the library's.
pub mod HexDump
mod Tests
use mathlib.Core.Option
use cxxprogram.Prelude.{
  Bool, List, Option, [], drop, false, if◌then◌else◌, leb, length, ltb, none, replicate, some, suc,
  take, true, until_zero, zero, ℕ, ◌%◌, ◌*◌, ◌++◌, ◌+◌, ◌-◌, ◌/◌, ◌==◌, ◌||◌, ◌∷◌,
}

-- A digit of "%02X".
abbrev pub hex_digit : ℕ → ℕ
hex_digit d = if ltb d 10 then 48 + d else 55 + d

-- The bytes from index `i` on, each with a space, and one more behind the bytes 7, 15 and 23.
unfoldable pub hex_text : ℕ → List ℕ → List ℕ
hex_text i [] = []
hex_text i (b ∷ line) =
    let rest = hex_text (suc i) line in
    hex_digit (b / 16 % 16)
    ∷ hex_digit (b % 16)
    ∷ 32
    ∷ (if i == 7 || (i == 15 || i == 23) then 32 ∷ rest else rest)

abbrev pub spaces : ℕ → List ℕ
spaces n = replicate n 32

-- The spaces between the two parts of a line.
unfoldable pub spacer : ℕ → ℕ → List ℕ
spacer size width =
    spaces (3 * (width - size))
    ++ (if leb size 8
        then spaces 3
        else if leb size 16
        then spaces 2
        else if leb size 24
        then spaces 1
        else [])

-- A byte below 32, and one from 128 on, is shown as a dot.
unfoldable pub plain_text : List ℕ → List ℕ
plain_text [] = []
plain_text (b ∷ line) = (if ltb b 32 || leb 128 b then 46 else b) ∷ plain_text line

-- What stands in front of the ": ".
unfoldable pub hex_column : List ℕ → List ℕ → ℕ → List ℕ
hex_column pre line width = pre ++ (hex_text 0 line ++ spacer (length line) width)

unfoldable pub hex_dump_one_line : List ℕ → List ℕ → ℕ → List ℕ
hex_dump_one_line pre line width =
    hex_column pre line width ++ (58 ∷ 32 ∷ (plain_text line ++ 10 ∷ []))

-- The `while` loop and what follows it, on fuel; `out` is the stream.
unfoldable pub dump_loop : ℕ → ℕ → List ℕ → List ℕ → List ℕ → Option (List ℕ)
dump_loop zero width pre str out = none
dump_loop (suc fuel) width pre str out =
    let rest =
      dump_loop fuel width pre (drop width str)
        (out ++ hex_dump_one_line pre (take width str) width) in
    if ltb width (length str)
    then rest
    else if ltb 0 (length str)
    then some (out ++ hex_dump_one_line pre str width)
    else some out

unfoldable pub to_hex_dump_text : ℕ → List ℕ → ℕ → List ℕ → Option (List ℕ)
to_hex_dump_text fuel str width pre = dump_loop fuel width pre str []

-- `full_name.substr(0, full_name.find_last_of("/"))`: all of it where there is no slash.
abbrev pub has_slash : List ℕ → Bool
has_slash [] = false
has_slash (c ∷ s) = if c == 47 then true else has_slash s

unfoldable pub directory : List ℕ → List ℕ
directory [] = []
directory (c ∷ s) =
    let rest = directory s in if has_slash s then c ∷ rest else if c == 47 then [] else c ∷ rest

-- The end of the line that `fgets` read, taken off.
abbrev pub chop_newline : List ℕ → List ℕ
chop_newline [] = []
chop_newline (c ∷ []) = if c == 10 then [] else c ∷ []
chop_newline (c ∷ d ∷ s) = c ∷ chop_newline (d ∷ s)

-- `get_app_directory` on Linux: what `readlink` puts in the buffer of 1024 bytes, if it succeeds, and
-- else the line that the shell's command prints, if it can be run.
unfoldable pub get_app_directory : Option (List ℕ) → Option (List ℕ) → List ℕ
get_app_directory (some path) line = directory (until_zero path)
get_app_directory none none = []
get_app_directory none (some line) = directory (chop_newline (until_zero line))
