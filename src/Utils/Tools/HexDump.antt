-- ===== src/Utils/Tools/HexDump.antt =====
-- `to_hex_dump_text` of engine/utils/tools.hpp: its lines, its columns, and when it ends.
use mathlib.Core.List.{flatten}
use cxxprogram.Prelude.{
  List, [], ap, arith, if◌then◌else◌, leb, length, length-append, length-replicate, ltb, map, none,
  refl, suc, zero, ℕ, ◌&&◌, ◌*◌, ◌++◌, ◌+◌, ◌-◌, ◌<◌, ◌==◌, ◌||◌, ◌∙◌, ◌∷◌, ◌≡◌, ◌≤◌,
}
use cxxprogram.Utils.Tools.{
  hex_text, spaces, spacer, hex_column, hex_dump_one_line, dump_loop, to_hex_dump_text,
}

-- The lines of a text: all of the full width but the last, which has at least one byte.
pub data Lines (width : ℕ) : List ℕ → List (List ℕ) → Type 0 where
  no_line : Lines width [] []
  last_line : {line : List ℕ} → 0 < length line → length line ≤ width → Lines width line (line ∷ [])
  full_line :
      {line rest : List ℕ} {lines : List (List ℕ)}
      → length line ≡ width
      → 0 < length rest
      → Lines width rest lines
      → Lines width (line ++ rest) (line ∷ lines)

abbrev dumped : ℕ → List ℕ → List (List ℕ) → List ℕ
dumped width pre lines = flatten (map (λ line. hex_dump_one_line pre line width) lines)

loop_forever :
    (fuel : ℕ) (pre str out : List ℕ) → 0 < length str → dump_loop fuel 0 pre str out ≡ none
unfolding dump_loop
loop_forever zero pre str out h = refl
loop_forever (suc fuel) pre str out h =
    ground (arith, loop_forever fuel pre str (out ++ hex_dump_one_line pre [] 0))

-- With the width 0 the dump of any text but the empty one never ends.
pub to_hex_dump_text-zero :
    (fuel : ℕ) (pre str : List ℕ) → 0 < length str → to_hex_dump_text fuel str 0 pre ≡ none
unfolding to_hex_dump_text
to_hex_dump_text-zero fuel pre str h = loop_forever fuel pre str [] h

-- How many of the indices 7, 15 and 23 lie between `i` and `i + n`.
abbrev gaps : ℕ → ℕ → ℕ
gaps i zero = 0
gaps i (suc n) = (if i == 7 || (i == 15 || i == 23) then 1 else 0) + gaps (suc i) n

length-hex_text :
    (i : ℕ) (line : List ℕ) → length (hex_text i line) ≡ 3 * length line + gaps i (length line)
unfolding hex_text
length-hex_text i [] = refl
length-hex_text i (b ∷ line) = ground (arith, length-hex_text (suc i) line)

abbrev between : ℕ → ℕ → ℕ → ℕ
between i n x = if leb i x && ltb x (i + n) then 1 else 0

gaps_lem : (i n : ℕ) → gaps i n ≡ between i n 7 + between i n 15 + between i n 23
gaps_lem i zero = ground arith
gaps_lem i (suc n) = ground (arith, gaps_lem (suc i) n)

-- How many spaces close the column.
abbrev closing : ℕ → ℕ
closing size = if leb size 8 then 3 else if leb size 16 then 2 else if leb size 24 then 1 else 0

abbrev closer : ℕ → List ℕ
closer size =
    if leb size 8
    then spaces 3
    else if leb size 16
    then spaces 2
    else if leb size 24
    then spaces 1
    else []

length-closer : (size : ℕ) → length (closer size) ≡ closing size
length-closer size = ground arith

length-spacer : (size width : ℕ) → length (spacer size width) ≡ 3 * (width - size) + closing size
unfolding spacer
length-spacer size width =
    length-append (spaces (3 * (width - size))) (closer size)
    ∙ omega (arith, length-replicate {A = ℕ} (3 * (width - size)) 32, length-closer size)

columns :
    (pre size width : ℕ) {a b : ℕ}
    → size ≤ width
    → a ≡ 3 * size + (between 0 size 7 + between 0 size 15 + between 0 size 23)
    → b ≡ 3 * (width - size) + closing size
    → pre + (a + b) ≡ pre + 3 * width + (if size == 8 || (size == 16 || size == 24) then 4 else 3)
columns pre size width h e f = ground arith

-- The column of the text, for a line of at most the width: the same for all lines of a dump, but one
-- further right for a line of exactly 8, 16 or 24 bytes.
pub hex_column_lem :
    (pre line : List ℕ) (width : ℕ)
    → length line ≤ width
    → length (hex_column pre line width)
      ≡ length pre
        + 3 * width
        + (if length line == 8 || (length line == 16 || length line == 24) then 4 else 3)
unfolding hex_column
hex_column_lem pre line width h =
    length-append pre (hex_text 0 line ++ spacer (length line) width)
    ∙ ap (◌+◌ (length pre)) (length-append (hex_text 0 line) (spacer (length line) width))
    ∙ columns (length pre) (length line) width h
        (length-hex_text 0 line ∙ ap (◌+◌ (3 * length line)) (gaps_lem 0 (length line)))
        (length-spacer (length line) width)
