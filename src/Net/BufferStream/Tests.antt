-- ===== src/Net/BufferStream/Tests.antt =====
-- Runs of the stream, and its theorems at small inputs.
use mathlib.Core.Option.{map}
use cxxprogram.Prelude.{[], arith, none, refl, some, ◌<◌, ◌∷◌, ◌≡◌, ◌≤◌, ◌⊎◌}
use cxxprogram.Net.BufferStream.{
  BufferStream, init, append, contents, offset_read, retrieve, IsValid,
}
use cxxprogram.Net.BufferStream.Append.{append_cases, Appended}
use cxxprogram.Net.BufferStream.Retrieve.{retrieve-offset_read}

append_doubles :
    map contents (append 0 (init 7 4) (1 ∷ 2 ∷ 3 ∷ 4 ∷ 5 ∷ [])) ≡ some (1 ∷ 2 ∷ 3 ∷ 4 ∷ 5 ∷ [])
unfolding append init
append_doubles = refl

-- Four bytes, of which the first has been read and the last is free.
abbrev four : BufferStream
four = record { array = 1 ∷ 2 ∷ 3 ∷ 0 ∷ []; write = 3; read = 1; size = 4 }

four-IsValid : IsValid four
four-IsValid = record {
  backed = refl;
  read_le = omega arith;
  write_le = omega arith;
  small = omega arith;
}

append_cases_example :
    ((6 ≤ 5)
      × ((t : BufferStream) × (append 0 four (4 ∷ 5 ∷ 6 ∷ 7 ∷ 8 ∷ 9 ∷ []) ≡ some t)
          × Appended four (4 ∷ 5 ∷ 6 ∷ 7 ∷ 8 ∷ 9 ∷ []) t))
    ⊎ ((5 < 6) × (append 0 four (4 ∷ 5 ∷ 6 ∷ 7 ∷ 8 ∷ 9 ∷ []) ≡ none))
append_cases_example =
    append_cases 0 four (4 ∷ 5 ∷ 6 ∷ 7 ∷ 8 ∷ 9 ∷ []) four-IsValid (omega arith) (omega arith)

retrieve-offset_read_example :
    (t : BufferStream) × (retrieve (offset_read four 1) ≡ some t)
    × IsValid t
    × (contents t ≡ 3 ∷ [])
    × (t.read ≡ 0)
    × (t.size ≡ 4)
retrieve-offset_read_example = retrieve-offset_read four 1 four-IsValid (omega arith)
