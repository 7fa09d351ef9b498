-- ===== src/Logger/Tests.antt =====
-- A registry that is a list.
use cxxprogram.Prelude.{
  Bool, List, Option, [], ap, arith, false, if◌then◌else◌, none, refl, some, true, ℕ, ◌==◌, ◌∷◌,
  ◌≡◌, ◌≤◌, ◌⊎◌,
}
use cxxprogram.Prelude.Int.{pos, negsuc}
use cxxprogram.Logger.{Logger, Spdlog, async_with, off, default_init}
use cxxprogram.Logger.Init.{default_init_lem}

abbrev same_name : List ℕ → List ℕ → Bool
same_name [] [] = true
same_name [] (b ∷ t) = false
same_name (a ∷ s) [] = false
same_name (a ∷ s) (b ∷ t) = if a == b then same_name s t else false

same_name_self : (s : List ℕ) → same_name s s ≡ true
same_name_self [] = refl
same_name_self (a ∷ s) = ground (arith, same_name_self s)

abbrev find : List Logger → List ℕ → Option Logger
find [] name = none
find (l ∷ r) name = if same_name l.name name then some l else find r name

find_first : (r : List Logger) (l : Logger) → find (l ∷ r) l.name ≡ some l
find_first r l = ap (λ (b : Bool). if b then some l else find r l.name) (same_name_self l.name)

abbrev registry : Spdlog
registry = record {
  Registry = List Logger;
  get = find;
  set_default_logger = λ r l. l ∷ r;
  flush_every = λ r n. r;
  get-set_default_logger = find_first;
  get-flush_every = λ r n name. refl;
}

-- The asynchronous logger "a", with the level -1, and a second call that asks for another one.
default_init_lem_example :
    (l : Logger) × (find (default_init registry [] [] (97 ∷ []) true true (negsuc 0) []) (97 ∷ [])
      ≡ some l)
    × (((find [] (97 ∷ []) ≡ some l)
          × (default_init registry [] [] (97 ∷ []) true true (negsuc 0) [] ≡ []))
        ⊎ ((find [] (97 ∷ []) ≡ none) × (l.level ≤ off) × (l.delivery ≡ async_with 0)))
    × (default_init registry
          (default_init registry [] [] (97 ∷ []) true true (negsuc 0) [])
          []
          (97 ∷ [])
          false
          false
          (pos 2)
          []
        ≡ default_init registry [] [] (97 ∷ []) true true (negsuc 0) [])
default_init_lem_example =
    default_init_lem registry [] [] (97 ∷ []) true true (negsuc 0) [] [] false false (pos 2) []
