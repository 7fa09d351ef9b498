-- ===== src/Redis/Command/Params.antt =====
-- The parameters of engine/redis/redis_command.cpp and their lengths.
use mathlib.Core.List.{map-append}
use cxxprogram.Prelude.{
  List, [], ap, arith, length, length-append, map, refl, some, sym, ℕ, ◌++◌, ◌+◌, ◌∙◌, ◌∷◌, ◌≡◌,
  ◌≢◌,
}
use cxxprogram.Prelude.Int.{ℤ}
use cxxprogram.Prelude.Decimal.{to_string, atoll, atoll-to_string}
use cxxprogram.Redis.Command.{Command, append, push_signed, param_count, argv, argv_len, to_text}

-- Each length is that of its parameter: what `redisCommandArgv` is given.
abbrev pub IsAligned : Command → Type 0
IsAligned c = argv_len c ≡ map (λ (p : List ℕ). length p) (argv c)

-- Every `push` keeps the lengths right, adds one parameter, and leaves those before it.
pub append_lem :
    (c : Command) (bytes : List ℕ)
    → IsAligned c
    → IsAligned (append c bytes)
      × (param_count (append c bytes) ≡ param_count c + 1)
      × (argv (append c bytes) ≡ argv c ++ bytes ∷ [])
unfolding append param_count argv argv_len
append_lem c bytes h = (
  ap (λ l. l ++ length bytes ∷ []) h ∙ sym (map-append _ c.params (bytes ∷ [])),
  length-append c.lens (length bytes ∷ []) ∙ omega arith,
  refl,
)

-- A number that is pushed becomes one more parameter, whose text reads as that number; the lengths
-- stay right.
pub push_signed_lem :
    (c : Command) (z : ℤ)
    → IsAligned c
    → (text : List ℕ) × (argv (push_signed c z) ≡ argv c ++ text ∷ [])
      × IsAligned (push_signed c z)
      × (atoll text ≡ z)
unfolding push_signed
push_signed_lem c z h =
    let (aligned, _, more) = append_lem c (to_string z) h in
    (to_string z, more, aligned, atoll-to_string z)

-- `to_string` breaks the agreement: the first parameter is one byte longer than its length says, and
-- one more byte longer after each further call.
pub to_text_lem :
    (c : Command) (p : List ℕ) (ps : List (List ℕ))
    → IsAligned c
    → argv c ≡ p ∷ ps
    → (c' : Command) × (to_text c ≡ some (p ++ 0 ∷ [], c'))
      × (argv_len c' ≡ argv_len c)
      × ¬ IsAligned c'
unfolding to_text argv argv_len
to_text_lem c p ps h e = (
  record c { params = (p ++ 0 ∷ []) ∷ ps },
  rw (e, to_text),
  refl,
  λ k. longer p (head_eq _ _ _ _ (sym (ap (map (λ (q : List ℕ). length q)) e) ∙ sym h ∙ k)),
)
  where
    head_eq : (a b : ℕ) (xs ys : List ℕ) → a ∷ xs ≡ b ∷ ys → a ≡ b
    head_eq a b xs ys q = ground arith

    longer : (p : List ℕ) → length p ≢ length (p ++ 0 ∷ [])
    longer p q = omega (arith, length-append p (0 ∷ []))
