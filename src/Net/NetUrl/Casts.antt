-- ===== src/Net/NetUrl/Casts.antt =====
-- `set` and the typed `get` (engine/net/neturl.h).
use cxxprogram.Prelude.{
  Bool, [], ap, arith, false, if◌then◌else◌, none, refl, some, subst, suc, true, ℕ, ◌∙◌, ◌∷◌, ◌≡◌,
}
use cxxprogram.Prelude.Int.{ℤ, pos, negsuc}
use cxxprogram.Prelude.Decimal.{
  to_string, to_string-pos, to_string-negsuc, decimal-cons, decimal-IsDigits, IsDigits, atoll,
  atoll-to_string, skip_spaces, read_sign,
}
use cxxprogram.Net.NetUrl.{
  Text, NetUrl, same_text, find_param, set, get_cast, cast_signed, cast_bool, in_range, all_digits,
  is_number,
}
use cxxprogram.Net.NetUrl.Params.{find_param-put_param, same_text_self}

through {ℓ κ} :
    {A : Type ℓ} {B : Type κ} (b : Bool) (f : A → B) (x y : A)
    → f (if b then x else y) ≡ (if b then f x else f y)
through true f x y = refl
through false f x y = refl

-- A cast gets what was set, and other keys are as before.
pub get_cast-set {ℓ} :
    {A : Type ℓ} (cast : Text → A) (u : NetUrl) (key other val : Text) (default_value : A)
    → get_cast cast (set u key val) other default_value
      ≡ (if same_text key other then cast val else get_cast cast u other default_value)
unfolding get_cast set
get_cast-set cast u key other val default_value =
    ap (λ o. elim o [ none ↦ default_value | some v ↦ cast v ])
      (find_param-put_param key other val u.params)
    ∙ through (same_text key other) (λ o. elim o [ none ↦ default_value | some v ↦ cast v ])
        (some val) (find_param other u.params)

IsDigits-all_digits : (s : Text) → IsDigits s → all_digits s ≡ true
IsDigits-all_digits [] h = refl
IsDigits-all_digits (c ∷ s) (a, b, h) = ground (arith, IsDigits-all_digits s h)

-- Digits are a number to their end, with a sign or without.
is_number_digits :
    (c : ℕ) (s : Text)
    → IsDigits (c ∷ s)
    → (is_number (skip_spaces (c ∷ s)) ≡ true) × (is_number (45 ∷ c ∷ s) ≡ true)
is_number_digits c s h = ground (arith, IsDigits-all_digits (c ∷ s) h)

is_number-to_string : (z : ℤ) → is_number (skip_spaces (to_string z)) ≡ true
is_number-to_string (pos n) =
    let (c, s, e) = decimal-cons n in
    ap (λ t. is_number (skip_spaces t)) (to_string-pos n ∙ e)
    ∙ (is_number_digits c s (subst IsDigits e (decimal-IsDigits n))).0
is_number-to_string (negsuc n) =
    let (c, s, e) = decimal-cons (suc n) in
    ap (λ t. is_number (skip_spaces t)) (to_string-negsuc n ∙ ap (◌∷◌ 45) e)
    ∙ (is_number_digits c s (subst IsDigits e (decimal-IsDigits (suc n)))).1

cast_signed-number :
    (half : ℕ) (s : Text)
    → is_number (skip_spaces s) ≡ true
    → cast_signed half s ≡ in_range half (atoll s)
unfolding cast_signed atoll
cast_signed-number half s h =
    ap (λ (b : Bool). if b then in_range half (read_sign (skip_spaces s)) else pos 0) h

-- A signed number that is set as text is got by the typed `get` of a width that it fits.
pub get_cast-to_string :
    (half : ℕ) (u : NetUrl) (key : Text) (z default_value : ℤ)
    → in_range half z ≡ z
    → get_cast (cast_signed half) (set u key (to_string z)) key default_value ≡ z
get_cast-to_string half u key z default_value h =
    get_cast-set (cast_signed half) u key key (to_string z) default_value
    ∙ ap
        (λ (b : Bool).
          if b
          then cast_signed half (to_string z)
          else get_cast (cast_signed half) u key default_value)
        (same_text_self key)
    ∙ cast_signed-number half (to_string z) (is_number-to_string z)
    ∙ ap (in_range half) (atoll-to_string z)
    ∙ h

-- The Boolean cast looks at the value as it stands: in capitals "FALSE" is true.
pub cast_bool_capitals :
    (u : NetUrl) (key : Text)
    → get_cast cast_bool (set u key (70 ∷ 65 ∷ 76 ∷ 83 ∷ 69 ∷ [])) key false ≡ true
unfolding cast_bool
cast_bool_capitals u key =
    get_cast-set cast_bool u key key (70 ∷ 65 ∷ 76 ∷ 83 ∷ 69 ∷ []) false
    ∙ ap (λ (b : Bool). if b then true else get_cast cast_bool u key false) (same_text_self key)
