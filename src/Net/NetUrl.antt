-- ===== src/Net/NetUrl.antt =====
-- engine/net/neturl.h: `net_url`, text as bytes. The map of parameters is a list in the order in
-- which the map is gone through; a key that is new comes last. In `parse`, `none` is an exception of
-- `std::stoi`.
pub mod Params
pub mod Orders
pub mod Whole
pub mod Casts
mod Tests
use mathlib.Core.Option
use cxxprogram.Prelude.{
  Bool, List, Option, [], false, if◌then◌else◌, ltb, none, not, some, true, ℕ, ◌%◌, ◌&&◌, ◌++◌, ◌-◌,
  ◌==◌, ◌^◌, ◌||◌, ◌∷◌,
}
use cxxprogram.Prelude.Int.{ℤ, pos, negsuc}
use cxxprogram.Prelude.Decimal.{decimal, is_digit, skip_spaces, read_sign}

abbrev pub Text : Type 0
Text = List ℕ

abbrev pub same_text : Text → Text → Bool
same_text [] [] = true
same_text [] (y ∷ ys) = false
same_text (x ∷ xs) [] = false
same_text (x ∷ xs) (y ∷ ys) = x == y && same_text xs ys

abbrev pub is_nil : Text → Bool
is_nil [] = true
is_nil (c ∷ s) = false

abbrev pub Params : Type 0
Params = List (Text × Text)

-- `params_.find(key)`, and `params_[key] = val`.
unfoldable pub find_param : Text → Params → Option Text
find_param key [] = none
find_param key ((k, v) ∷ ps) =
    let rest = find_param key ps in if same_text k key then some v else rest

unfoldable pub put_param : Text → Text → Params → Params
put_param key val [] = (key, val) ∷ []
put_param key val ((k, v) ∷ ps) =
    let rest = put_param key val ps in if same_text k key then (k, val) ∷ ps else (k, v) ∷ rest

pub record NetUrl : Type 0 where
  pub protocol : Text
  pub host : Text
  pub port : ℕ
  pub params : Params

-- What `reset` leaves.
unfoldable pub reset : NetUrl
reset = record { protocol = []; host = []; port = 0; params = [] }

-- What is before the first `c`, and what is behind it.
abbrev pub split_on : ℕ → Text → Option (Text × Text)
split_on c [] = none
split_on c (x ∷ s) =
    let rest = split_on c s in
    if x == c then some ([], s) else Option.map (λ (a, b). (x ∷ a, b)) rest

-- Whether a text begins with "//", and what is behind it.
abbrev pub after_slashes : Text → Option Text
after_slashes [] = none
after_slashes (a ∷ []) = none
after_slashes (a ∷ b ∷ s) = if a == 47 && b == 47 then some s else none

-- What is before the first "://", and what is behind it.
abbrev pub split_scheme : Text → Option (Text × Text)
split_scheme [] = none
split_scheme (x ∷ s) =
    let later = Option.map (λ (a, b). (x ∷ a, b)) (split_scheme s) in
    let here = Option.map (λ b. ([], b)) (after_slashes s) in
    if x == 58 then (elim here [ none ↦ later | some p ↦ some p ]) else later

-- `std::stoi` throws where no digit stands, and beyond the range of `int`.
abbrev pub starts_digit : Text → Bool
starts_digit [] = false
starts_digit (c ∷ s) = is_digit c

abbrev pub has_number : Text → Bool
has_number [] = false
has_number (c ∷ s) = if c == 45 || c == 43 then starts_digit s else is_digit c

abbrev pub in_int : ℤ → Option ℤ
in_int (pos n) = if ltb n (2 ^ 31) then some (pos n) else none
in_int (negsuc n) = if ltb n (2 ^ 31) then some (negsuc n) else none

unfoldable pub stoi : Text → Option ℤ
stoi s = let t = skip_spaces s in if has_number t then in_int (read_sign t) else none

-- A number in the range of a width, or 0.
abbrev pub in_range : ℕ → ℤ → ℤ
in_range half (pos n) = if ltb n half then pos n else pos 0
in_range half (negsuc n) = if ltb n half then negsuc n else pos 0

-- The conversion of an `int` to `uint16_t`.
abbrev pub to_port : ℤ → ℕ
to_port (pos n) = n % 2 ^ 16
to_port (negsuc n) = 2 ^ 16 - 1 - n % 2 ^ 16

-- The variables of the loop over the parameters.
pub record Reading : Type 0 where
  pub is_key : Bool
  pub key : Text
  pub value : Text
  pub params : Params

unfoldable pub read_byte : Reading → ℕ → Reading
read_byte r c =
    if c == 61
    then record r { is_key = not r.is_key }
    else if c == 38
    then record {
      is_key = not r.is_key;
      key = [];
      value = [];
      params = put_param r.key r.value r.params;
    }
    else if r.is_key
    then record r { key = r.key ++ c ∷ [] }
    else record r { value = r.value ++ c ∷ [] }

unfoldable pub read_bytes : Reading → Text → Reading
read_bytes r [] = r
read_bytes r (c ∷ s) = read_bytes (read_byte r c) s

-- What the loop makes of the text behind the `?`; a last key without `&` is taken too.
unfoldable pub read_params : Text → Params
read_params s =
    let r = read_bytes (record { is_key = true; key = []; value = []; params = [] }) s in
    if is_nil r.key then r.params else put_param r.key r.value r.params

-- The host and the port.
unfoldable pub read_host : Text → Option (Text × ℕ)
read_host s = elim (split_on 58 s) [
  | none ↦ some (s, 0)
  | some (host, p) ↦
      if is_nil p then some (host, 0) else Option.map (λ z. (host, to_port z)) (stoi p)
]

unfoldable pub parse : Text → Option (Bool × NetUrl)
parse channel = elim (split_scheme channel) [
  | none ↦ some (false, reset)
  | some (protocol, rest) ↦
      let (host_info, query) : Text × Text = elim (split_on 63 rest) [
        | none ↦ (rest, [])
        | some p ↦ p
      ] in
      Option.map
        (λ (host, port). (
          true,
          record { protocol = protocol; host = host; port = port; params = read_params query },
        ))
        (read_host host_info)
]

-- `key=value&`, one after another.
unfoldable pub encode_params : Params → Text
encode_params [] = []
encode_params ((k, v) ∷ ps) = k ++ (61 ∷ (v ++ (38 ∷ encode_params ps)))

unfoldable pub encode : NetUrl → Text
encode u =
    let port : Text = if ltb 0 u.port then 58 ∷ decimal u.port else [] in
    let query : Text = elim u.params [ [] ↦ [] | p ∷ ps ↦ 63 ∷ encode_params u.params ] in
    u.protocol ++ (58 ∷ 47 ∷ 47 ∷ (u.host ++ (port ++ query)))

unfoldable pub has : NetUrl → Text → Bool
has u key = elim (find_param key u.params) [ none ↦ false | some v ↦ true ]

unfoldable pub set : NetUrl → Text → Text → NetUrl
set u key val = record u { params = put_param key val u.params }

unfoldable pub get : NetUrl → Text → Text → Text
get u key default_value = elim (find_param key u.params) [ none ↦ default_value | some v ↦ v ]

-- `get<T>`: the value goes through `type_caster<T>`.
unfoldable pub get_cast {ℓ} : {A : Type ℓ} → (Text → A) → NetUrl → Text → A → A
get_cast cast u key default_value = elim (find_param key u.params) [
  | none ↦ default_value
  | some v ↦ cast v
]

abbrev pub all_digits : Text → Bool
all_digits [] = true
all_digits (c ∷ s) = is_digit c && all_digits s

-- A number to the end of the text: what `>>` takes whole.
abbrev pub is_number : Text → Bool
is_number [] = false
is_number (c ∷ s) =
    if c == 45 || c == 43 then (not (is_nil s) && all_digits s) else all_digits (c ∷ s)

-- `type_caster<T>` for a signed number of `2 * half` values: 0 where the stream fails, or where
-- something is left behind the number.
unfoldable pub cast_signed : ℕ → Text → ℤ
cast_signed half s =
    let t = skip_spaces s in if is_number t then in_range half (read_sign t) else pos 0

-- "false", "0" and "no"; the copy in lower case is not used.
unfoldable pub cast_bool : Text → Bool
cast_bool s = not (
    same_text s (102 ∷ 97 ∷ 108 ∷ 115 ∷ 101 ∷ [])
    || (same_text s (48 ∷ []) || same_text s (110 ∷ 111 ∷ [])))

unfoldable pub cast_string : Text → Text
cast_string s = s

-- A line of `dump`: a name, " : ", a value and the end of the line.
abbrev pub dump_line : Text → Text → Text
dump_line name value = name ++ (32 ∷ 58 ∷ 32 ∷ (value ++ (10 ∷ [])))

unfoldable pub dump_params : Params → Text
dump_params [] = []
dump_params ((k, v) ∷ ps) = dump_line k v ++ dump_params ps

-- "protocol", "host" and "port", and then the parameters.
unfoldable pub dump : NetUrl → Text
dump u =
    dump_line (112 ∷ 114 ∷ 111 ∷ 116 ∷ 111 ∷ 99 ∷ 111 ∷ 108 ∷ []) u.protocol
    ++ (dump_line (104 ∷ 111 ∷ 115 ∷ 116 ∷ []) u.host
        ++ (dump_line (112 ∷ 111 ∷ 114 ∷ 116 ∷ []) (decimal u.port) ++ dump_params u.params))
