-- ===== src/Net/NetUrl/Params.antt =====
-- The parameters of a `net_url` (engine/net/neturl.h): `set`, `get`, `encode` and `parse`.
use cxxprogram.Prelude.{
  Bool, Bool-cases, Option, [], ap, append-nil, append_assoc, arith, false, if◌then◌else◌, inl, inr,
  none, refl, some, subst, sym, true, ℕ, ◌++◌, ◌==◌, ◌∙◌, ◌∷◌, ◌≡◌,
}
use cxxprogram.Net.NetUrl.{
  Text, Params, NetUrl, Reading, is_nil, same_text, find_param, put_param, read_byte, read_bytes,
  read_params, encode_params, set, get,
}

true-false : true ≡ false → ⊥
true-false h = cc

pub same_text_self : (s : Text) → same_text s s ≡ true
same_text_self [] = refl
same_text_self (c ∷ s) = ground (arith, same_text_self s)

pub same_text_eq : (s t : Text) → same_text s t ≡ true → s ≡ t
same_text_eq [] [] h = refl
same_text_eq [] (y ∷ t) h = cc
same_text_eq (x ∷ s) [] h = cc
same_text_eq (x ∷ s) (y ∷ t) h = ground (arith, same_text_eq s t)

if_twice :
    {A : Type 0} (b : Bool) (x y z : A)
    → (if b then x else z) ≡ (if b then x else (if b then y else z))
if_twice true x y z = refl
if_twice false x y z = refl

pub if_swap :
    {A : Type 0} (a b : Bool) (x y z : A)
    → (a ≡ true → b ≡ true → ⊥)
    → (if a then x else (if b then y else z)) ≡ (if b then y else (if a then x else z))
if_swap true true x y z h = absurd (h refl refl)
if_swap true false x y z h = refl
if_swap false b x y z h = refl

differ :
    (k key other : Text)
    → same_text k key ≡ false
    → same_text k other ≡ true
    → same_text key other ≡ true
    → ⊥
differ k key other e a b =
    let same : k ≡ key = same_text_eq k other a ∙ sym (same_text_eq key other b) in
    let yes : same_text k key ≡ true = subst (λ t. same_text k t ≡ true) same (same_text_self k) in
    true-false (sym yes ∙ e)

pub find_param-put_param :
    (key other val : Text) (ps : Params)
    → find_param other (put_param key val ps)
      ≡ (if same_text key other then some val else find_param other ps)
unfolding find_param put_param
find_param-put_param key other val [] = refl
find_param-put_param key other val ((k, v) ∷ ps) = elim (Bool-cases (same_text k key)) [
  | inl e ↦
      ap
        (λ (b : Bool).
          find_param other (if b then (k, val) ∷ ps else (k, v) ∷ put_param key val ps))
        e
      ∙ if_twice (same_text k other) (some val) (some v) (find_param other ps)
      ∙ ap
          (λ t.
            if same_text t other
            then some val
            else (if same_text k other then some v else find_param other ps))
          (same_text_eq k key e)
  | inr e ↦
      ap
        (λ (b : Bool).
          find_param other (if b then (k, val) ∷ ps else (k, v) ∷ put_param key val ps))
        e
      ∙ ap (λ o. if same_text k other then some v else o) (find_param-put_param key other val ps)
      ∙ if_swap (same_text k other) (same_text key other) (some v) (some val) (find_param other ps)
          (λ a b. differ k key other e a b)
]

abbrev or_default : Text → Option Text → Text
or_default default_value none = default_value
or_default default_value (some v) = v

through :
    {A B : Type 0} (b : Bool) (f : A → B) (x y : A)
    → f (if b then x else y) ≡ (if b then f x else f y)
through true f x y = refl
through false f x y = refl

-- After `set` the value is got under its key, and every other key has the value that it had.
pub get-set :
    (u : NetUrl) (key other val default_value : Text)
    → get (set u key val) other default_value
      ≡ (if same_text key other then val else get u other default_value)
unfolding get set
get-set u key other val default_value =
    ap (or_default default_value) (find_param-put_param key other val u.params)
    ∙ through (same_text key other) (or_default default_value) (some val)
        (find_param other u.params)

-- Text without `=` and `&`.
abbrev pub IsPlain : Text → Type 0
IsPlain [] = Unit {0}
IsPlain (c ∷ s) = ((c == 61) ≡ false) × ((c == 38) ≡ false) × IsPlain s

-- Parameters of plain text, whose keys are new behind `before`, in turn.
abbrev pub IsFresh : Params → Params → Type 0
IsFresh before [] = Unit {0}
IsFresh before ((k, v) ∷ ps) =
    IsPlain k × IsPlain v × (find_param k before ≡ none) × IsFresh (before ++ (k, v) ∷ []) ps

abbrev in_key : Text → Params → Reading
in_key key ps = record { is_key = true; key = key; value = []; params = ps }

abbrev in_value : Text → Text → Params → Reading
in_value key value ps = record { is_key = false; key = key; value = value; params = ps }

key_byte :
    (key : Text) (c : ℕ) (ps : Params)
    → (c == 61) ≡ false
    → (c == 38) ≡ false
    → read_byte (in_key key ps) c ≡ in_key (key ++ c ∷ []) ps
unfolding read_byte
key_byte key c ps e a =
    ap
      (λ (b : Bool).
        if b
        then in_value key [] ps
        else (if c == 38
            then record { is_key = false; key = []; value = []; params = put_param key [] ps }
            else in_key (key ++ c ∷ []) ps))
      e
    ∙ ap
        (λ (b : Bool).
          if b
          then record { is_key = false; key = []; value = []; params = put_param key [] ps }
          else in_key (key ++ c ∷ []) ps)
        a

value_byte :
    (key value : Text) (c : ℕ) (ps : Params)
    → (c == 61) ≡ false
    → (c == 38) ≡ false
    → read_byte (in_value key value ps) c ≡ in_value key (value ++ c ∷ []) ps
unfolding read_byte
value_byte key value c ps e a =
    ap
      (λ (b : Bool).
        if b
        then record { is_key = true; key = key; value = value; params = ps }
        else (if c == 38
            then in_key [] (put_param key value ps)
            else in_value key (value ++ c ∷ []) ps))
      e
    ∙ ap
        (λ (b : Bool).
          if b then in_key [] (put_param key value ps) else in_value key (value ++ c ∷ []) ps)
        a

some-none : (w : Text) → some w ≡ none → ⊥
some-none w h = cc

read_key :
    (key s t : Text) (ps : Params)
    → IsPlain s
    → read_bytes (in_key key ps) (s ++ t) ≡ read_bytes (in_key (key ++ s) ps) t
unfolding read_bytes
read_key key [] t ps h = ap (λ k. read_bytes (in_key k ps) t) (sym (append-nil key))
read_key key (c ∷ s) t ps (e, a, h) =
    ap (λ r. read_bytes r (s ++ t)) (key_byte key c ps e a)
    ∙ read_key (key ++ c ∷ []) s t ps h
    ∙ ap (λ k. read_bytes (in_key k ps) t) (append_assoc key (c ∷ []) s)

read_value :
    (key value s t : Text) (ps : Params)
    → IsPlain s
    → read_bytes (in_value key value ps) (s ++ t) ≡ read_bytes (in_value key (value ++ s) ps) t
unfolding read_bytes
read_value key value [] t ps h = ap (λ v. read_bytes (in_value key v ps) t) (sym (append-nil value))
read_value key value (c ∷ s) t ps (e, a, h) =
    ap (λ r. read_bytes r (s ++ t)) (value_byte key value c ps e a)
    ∙ read_value key (value ++ c ∷ []) s t ps h
    ∙ ap (λ v. read_bytes (in_value key v ps) t) (append_assoc value (c ∷ []) s)

put_param_new :
    (k v : Text) (ps : Params) → find_param k ps ≡ none → put_param k v ps ≡ ps ++ (k, v) ∷ []
unfolding find_param put_param
put_param_new k v [] h = refl
put_param_new k v ((j, w) ∷ ps) h = elim (Bool-cases (same_text j k)) [
  | inl e ↦
      absurd (some-none w (sym (ap (λ (b : Bool). if b then some w else find_param k ps) e) ∙ h))
  | inr e ↦
      ap (λ (b : Bool). if b then (j, v) ∷ ps else (j, w) ∷ put_param k v ps) e
      ∙ ap (λ l. (j, w) ∷ l)
          (put_param_new k v ps
            (sym (ap (λ (b : Bool). if b then some w else find_param k ps) e) ∙ h))
]

read_encoded :
    (before ps : Params)
    → IsFresh before ps
    → read_bytes (in_key [] before) (encode_params ps) ≡ in_key [] (before ++ ps)
unfolding read_bytes encode_params read_byte
read_encoded before [] h = ap (in_key []) (sym (append-nil before))
read_encoded before ((k, v) ∷ ps) (pk, pv, n, h) =
    read_key [] k (61 ∷ (v ++ (38 ∷ encode_params ps))) before pk
    ∙ read_value k [] v (38 ∷ encode_params ps) before pv
    ∙ ap (λ qs. read_bytes (in_key [] qs) (encode_params ps)) (put_param_new k v before n)
    ∙ read_encoded (before ++ (k, v) ∷ []) ps h
    ∙ ap (in_key []) (append_assoc before ((k, v) ∷ []) ps)

-- Parameters with different keys, whose keys and values have no `=` and no `&`, are read back from
-- the text that `encode` writes behind the `?`.
pub read_params-encode_params : (ps : Params) → IsFresh [] ps → read_params (encode_params ps) ≡ ps
unfolding read_params
read_params-encode_params ps h =
    ap (λ (r : Reading). if is_nil r.key then r.params else put_param r.key r.value r.params)
      (read_encoded [] ps h)
