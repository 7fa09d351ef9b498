-- ===== src/Net/NetUrl/Orders.antt =====
-- The parameters of a `net_url` (engine/net/neturl.h) as a map: the order in which they are kept does
-- not matter.
use mathlib.Core.List.{Permᴰ}
use cxxprogram.Prelude.{
  Bool, Bool-cases, [], ap, append_assoc, false, if◌then◌else◌, inl, inr, none, refl, some, subst,
  sym, true, ◌++◌, ◌∙◌, ◌∷◌, ◌≡◌,
}
use cxxprogram.Net.NetUrl.{Text, Params, same_text, find_param}
use cxxprogram.Net.NetUrl.Params.{IsPlain, IsFresh, same_text_self, same_text_eq, if_swap}

abbrev pub AllPlain : Params → Type 0
AllPlain [] = Unit {0}
AllPlain ((k, v) ∷ ps) = IsPlain k × IsPlain v × AllPlain ps

-- No key stands twice.
abbrev pub IsDistinct : Params → Type 0
IsDistinct [] = Unit {0}
IsDistinct ((k, v) ∷ ps) = (find_param k ps ≡ none) × IsDistinct ps

same_text_sym : (s t : Text) → same_text s t ≡ false → same_text t s ≡ false
same_text_sym s t h = elim (Bool-cases (same_text t s)) [
  | inr e ↦ e
  | inl e ↦
      cc (sym h ∙ subst (λ u. same_text s u ≡ true) (sym (same_text_eq t s e)) (same_text_self s))
]

-- A key that is not found is not the first, nor behind it.
not_found :
    (key k v : Text) (ps : Params)
    → find_param key ((k, v) ∷ ps) ≡ none
    → (same_text k key ≡ false) × (find_param key ps ≡ none)
unfolding find_param
not_found key k v ps h = elim (Bool-cases (same_text k key)) [
  | inl e ↦ cc (sym h ∙ ap (λ (b : Bool). if b then some v else find_param key ps) e)
  | inr e ↦ (e, sym (ap (λ (b : Bool). if b then some v else find_param key ps) e) ∙ h)
]

found_later :
    (key k v : Text) (ps : Params)
    → same_text k key ≡ false
    → find_param key ((k, v) ∷ ps) ≡ find_param key ps
unfolding find_param
found_later key k v ps e = ap (λ (b : Bool). if b then some v else find_param key ps) e

found_either :
    (key k v : Text) (ps qs : Params)
    → find_param key ps ≡ find_param key qs
    → find_param key ((k, v) ∷ ps) ≡ find_param key ((k, v) ∷ qs)
unfolding find_param
found_either key k v ps qs e = ap (λ o. if same_text k key then some v else o) e

found_swapped :
    (key k v j w : Text) (ps : Params)
    → same_text k j ≡ false
    → find_param key ((k, v) ∷ (j, w) ∷ ps) ≡ find_param key ((j, w) ∷ (k, v) ∷ ps)
unfolding find_param
found_swapped key k v j w ps e =
    if_swap (same_text k key) (same_text j key) (some v) (some w) (find_param key ps) (λ a b.
      let same : k ≡ j = same_text_eq k key a ∙ sym (same_text_eq j key b) in
      let yes : same_text k j ≡ true = subst (λ t. same_text k t ≡ true) same (same_text_self k) in
      cc (sym yes ∙ e))

-- Another order of the same parameters.
pub record Reordered (ps qs : Params) : Type 0 where
  pub plain : AllPlain qs
  pub distinct : IsDistinct qs
  pub same : (key : Text) → find_param key ps ≡ find_param key qs

pub Permᴰ-Reordered : {ps qs : Params} → Permᴰ ps qs → AllPlain ps → IsDistinct ps → Reordered ps qs
Permᴰ-Reordered Permᴰ.nil h d = record { plain = tt; distinct = tt; same = λ key. refl }
Permᴰ-Reordered (Permᴰ.cons {a = a} {b = b} {l₁ = l} {l₂ = m} e p) (hk, hv, h) (n, d) =
    let r = Permᴰ-Reordered p h d in
    subst (λ c. Reordered (a ∷ l) (c ∷ m)) e
      (record {
        plain = (hk, hv, r.plain);
        distinct = (sym (r.same a.0) ∙ n, r.distinct);
        same = λ key. found_either key a.0 a.1 l m (r.same key);
      })
Permᴰ-Reordered (Permᴰ.swap {a = a} {b = b} {b' = b'} {l = l} e f) (hak, hav, (hbk, hbv, h))
      (na, (nb, d)) =
    let (apart, na') = not_found a.0 b.0 b.1 l na in
    let apart' = same_text_sym b.0 a.0 apart in
    subst (λ c. Reordered (a ∷ b ∷ l) (c ∷ b' ∷ l)) f
      (subst (λ c. Reordered (a ∷ b ∷ l) (b ∷ c ∷ l)) e
        (record {
          plain = (hbk, hbv, (hak, hav, h));
          distinct = (found_later b.0 a.0 a.1 l apart' ∙ nb, (na', d));
          same = λ key. found_swapped key a.0 a.1 b.0 b.1 l apart';
        }))
Permᴰ-Reordered (Permᴰ.trans p q) h d =
    let r = Permᴰ-Reordered p h d in
    let s = Permᴰ-Reordered q r.plain r.distinct in
    record { plain = s.plain; distinct = s.distinct; same = λ key. r.same key ∙ s.same key }

apart_from :
    (before : Params) (j k v : Text) (ps : Params)
    → find_param j (before ++ (k, v) ∷ ps) ≡ none
    → same_text k j ≡ false
apart_from [] j k v ps n = (not_found j k v ps n).0
apart_from ((i, w) ∷ before) j k v ps n =
    apart_from before j k v ps (not_found j i w (before ++ (k, v) ∷ ps) n).1

-- A key that stands later does not stand before.
distinct_before :
    (before : Params) (k v : Text) (ps : Params)
    → IsDistinct (before ++ (k, v) ∷ ps)
    → find_param k before ≡ none
unfolding find_param
distinct_before [] k v ps d = refl
distinct_before ((j, w) ∷ before) k v ps (n, d) =
    found_later k j w before (same_text_sym k j (apart_from before j k v ps n))
    ∙ distinct_before before k v ps d

pub IsDistinct-IsFresh :
    (before ps : Params) → AllPlain ps → IsDistinct (before ++ ps) → IsFresh before ps
IsDistinct-IsFresh before [] h d = tt
IsDistinct-IsFresh before ((k, v) ∷ ps) (hk, hv, h) d = (
  hk,
  hv,
  distinct_before before k v ps d,
  IsDistinct-IsFresh (before ++ (k, v) ∷ []) ps h
      (subst IsDistinct (sym (append_assoc before ((k, v) ∷ []) ps)) d),
)
