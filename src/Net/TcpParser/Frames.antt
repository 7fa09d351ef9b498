-- ===== src/Net/TcpParser/Frames.antt =====
-- What a byte stream holds, said without the parser: packets, each as long as its own first word
-- says, and then bytes that do not make up a packet yet.
use cxxprogram.Prelude.{
  Bool, List, [], ap, arith, drop, false, inl, inr, length, length-append, ltb, refl, subst, suc,
  sym, take, take-append_eq, take-append_le, true, ℕ, ◌++◌, ◌-◌, ◌<◌, ◌∙◌, ◌∷◌, ◌≡◌, ◌≤◌, ◌⊎◌,
}
use cxxprogram.Net.TcpParser.{word}

-- The length that the first four bytes announce.
abbrev pub announced : List ℕ → ℕ
announced bytes = word (take 4 bytes)

pub record IsFrame (f : List ℕ) : Type 0 where
  pub headed : 4 ≤ length f
  pub announces : announced f ≡ length f
  pub fits : length f < 65536

-- Too short for a length word, or shorter than its length word says.
abbrev pub IsPartial : List ℕ → Type 0
IsPartial r = (length r < 4) ⊎ ((4 ≤ length r) × (length r < announced r) × (announced r < 65536))

pub data Framed : List ℕ → List (List ℕ) → List ℕ → Type 0 where
  partial : {r : List ℕ} → IsPartial r → Framed r [] r
  packet :
      {f bytes r : List ℕ} {fs : List (List ℕ)}
      → IsFrame f
      → Framed bytes fs r
      → Framed (f ++ bytes) (f ∷ fs) r

IsPartial-short : (f p q : List ℕ) → IsFrame f → f ≡ p ++ q → length p < length f → IsPartial p
IsPartial-short f p q k e h = go (ltb (length p) 4) refl
  where
    go : (b : Bool) → ltb (length p) 4 ≡ b → IsPartial p
    go true e = inl (ground arith)
    go false i =
        let same : announced p ≡ announced f =
          ap word (sym (ap (take 4) e ∙ take-append_le 4 p q (ground arith))) in
        inr (ground arith, omega (arith, k.announces), omega (arith, k.announces, k.fits))

-- A beginning of unfinished bytes is unfinished.
IsPartial-prefix : (p q : List ℕ) → IsPartial (p ++ q) → IsPartial p
IsPartial-prefix p q w = go (ltb (length p) 4) refl w
  where
    go : (b : Bool) → ltb (length p) 4 ≡ b → IsPartial (p ++ q) → IsPartial p
    go true e w = inl (ground arith)
    go false i (inl h) = absurd (ground (arith, length-append p q))
    go false i (inr (h, m, u)) =
        let same : announced (p ++ q) ≡ announced p =
          ap word (take-append_le 4 p q (ground arith)) in
        inr (ground arith, omega (arith, length-append p q), omega arith)

-- The packet that a cut falls into, or the whole packets before it.
split_cut :
    (f bytes p q : List ℕ)
    → f ++ bytes ≡ p ++ q
    → ((length p < length f) × (f ≡ p ++ take (length f - length p) q))
      ⊎ ((p ≡ f ++ drop (length f) p) × (bytes ≡ drop (length f) p ++ q))
split_cut [] bytes p q e = inr (refl, e)
split_cut (x ∷ f) bytes [] q e = inl (
  omega arith,
  sym (take-append_eq (suc (length f) - 0) (x ∷ f) bytes (omega arith))
      ∙ ap (take (suc (length f) - 0)) e,
)
split_cut (x ∷ f) bytes (y ∷ p) q e =
    let head : x ≡ y = ground arith in
    let tail : f ++ bytes ≡ p ++ q = ground arith in
    elim (split_cut f bytes p q tail) [
      | inl (h, k) ↦ inl (
        omega arith,
        ap (◌∷◌ x) k
            ∙ ap (λ z. z ∷ p ++ take (length f - length p) q) head
            ∙ ap (λ n. y ∷ p ++ take n q)
                (let d : length f - length p ≡ suc (length f) - suc (length p) = omega arith in d),
      )
      | inr (h, k) ↦ inr (cc (h, head), k)
    ]

-- A stream cut in two: the packets of the first part, and those of what it leaves before the second.
pub Framed-split :
    {bytes r : List ℕ} {fs : List (List ℕ)} (p q : List ℕ)
    → bytes ≡ p ++ q
    → Framed bytes fs r
    → (fs₁ : List (List ℕ)) × (fs₂ : List (List ℕ)) × (r₁ : List ℕ) × Framed p fs₁ r₁
      × Framed (r₁ ++ q) fs₂ r
      × (fs ≡ fs₁ ++ fs₂)
Framed-split p q e (partial {r = r} w) = (
  [],
  [],
  p,
  partial (IsPartial-prefix p q (subst IsPartial e w)),
  subst (λ b. Framed b [] r) e (partial w),
  refl,
)
Framed-split {r = r} {fs = fs} p q e (packet {f = f} {bytes = bytes} {fs = gs} k fr) =
    elim (split_cut f bytes p q e) [
      | inl (h, c) ↦ (
        [],
        f ∷ gs,
        p,
        partial (IsPartial-short f p _ k c h),
        subst (λ b. Framed b (f ∷ gs) r) e (packet k fr),
        refl,
      )
      | inr (h, c) ↦
          let (fs₁, fs₂, r₁, a, b, s) = Framed-split (drop (length f) p) q c fr in
          (
            f ∷ fs₁,
            fs₂,
            r₁,
            subst (λ z. Framed z (f ∷ fs₁) r₁) (sym h) (packet k a),
            b,
            ap (◌∷◌ f) s,
          )
    ]

-- Unfinished bytes hold no packet.
pub Framed-partial :
    {bytes r : List ℕ} {fs : List (List ℕ)}
    → Framed bytes fs r
    → IsPartial bytes
    → (fs ≡ []) × (r ≡ bytes)
Framed-partial (partial w) h = (refl, refl)
Framed-partial (packet {f = f} {bytes = bytes} k fr) (inl h) =
    absurd (omega (arith, length-append f bytes, k.headed))
Framed-partial (packet {f = f} {bytes = bytes} k fr) (inr (h, m, u)) =
    let same : announced (f ++ bytes) ≡ announced f = ap word (take-append_le 4 f bytes k.headed) in
    absurd (omega (arith, length-append f bytes, k.announces))

-- What is left over is no longer than the stream.
pub Framed-length :
    {bytes r : List ℕ} {fs : List (List ℕ)} → Framed bytes fs r → length r ≤ length bytes
Framed-length (partial w) = omega arith
Framed-length (packet {f = f} {bytes = bytes} k fr) =
    omega (arith, length-append f bytes, Framed-length fr)
