-- ===== src/Net/Context/Stopping.antt =====
-- `stop` of engine/net/context.cpp comes back, and the thread has ended.
use cxxprogram.Prelude.{
  Bool, Bool-cases, Option, ap, arith, false, if◌then◌else◌, inl, inr, none, refl, some, subst, suc,
  sym, true, ℕ, ◌+◌, ◌<◌, ◌∙◌, ◌≡◌, ◌≤◌, ◌⊎◌,
}
use cxxprogram.Net.Context.{
  Loop, starting, guarded, running, ended, Caller, tests_joinable, stops, joins, back, Context,
  loop_turn, is_ended, stop_turn, Turns, calls_stop, loops, goes_on,
}

-- A context whose thread was joined has no thread that runs.
abbrev pub IsContext : Context → Type 0
IsContext c = (c.joinable ≡ true) ⊎ ((c.joinable ≡ false) × (c.loop ≡ ended))

-- What `stop` relies on where it is.
abbrev At : Context → Caller → Type 0
At c tests_joinable = IsContext c
At c stops = c.joinable ≡ true
At c joins = (c.joinable ≡ true) × (c.stopped ≡ true)
At c back = (c.joinable ≡ false) × (c.loop ≡ ended)

abbrev loop_rest : Loop → ℕ
loop_rest starting = 3
loop_rest guarded = 2
loop_rest running = 1
loop_rest ended = 0

abbrev stop_rest : Caller → ℕ
stop_rest tests_joinable = 3
stop_rest stops = 2
stop_rest joins = 1
stop_rest back = 0

abbrev rest : Context → Caller → ℕ
rest c w = loop_rest c.loop + stop_rest w

-- A thread that goes on does not touch the rest, and has not ended.
record Looped (c d : Context) : Type 0 where
  joinable : d.joinable ≡ c.joinable
  stopped : d.stopped ≡ c.stopped
  going : c.loop ≡ ended → ⊥
  less : loop_rest d.loop < loop_rest c.loop

some_inj : {A : Type 0} {a b : A} → some a ≡ some b → a ≡ b
some_inj {a = a} e = ap (λ o. elim o [ none ↦ a | some x ↦ x ]) e

loop_turn-Looped :
    (c : Context) (l : Loop) {d : Context} → c.loop ≡ l → loop_turn c l ≡ some d → Looped c d
unfolding loop_turn
loop_turn-Looped c starting e t = subst (Looped c) (some_inj t) (record {
  joinable = refl;
  stopped = refl;
  going = λ f. cc;
  less = omega (arith, ap loop_rest e);
})
loop_turn-Looped c guarded e t = subst (Looped c) (some_inj t) (record {
  joinable = refl;
  stopped = refl;
  going = λ f. cc;
  less = omega (arith, ap loop_rest e);
})
loop_turn-Looped c running e t = elim (Bool-cases c.stopped) [
  | inl s ↦
      subst (Looped c)
        (some_inj
          (sym (ap (λ (b : Bool). if b then some (record c { loop = ended }) else none) s) ∙ t))
        (record {
          joinable = refl;
          stopped = refl;
          going = λ f. cc;
          less = omega (arith, ap loop_rest e);
        })
  | inr s ↦ cc (sym (ap (λ (b : Bool). if b then some (record c { loop = ended }) else none) s) ∙ t)
]
loop_turn-Looped c ended e t = cc

Looped-At : (c d : Context) (w : Caller) → Looped c d → At c w → At d w
Looped-At c d tests_joinable v (inl j) = inl (v.joinable ∙ j)
Looped-At c d tests_joinable v (inr (j, l)) = absurd (v.going l)
Looped-At c d stops v j = v.joinable ∙ j
Looped-At c d joins v (j, s) = (v.joinable ∙ j, v.stopped ∙ s)
Looped-At c d back v (j, l) = absurd (v.going l)

-- A step of `stop`.
abbrev Went : Context → Caller → Context × Caller → Type 0
Went c w (d, u) = At d u × (rest d u < rest c w)

abbrev join_turn : Context → Loop → Option (Context × Caller)
join_turn c l = if is_ended l then some (record c { joinable = false }, back) else none

joined :
    (c : Context) (l : Loop) {r : Context × Caller}
    → c.loop ≡ l
    → join_turn c l ≡ some r
    → Went c joins r
joined c starting e t = cc
joined c guarded e t = cc
joined c running e t = cc
joined c ended e t = subst (Went c joins) (some_inj t) ((refl, e), omega arith)

stop_turn-Went :
    (c : Context) (w : Caller) {r : Context × Caller} → At c w → stop_turn c w ≡ some r → Went c w r
unfolding stop_turn
stop_turn-Went c tests_joinable (inl j) t =
    subst (Went c tests_joinable)
      (some_inj (sym (ap (λ (b : Bool). some (c, if b then stops else back)) j) ∙ t))
      (j, omega arith)
stop_turn-Went c tests_joinable (inr (j, l)) t =
    subst (Went c tests_joinable)
      (some_inj (sym (ap (λ (b : Bool). some (c, if b then stops else back)) j) ∙ t))
      ((j, l), omega arith)
stop_turn-Went c stops j t = subst (Went c stops) (some_inj t) ((j, refl), omega arith)
stop_turn-Went c joins (j, s) t = joined c c.loop refl t
stop_turn-Went c back v t = cc

Turns-At :
    {c d : Context} {w : Caller} {n : ℕ}
    → IsContext c
    → Turns c n d w
    → At d w × (n + rest d w ≤ rest c tests_joinable)
Turns-At v calls_stop = (v, omega arith)
Turns-At v (loops {d = d} {e = e} {w = w} turns t) =
    let (a, l) = Turns-At v turns in
    let looped = loop_turn-Looped d d.loop refl t in
    (Looped-At d e w looped a, omega (arith, l, looped.less))
Turns-At v (goes_on {d = d} {w = w} turns t) =
    let (a, l) = Turns-At v turns in let (b, k) = stop_turn-Went d w a t in (b, omega (arith, l, k))

loop_rest_le : (l : Loop) → loop_rest l ≤ 3
loop_rest_le starting = omega arith
loop_rest_le guarded = omega arith
loop_rest_le running = omega arith
loop_rest_le ended = omega arith

-- A call of `stop` on a context whose thread runs or was joined: the two threads take at most six
-- steps, in whatever order, and there is a next one as long as `stop` is not back; when it is, the
-- thread has ended and was joined.
pub Turns-stop :
    {c d : Context} {w : Caller} {n : ℕ}
    → IsContext c
    → Turns c n d w
    → (n ≤ 6)
      × (((w ≡ back) × (d.joinable ≡ false) × (d.loop ≡ ended))
          ⊎ ((e : Context) × (u : Caller) × Turns c (suc n) e u))
unfolding loop_turn stop_turn
Turns-stop {c} {d} {w} {n} v turns =
    let (a, l) = Turns-At v turns in (omega (arith, l, loop_rest_le c.loop), go w turns a)
  where
    waits :
        (l : Loop)
        → d.loop ≡ l
        → d.stopped ≡ true
        → Turns c n d joins
        → (e : Context) × (u : Caller) × Turns c (suc n) e u
    waits starting e s turns = (_, _, loops turns (ap (loop_turn d) e))
    waits guarded e s turns = (_, _, loops turns (ap (loop_turn d) e))
    waits running e s turns = (
      _,
      _,
      loops turns (
          ap (loop_turn d) e
          ∙ ap (λ (b : Bool). if b then some (record d { loop = ended }) else none) s),
    )
    waits ended e s turns = (_, _, goes_on turns (ap (join_turn d) e))

    go :
        (w : Caller)
        → Turns c n d w
        → At d w
        → ((w ≡ back) × (d.joinable ≡ false) × (d.loop ≡ ended))
          ⊎ ((e : Context) × (u : Caller) × Turns c (suc n) e u)
    go tests_joinable turns a = inr (_, _, goes_on turns refl)
    go stops turns a = inr (_, _, goes_on turns refl)
    go joins turns a = inr (waits d.loop refl a.1 turns)
    go back turns a = inl (refl, a.0, a.1)
