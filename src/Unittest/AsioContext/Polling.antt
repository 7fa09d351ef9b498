-- ===== src/Unittest/AsioContext/Polling.antt =====
-- Every handler of unittest/t_asio/t_asio_context.cpp is run, after so many steps.
use cxxprogram.Prelude.{
  List, [], ap, append_assoc, arith, inl, inr, refl, suc, sym, zero, ℕ, ◌*◌, ◌++◌, ◌+◌, ◌<◌, ◌^◌,
  ◌∙◌, ◌∷◌, ◌≡◌, ◌⊎◌,
}
use cxxprogram.Unittest.AsioContext.{
  Child, Program, posts_each, begin, Step, begins, posts, polls, Steps, here, next,
}

abbrev pub sum : List ℕ → ℕ
sum [] = 0
sum (n ∷ ns) = n + sum ns

-- The handlers that the children have still to post, and the steps that this and their running takes.
abbrev owed : List Child → ℕ
owed [] = 0
owed (c ∷ cs) = c.left + posts_each * c.waiting + owed cs

abbrev work : List Child → ℕ
work [] = 0
work (c ∷ cs) = 2 * c.left + (2 * posts_each + 1) * c.waiting + work cs

owed-append : (xs ys : List Child) → owed (xs ++ ys) ≡ owed xs + owed ys
owed-append [] ys = omega arith
owed-append (c ∷ xs) ys = omega (arith, owed-append xs ys)

work-append : (xs ys : List Child) → work (xs ++ ys) ≡ work xs + work ys
work-append [] ys = omega arith
work-append (c ∷ xs) ys = omega (arith, work-append xs ys)

-- A step is one step less to go, and loses no handler.
abbrev Advances : Program → Program → Type 0
Advances s t =
    (work s.children + s.main ≡ work t.children + t.main + 1)
    × (owed s.children + s.main + s.num ≡ owed t.children + t.main + t.num)

child_lem :
    (s t : Program) (xs : List Child) (c d : Child) (ys : List Child)
    → s.children ≡ xs ++ c ∷ ys
    → t.children ≡ xs ++ d ∷ ys
    → (work s.children + work (d ∷ []) ≡ work t.children + work (c ∷ []))
      × (owed s.children + owed (d ∷ []) ≡ owed t.children + owed (c ∷ []))
child_lem s t xs c d ys e f = (
  omega (arith, ap work e, ap work f, work-append xs (c ∷ ys), work-append xs (d ∷ ys)),
  omega (arith, ap owed e, ap owed f, owed-append xs (c ∷ ys), owed-append xs (d ∷ ys)),
)

Step-Advances : {s t : Program} → Step s t → Advances s t
Step-Advances {s = s} (begins xs n ys e) =
    let (w, o) =
      child_lem s (record s { children = xs ++ record { waiting = n; left = posts_each } ∷ ys }) xs
        (record { waiting = suc n; left = 0 }) (record { waiting = n; left = posts_each }) ys e
        refl in
    (omega (arith, w), omega (arith, o))
Step-Advances {s = s} (posts xs n k ys e) =
    let (w, o) =
      child_lem s
        (record s { children = xs ++ record { waiting = n; left = k } ∷ ys; main = s.main + 1 }) xs
        (record { waiting = n; left = suc k }) (record { waiting = n; left = k }) ys e refl in
    (omega (arith, w), omega (arith, o))
Step-Advances (polls n e b) = (omega (arith, e), omega (arith, e))

Steps-Advances :
    {s : Program} {n : ℕ} {t : Program}
    → Steps s n t
    → (work s.children + s.main ≡ work t.children + t.main + n)
      × (owed s.children + s.main + s.num ≡ owed t.children + t.main + t.num)
Steps-Advances here = (omega arith, refl)
Steps-Advances (next r st) =
    let (w, o) = Steps-Advances r in let (v, p) = Step-Advances st in (omega (arith, w, v), o ∙ p)

-- A child that has something to do can do it.
one_child_step :
    (xs ys : List Child) (n k : ℕ) (s : Program)
    → s.children ≡ xs ++ record { waiting = n; left = k } ∷ ys
    → ((n ≡ 0) × (k ≡ 0)) ⊎ ((t : Program) × Step s t)
one_child_step xs ys zero zero s e = inl (refl, refl)
one_child_step xs ys (suc n) zero s e = inr (_, begins xs n ys e)
one_child_step xs ys n (suc k) s e = inr (_, posts xs n k ys e)

child_step :
    (xs cs : List Child) (s : Program)
    → s.children ≡ xs ++ cs
    → (work cs ≡ 0) ⊎ ((t : Program) × Step s t)
child_step xs [] s e = inl refl
child_step xs (c ∷ cs) s e = elim (one_child_step xs cs c.waiting c.left s e) [
  | inr t ↦ inr t
  | inl (n, k) ↦ elim (child_step (xs ++ c ∷ []) cs s (e ∙ sym (append_assoc xs (c ∷ []) cs))) [
    | inr t ↦ inr t
    | inl w ↦ inl (omega (arith, n, k, w))
  ]
]

main_step :
    (n : ℕ) (s : Program)
    → s.main ≡ n
    → s.main + s.num < 2 ^ 31
    → (n ≡ 0) ⊎ ((t : Program) × Step s t)
main_step zero s e b = inl refl
main_step (suc n) s e b = inr (_, polls n e (omega (arith, e, b)))

progress :
    (s : Program)
    → s.main + s.num < 2 ^ 31
    → ((work s.children ≡ 0) × (s.main ≡ 0)) ⊎ ((t : Program) × Step s t)
progress s b = elim (child_step [] s.children s refl) [
  | inr t ↦ inr t
  | inl w ↦ elim (main_step s.main s refl b) [ inr t ↦ inr t | inl m ↦ inl (w, m) ]
]

owed_none : (cs : List Child) → work cs ≡ 0 → owed cs ≡ 0
owed_none [] e = refl
owed_none (c ∷ cs) e = omega (arith, owed_none cs (omega (arith, e)), e)

begun :
    (tasks : List ℕ)
    → (work (begin tasks).children ≡ (2 * posts_each + 1) * sum tasks)
      × (owed (begin tasks).children ≡ posts_each * sum tasks)
unfolding begin
begun [] = (refl, refl)
begun (n ∷ tasks) = let (w, o) = begun tasks in (omega (arith, w), omega (arith, o))

-- However the threads take turns, with any numbers of handlers posted to any number of children, so
-- few that 10240 for each is an `int`: as long as not every handler has run, some thread has a step,
-- `num` not overflowing, and after 20481 steps for each handler that was posted to a child none is
-- left and `num` counts 10240 for each.
pub Steps-num :
    {n : ℕ} {t : Program} (tasks : List ℕ)
    → 10240 * sum tasks < 2 ^ 31
    → Steps (begin tasks) n t
    → ((n ≡ 20481 * sum tasks) × (t.num ≡ 10240 * sum tasks))
      ⊎ ((n < 20481 * sum tasks) × ((u : Program) × Step t u))
unfolding begin
Steps-num {n} {t} tasks b r =
    let (w, o) = begun tasks in
    let (v, p) = Steps-Advances r in
    elim (progress t (omega (arith, o, p, b))) [
      | inl (none_left, m) ↦ inl (
        omega (arith, w, v, none_left, m),
        omega (arith, o, p, owed_none t.children none_left, m),
      )
      | inr (u, st) ↦ let (x, _) = Step-Advances st in inr (omega (arith, w, v, x), (u, st))
    ]
