-- ===== src/Utils/Singleton.antt =====
-- engine/utils/singleton.hpp: `pointer` and `instance` as the threads run them, one access to the
-- static members at a time. An access is taken to be atomic, though `ins_` is a plain pointer. The
-- constructor of `T` is taken not to throw, and of `std::call_once` this is used: the first call runs
-- the function, and the others return when it has ended. An object is the number of its construction.
pub mod Making
mod Tests
use cxxprogram.Prelude.{
  Bool, List, Option, [], false, if◌then◌else◌, length, none, some, suc, true, zero, ℕ, ◌++◌, ◌==◌,
  ◌∷◌, ◌≡◌,
}

-- `once_`.
pub data OnceFlag : Type 0 where
  not_called active called : OnceFlag

-- The static members, with the arguments of the constructions so far.
pub record Static (A : Type 0) : Type 0 where
  pub ins : Option ℕ
  pub once : OnceFlag
  pub objects : List A

-- Where a thread is in its call, with the arguments of `instance`.
pub data Caller (A : Type 0) : Type 0 where
  outside : Caller A
  tests_ins : A → Caller A
  calls_once : A → Caller A
  -- In the function: `new T(args...)`, the assignment, and its end.
  constructs : A → Caller A
  assigns : ℕ → Caller A
  leaves : Caller A
  -- `return ins_`.
  reads : Caller A
  returned : Option ℕ → Caller A

abbrev pub is_null : Option ℕ → Bool
is_null none = true
is_null (some n) = false

-- One access of a thread.
unfoldable pub turn : {A : Type 0} → Static A → Caller A → Static A × Caller A
turn s outside = (s, outside)
turn s (tests_ins a) = (s, if is_null s.ins then calls_once a else reads)
turn s (calls_once a) = elim s.once [
  | not_called ↦ (record s { once = active }, constructs a)
  | active ↦ (s, calls_once a)
  | called ↦ (s, reads)
]
turn s (constructs a) = (record s { objects = s.objects ++ a ∷ [] }, assigns (length s.objects))
turn s (assigns n) = (record s { ins = some n }, leaves)
turn s leaves = (record s { once = called }, reads)
turn s reads = (s, returned s.ins)
turn s (returned o) = (s, returned o)

pub record System (A : Type 0) : Type 0 where
  pub static : Static A
  pub callers : ℕ → Caller A

abbrev pub set_caller : {A : Type 0} → (ℕ → Caller A) → ℕ → Caller A → ℕ → Caller A
set_caller f i c j = if i == j then c else f j

abbrev pub is_free : {A : Type 0} → Caller A → Bool
is_free outside = true
is_free (tests_ins a) = false
is_free (calls_once a) = false
is_free (constructs a) = false
is_free (assigns n) = false
is_free leaves = false
is_free reads = false
is_free (returned o) = true

-- A call begins, when the thread is not in one, or a thread that is goes on.
pub data Step {A : Type 0} (s : System A) : System A → Type 0 where
  calls :
      (i : ℕ) (a : A)
      → is_free (s.callers i) ≡ true
      → Step s (record s { callers = set_caller s.callers i (tests_ins a) })
  goes_on :
      (i : ℕ)
      → Step s (record {
        static = (turn s.static (s.callers i)).0;
        callers = set_caller s.callers i (turn s.static (s.callers i)).1;
      })

pub data Reach {A : Type 0} (s : System A) : System A → Type 0 where
  here : Reach s s
  next : {t u : System A} → Reach s t → Step t u → Reach s u

-- The program's start.
abbrev pub begin : (A : Type 0) → System A
begin A = record {
  static = record { ins = none; once = not_called; objects = [] };
  callers = λ i. outside;
}

-- `~singleton`, on fuel. What it deletes is a `T`, whose own destructor ends in `~singleton` again,
-- while `ins_` is still set.
unfoldable pub destroy : {A : Type 0} → ℕ → Static A → Option (Static A)
destroy zero s = none
destroy (suc fuel) s =
    if is_null s.ins
    then some s
    else elim (destroy fuel s) [ none ↦ none | some s' ↦ some (record s' { ins = none }) ]
