-- ===== src/Unittest/AsioContext.antt =====
-- unittest/t_asio/t_asio_context.cpp: handlers that are posted to child contexts, each with one thread,
-- post handlers to the main context, which the main thread polls. Of asio this is used: a handler that
-- is posted runs once, and the handlers of a context with one thread run one at a time. The slices of
-- time only pause the main thread between two polls.
pub mod Polling
mod Tests
use cxxprogram.Prelude.{List, [], map, suc, ℕ, ◌++◌, ◌+◌, ◌<◌, ◌^◌, ◌∷◌, ◌≡◌}

-- How many handlers each of the posted handlers posts.
abbrev pub posts_each : ℕ
posts_each = 10240

-- A child context: the handlers that wait or that the main thread has still to post, which only makes
-- more runs possible; and how many posts the one that runs has left.
pub record Child : Type 0 where
  pub waiting : ℕ
  pub left : ℕ

pub record Program : Type 0 where
  pub children : List Child
  -- The handlers that wait in `main_context_`.
  pub main : ℕ
  -- An `int`, from 0 upwards.
  pub num : ℕ

-- How many handlers are posted to each child.
unfoldable pub begin : List ℕ → Program
begin tasks = record {
  children = map (λ n. record { waiting = n; left = 0 }) tasks;
  main = 0;
  num = 0;
}

-- `main_child_excute` and `threads_excute`.
abbrev pub main_child_tasks : List ℕ
main_child_tasks = 20 ∷ []

abbrev pub threads_tasks : List ℕ
threads_tasks = 1 ∷ 1 ∷ 1 ∷ 1 ∷ []

pub data Step (s : Program) : Program → Type 0 where
  begins :
      (before : List Child) (n : ℕ) (after : List Child)
      → s.children ≡ before ++ record { waiting = suc n; left = 0 } ∷ after
      → Step s (record s { children = before ++ record { waiting = n; left = posts_each } ∷ after })
  posts :
      (before : List Child) (n k : ℕ) (after : List Child)
      → s.children ≡ before ++ record { waiting = n; left = suc k } ∷ after
      → Step s (record s {
        children = before ++ record { waiting = n; left = k } ∷ after;
        main = s.main + 1;
      })
  -- `poll_one` runs a handler: `num++`, of an `int`, which has no step where it would overflow.
  polls :
      (n : ℕ)
      → s.main ≡ suc n
      → s.num + 1 < 2 ^ 31
      → Step s (record s { main = n; num = s.num + 1 })

-- So many steps in turn.
pub data Steps (s : Program) : ℕ → Program → Type 0 where
  here : Steps s 0 s
  next : {n : ℕ} {t u : Program} → Steps s n t → Step t u → Steps s (suc n) u
