-- ===== src/Logger/Init.antt =====
-- What `default_init` of engine/logger/logger.cpp leaves in the registry.
use cxxprogram.Prelude.{
  Bool, List, Option-cases, ap, arith, false, if◌then◌else◌, inl, inr, none, refl, some, true, ℕ,
  ◌∙◌, ◌≡◌, ◌≤◌, ◌⊎◌,
}
use cxxprogram.Prelude.Int.{ℤ, pos, negsuc}
use cxxprogram.Logger.{
  Logger, Spdlog, sync, async_with, warn, off, level_of, sinks_of, delivery_of, default_init,
}

level_of_le : (level : ℤ) → level_of level ≤ off
level_of_le (pos n) = ground arith
level_of_le (negsuc n) = omega arith

-- The logger that is made.
abbrev pub made : List ℕ → List ℕ → Bool → Bool → ℤ → List ℕ → Logger
made path name enable_console async level pattern = record {
  name = name;
  sinks = sinks_of path name enable_console;
  delivery = delivery_of async;
  flush_level = warn;
  level = level_of level;
  pattern = pattern;
}

delivery_of_lem : (async : Bool) → delivery_of async ≡ (if async then async_with 0 else sync)
unfolding delivery_of
delivery_of_lem true = refl
delivery_of_lem false = refl

module _ (S : Spdlog) where
  open S use {
    Registry, get, set_default_logger, flush_every, get-set_default_logger, get-flush_every,
  }

  default_init-some :
      (r : Registry) (path name : List ℕ) (enable_console async : Bool) (level : ℤ)
      (pattern : List ℕ) {l : Logger}
      → get r name ≡ some l
      → default_init S r path name enable_console async level pattern ≡ r
  unfolding default_init
  default_init-some r path name enable_console async level pattern e = rw (e, default_init) refl

  default_init-none :
      (r : Registry) (path name : List ℕ) (enable_console async : Bool) (level : ℤ)
      (pattern : List ℕ)
      → get r name ≡ none
      → default_init S r path name enable_console async level pattern
        ≡ flush_every (set_default_logger r (made path name enable_console async level pattern)) 1
  unfolding default_init
  default_init-none r path name enable_console async level pattern e = rw (e, default_init) refl

  get-made :
      (r : Registry) (path name : List ℕ) (enable_console async : Bool) (level : ℤ)
      (pattern : List ℕ)
      → get r name ≡ none
      → get (default_init S r path name enable_console async level pattern) name
        ≡ some (made path name enable_console async level pattern)
  get-made r path name enable_console async level pattern e =
      let l = made path name enable_console async level pattern in
      ap (λ q. get q name) (default_init-none r path name enable_console async level pattern e)
      ∙ get-flush_every (set_default_logger r l) 1 name
      ∙ get-set_default_logger r l

  -- After `default_init` there is a logger of the name. It is the one that was there, and nothing has
  -- changed; or a new one, with a level from 0 to 6, which writes by itself unless it is asynchronous,
  -- and then has a pool that no one owns any more. A second call with that name, whatever its other
  -- arguments, changes nothing.
  pub default_init_lem :
      (r : Registry) (path name : List ℕ) (enable_console async : Bool) (level : ℤ)
      (pattern : List ℕ) (path' : List ℕ) (enable_console' async' : Bool) (level' : ℤ)
      (pattern' : List ℕ)
      → let r' = default_init S r path name enable_console async level pattern in
        (l : Logger) × (get r' name ≡ some l)
        × (((get r name ≡ some l) × (r' ≡ r))
            ⊎ ((get r name ≡ none)
                × (l.level ≤ off)
                × (l.delivery ≡ (if async then async_with 0 else sync))))
        × (default_init S r' path' name enable_console' async' level' pattern' ≡ r')
  default_init_lem r path name enable_console async level pattern path' enable_console' async'
        level' pattern' =
      elim (Option-cases (get r name)) [
        | inr (l, e) ↦
            let same = default_init-some r path name enable_console async level pattern e in
            let found = ap (λ q. get q name) same ∙ e in
            (
              l,
              found,
              inl (e, same),
              default_init-some _ path' name enable_console' async' level' pattern' found,
            )
        | inl e ↦
            let found = get-made r path name enable_console async level pattern e in
            (
              made path name enable_console async level pattern,
              found,
              inr (e, level_of_le level, delivery_of_lem async),
              default_init-some _ path' name enable_console' async' level' pattern' found,
            )
      ]
