-- ===== src/Client/LogFilter.antt =====
-- googlecloudprofiler/client.py: `_filter_log`, the filter that silences the discovery library's records
-- of the level INFO when this module causes them. `os.path.splitext(…)[0]` is a parameter.
use cloud_profiler_python.Prelude.{
  ℕ, ◌≡◌, Bool, true, false, Option, none, some, List, [], ◌∷◌, map, ◌↔◌, String, arith,
}
use cloud_profiler_python.Prelude.{◌==◌, nat_eq, string_eq, if◌then◌else◌, contains, eq_iff}
use cloud_profiler_python.Prelude.Result.{Result, ok, err, type_error}

-- `logging.INFO`
abbrev pub info : ℕ
info = 20

-- `filter_levels or set(logging.INFO)`: an integer is not iterable.
unfoldable pub levels_or_default : Option (List ℕ) → Result (List ℕ)
levels_or_default none = err type_error
levels_or_default (some []) = err type_error
levels_or_default (some (level ∷ levels)) = ok (level ∷ levels)

module _ (root : String → String) where
  -- The loop on the frames that stand around the call, by their file names.
  unfoldable pub passes : String → List String → Bool
  passes mine [] = true
  passes mine (f ∷ frames) = let rest = passes mine frames in if root f == mine then false else rest

  unfoldable pub filter : List ℕ → String → ℕ → List String → Bool
  filter levels mine levelno frames = if contains levels levelno then passes mine frames else true

  -- `_filter_log`, on a record: the filter has the one level INFO, and the module's own file name.
  unfoldable pub filter_log : String → ℕ → List String → Result Bool
  filter_log file levelno frames = elim (levels_or_default (some (info ∷ []))) [
    | err e ↦ err e
    | ok levels ↦ ok (filter levels (root file) levelno frames)
  ]

  passes_iff :
      (mine : String) (frames : List String)
      → (passes mine frames ≡ false) ↔ (contains (map root frames) mine ≡ true)
  unfolding passes
  passes_iff mine [] = (λ h. cc, λ h. cc)
  passes_iff mine (f ∷ frames) =
      ground (arith, passes_iff mine frames, eq_iff (root f) mine, eq_iff mine (root f))

  -- The filter drops a record exactly if its level is INFO and one of the frames around the call is in
  -- the module's file, extensions aside.
  pub filter_log_iff :
      (file : String) (levelno : ℕ) (frames : List String)
      → (filter_log file levelno frames ≡ ok false)
        ↔ ((levelno ≡ info) × (contains (map root frames) (root file) ≡ true))
  unfolding filter_log levels_or_default filter
  filter_log_iff file levelno frames = ground (arith, passes_iff (root file) frames)
