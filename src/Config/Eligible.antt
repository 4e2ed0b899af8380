-- ===== src/Config/Eligible.antt =====
-- src/watcher/config_load.cpp: isEligible and the tests that it shares with the loader. fnmatch(3)
-- is a parameter: it says whether the pattern (first) matches the name.
use conwatch.Prelude.{
  Bool, true, false, not, ◌&&◌, List, [], ◌∷◌, Text, codes, c_str, text_eq, if◌then◌else◌, any,
  is_empty,
}
use conwatch.Config.{Config}

unfoldable pub is_noop_pattern : List Text → Bool
is_noop_pattern [] = false
is_noop_pattern (p ∷ []) = text_eq p (codes "*")
is_noop_pattern (p ∷ q ∷ ps) = false

-- `!patterns.empty() && !isNoopPattern(patterns)`
unfoldable pub is_real : List Text → Bool
unfolding is_noop_pattern
is_real ps = not (is_empty ps) && not (is_noop_pattern ps)

module _ (fnmatch : Text → Text → Bool) where
  unfoldable pub matches_any : List Text → Text → Bool
  matches_any ps name = any (λ p. fnmatch (c_str p) (c_str name)) ps

  unfoldable pub is_eligible : Config → Text → Bool
  is_eligible cfg name =
      if is_real cfg.include
      then matches_any cfg.include name
      else (if is_empty cfg.exclude then true else not (matches_any cfg.exclude name))
