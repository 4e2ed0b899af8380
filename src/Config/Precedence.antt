-- ===== src/Config/Precedence.antt =====
-- Which interfaces are monitored: isEligible against the rule of include and exclude.
use conwatch.Prelude.{
  ℕ, ◌≡◌, refl, Bool, true, false, not, ◌&&◌, ◌||◌, none, some, List, Text, is_empty, arith,
  Option-cases, inl, inr, ◌↔◌,
}
use conwatch.Config.{Config}
use conwatch.Config.Eligible.{is_noop_pattern, is_real, matches_any, is_eligible}
use conwatch.Config.Load.{Yaml, loaded, thrown, exited, read_config, load}

-- A name is admitted if it passes both lists; a list without real patterns lets everything pass.
abbrev pub admits : (Text → Text → Bool) → Config → Text → Bool
admits fnmatch cfg name =
    (not (is_real cfg.include) || matches_any fnmatch cfg.include name)
    && (not (is_real cfg.exclude) || not (matches_any fnmatch cfg.exclude name))

is_real_lem : (ps : List Text) → is_real ps ≡ not (is_empty ps) && not (is_noop_pattern ps)
unfolding is_real
is_real_lem ps = refl

-- With at most one list of real patterns, and an exclude list that is not the single pattern "*",
-- a name is eligible exactly if it passes both lists.
pub is_eligible-admits :
    (fnmatch : Text → Text → Bool) (cfg : Config) (name : Text)
    → is_real cfg.include && is_real cfg.exclude ≡ false
    → is_noop_pattern cfg.exclude ≡ false
    → is_eligible fnmatch cfg name ≡ admits fnmatch cfg name
unfolding is_eligible
is_eligible-admits fnmatch cfg name one_list no_star = ground (arith, is_real_lem cfg.exclude)

module _ (yaml : Yaml) where
  -- The three ends of a load: an exception exactly if the reading of the configuration throws, exit
  -- with status 1 exactly if both lists that were read hold real patterns, and otherwise what was
  -- read.
  pub load_cases :
      (path : Text)
      → ((load yaml path ≡ thrown) ↔ (read_config yaml path ≡ none))
        × ((n : ℕ)
            → (load yaml path ≡ exited n) ↔ (
                (n ≡ 1)
                × ((cfg : Config) × (read_config yaml path ≡ some cfg)
                    × (is_real cfg.include ≡ true)
                    × (is_real cfg.exclude ≡ true))))
        × ((cfg : Config)
            → (load yaml path ≡ loaded cfg) ↔ (
                (read_config yaml path ≡ some cfg)
                × (is_real cfg.include && is_real cfg.exclude ≡ false)))
  unfolding load
  load_cases path = elim (Option-cases (read_config yaml path)) [
    | inl e ↦ rw e (
      (λ _. refl, λ _. refl),
      λ n. (λ h. absurd (ground arith), λ h. ground arith),
      λ cfg. (λ h. ground arith, λ h. ground arith),
    )
    | inr (c, e) ↦ rw e (
      (λ h. ground arith, λ h. ground arith),
      λ n. (λ h. (ground arith, (c, refl, ground arith, ground arith)), λ h. ground arith),
      λ cfg. (λ h. ground arith, λ h. ground arith),
    )
  ]
