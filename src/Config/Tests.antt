-- ===== src/Config/Tests.antt =====
-- A configuration file as a tree of nodes, and the theorems of the configuration at it.
use conwatch.Prelude.{
  ℕ, ◌≡◌, refl, Bool, true, false, ◌&&◌, none, some, [], ◌∷◌, Text, codes, c_str, text_eq,
  if◌then◌else◌,
}
use conwatch.Prelude.Map.{text_key, insert}
use conwatch.Config.{Config, InterfaceOverride, default_config}
use conwatch.Config.Eligible.{is_noop_pattern, is_real, matches_any, is_eligible}
use conwatch.Config.Docs.{Doc, end, item, done, pair, scalar, sequence, table, one_file}
use conwatch.Config.Load.{
  loaded, exited, read_config, apply_scalars, apply_pattern_lists, pattern_list, push_patterns,
  child_string, apply_interface_overrides, override_entries, insert_overrides, parse_override, load,
}
use conwatch.Config.Precedence.{admits, is_eligible-admits}
use conwatch.Config.Fields.{FromFile, load-FromFile, load-Exited}

-- The file of the unit test ParsesIncludeExcludeAndOverrides.
abbrev vpn_file : Doc
vpn_file = table (
    pair (codes "default_target") (scalar (codes "9.9.9.9")) (
      pair (codes "include") (sequence end) (
        pair (codes "exclude")
          (sequence (item (scalar (codes "lo")) (item (scalar (codes "docker*")) end)))
          (pair (codes "interfaces")
            (table (
              pair (codes "wg0")
                (table (
                  pair (codes "label") (scalar (codes "VPN"))
                    (pair (codes "target") (scalar (codes "10.0.0.1")) done)))
                done))
            done))))

abbrev vpn_override : InterfaceOverride
vpn_override = record {
  label = codes "VPN";
  target = some (codes "10.0.0.1");
  target6 = none;
  gateway_ip_override4 = none;
  gateway_ip_override6 = none;
}

abbrev vpn_config : Config
vpn_config = record default_config {
  default_target = codes "9.9.9.9";
  exclude = codes "lo" ∷ codes "docker*" ∷ [];
  interfaces = (codes "wg0", vpn_override) ∷ [];
}

loads_vpn_file : load (one_file vpn_file) [] ≡ loaded vpn_config
unfolding load read_config apply_scalars apply_pattern_lists pattern_list push_patterns child_string
    apply_interface_overrides override_entries insert_overrides parse_override insert text_eq
    is_real
loads_vpn_file = refl

load-FromFile_example :
    (root : Doc) × (some vpn_file ≡ some root)
    × FromFile (one_file vpn_file) root vpn_config
    × (is_real vpn_config.include && is_real vpn_config.exclude ≡ false)
load-FromFile_example = load-FromFile (one_file vpn_file) [] vpn_config loads_vpn_file

-- Both lists hold real patterns.
abbrev clash_file : Doc
clash_file = table (
    pair (codes "include") (sequence (item (scalar (codes "wg*")) end))
      (pair (codes "exclude") (sequence (item (scalar (codes "docker*")) end)) done))

clash_exits : load (one_file clash_file) [] ≡ exited 1
unfolding load read_config apply_scalars apply_pattern_lists pattern_list push_patterns child_string
    apply_interface_overrides override_entries insert_overrides parse_override insert text_eq
    is_real
clash_exits = refl

-- A matcher for the patterns that end in a star and those that have none.
abbrev star_match : Text → Text → Bool
star_match [] [] = true
star_match [] (y ∷ ys) = false
star_match (x ∷ []) [] = text_eq (x ∷ []) (codes "*")
star_match (x ∷ x' ∷ xs) [] = false
star_match (x ∷ xs) (y ∷ ys) =
    let rest = text_eq (x ∷ []) (y ∷ []) && star_match xs ys in
    if text_eq (x ∷ xs) (codes "*") then true else rest

docker_excluded : is_eligible star_match vpn_config (codes "docker0") ≡ false
unfolding is_eligible is_real matches_any text_eq c_str
docker_excluded = refl

is_eligible-admits_example :
    is_eligible star_match vpn_config (codes "wlan0") ≡ admits star_match vpn_config (codes "wlan0")
unfolding is_real is_noop_pattern text_eq
is_eligible-admits_example = is_eligible-admits star_match vpn_config (codes "wlan0") refl refl

abbrev status : ℕ
status = 1

load-Exited_example :
    (status ≡ 1)
    × ((root : Doc) × (cfg : Config) × (some clash_file ≡ some root)
        × FromFile (one_file clash_file) root cfg
        × (is_real cfg.include ≡ true)
        × (is_real cfg.exclude ≡ true))
load-Exited_example = load-Exited (one_file clash_file) [] status clash_exits
