-- ===== src/Config/FirstRun.antt =====
-- The default file, as a YAML reader sees it.
use mathlib.Core.List.{append-nil, append_assoc, head-eq_of_cons-eq, tail-eq_of_cons-eq}
use conwatch.Prelude.{sym, ◌≡◌, refl, ap, ◌∙◌, none, some, List, [], ◌∷◌, ◌++◌, Text, codes, map}
use conwatch.Config.{Config, default_config}
use conwatch.Config.Eligible.{is_real, is_noop_pattern}
use conwatch.Config.Load.{
  Yaml, loaded, load, read_config, apply_scalars, apply_pattern_lists, pattern_list, push_patterns,
  child_string, optional_string, apply_interface_overrides, override_entries, insert_overrides,
  validate_precedence,
}

abbrev pub default_excludes : List Text
default_excludes =
    codes "lo"
    ∷ codes "docker*"
    ∷ codes "podman*"
    ∷ codes "virbr*"
    ∷ codes "veth*"
    ∷ codes "br-*"
    ∷ []

-- Its document: a target, an empty include list, the excludes, and no override.
pub record IsDefaultFile (yaml : Yaml) (path : Text) : Type 0 where
  pub root : yaml.Node
  pub target : yaml.Node
  pub include : yaml.Node
  pub exclude : yaml.Node
  pub interfaces : yaml.Node
  pub loads : yaml.load_file path ≡ some root
  pub has_target : yaml.child root (codes "default_target") ≡ some (some target)
  pub target_is : yaml.as_string target ≡ some (codes "1.1.1.1")
  pub no_target6 : yaml.child root (codes "default_target6") ≡ some none
  pub has_include : yaml.child root (codes "include") ≡ some (some include)
  pub include_is : yaml.elements include ≡ []
  pub has_exclude : yaml.child root (codes "exclude") ≡ some (some exclude)
  pub exclude_is : map yaml.as_string (yaml.elements exclude) ≡ map some default_excludes
  pub has_interfaces : yaml.child root (codes "interfaces") ≡ some (some interfaces)
  pub interfaces_are : yaml.entries interfaces ≡ []

abbrev pub shipped_config : Config
shipped_config = record default_config { exclude = default_excludes }

module _ (yaml : Yaml) where
  push_patterns-map :
      (ns : List yaml.Node) (ts ps : List Text)
      → map yaml.as_string ns ≡ map some ts
      → push_patterns yaml ns ps ≡ some (ps ++ ts)
  unfolding push_patterns
  push_patterns-map [] [] ps e = ap some (sym (append-nil ps))
  push_patterns-map [] (t ∷ ts) ps e = cc
  push_patterns-map (n ∷ ns) [] ps e = cc
  push_patterns-map (n ∷ ns) (t ∷ ts) ps e =
      let head : yaml.as_string n ≡ some t = head-eq_of_cons-eq e in
      let tail = tail-eq_of_cons-eq e in
      rw head (push_patterns-map ns ts (ps ++ t ∷ []) tail ∙ ap some (append_assoc ps (t ∷ []) ts))

  child_string-some :
      (n c : yaml.Node) (k t : Text)
      → yaml.child n k ≡ some (some c)
      → yaml.as_string c ≡ some t
      → child_string yaml n k ≡ some (some t)
  unfolding child_string optional_string
  child_string-some n c k t found is_it = rw (found, is_it) refl

  child_string-none :
      (n : yaml.Node) (k : Text) → yaml.child n k ≡ some none → child_string yaml n k ≡ some none
  unfolding child_string optional_string
  child_string-none n k e = rw e refl

  -- A file that reads like the default one makes the shipped configuration, and passes validation.
  pub load-IsDefaultFile :
      (path : Text) → IsDefaultFile yaml path → load yaml path ≡ loaded shipped_config
  unfolding load read_config apply_scalars apply_pattern_lists pattern_list
      apply_interface_overrides override_entries insert_overrides validate_precedence is_real
      push_patterns is_noop_pattern
  load-IsDefaultFile path f =
      let target =
        child_string-some f.root f.target (codes "default_target") (codes "1.1.1.1") f.has_target
          f.target_is in
      let target6 = child_string-none f.root (codes "default_target6") f.no_target6 in
      let pushed = push_patterns-map (yaml.elements f.exclude) default_excludes [] f.exclude_is in
      let scalars : apply_scalars yaml f.root default_config ≡ some default_config =
        rw (target, target6) refl in
      let lists : apply_pattern_lists yaml f.root default_config ≡ some shipped_config =
        rw (f.has_include, f.include_is, f.has_exclude, pushed) refl in
      let overrides : apply_interface_overrides yaml f.root shipped_config ≡ some shipped_config =
        rw (f.has_interfaces, f.interfaces_are) refl in
      let read : read_config yaml path ≡ some shipped_config =
        rw (f.loads, scalars, lists) overrides in
      rw read refl
