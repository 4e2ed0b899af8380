-- ===== src/Config/Fields.antt =====
-- What a successful loadConfig has read, field by field.
use conwatch.Prelude.{
  ℕ, true, ◌≡◌, sym, ap, ◌∙◌, false, ◌&&◌, Option, none, some, List, [], Text, codes, arith,
}
use conwatch.Prelude.Map.{text_key, lookup}
use conwatch.Config.{Config, default_config, value_or}
use conwatch.Config.Eligible.{is_real}
use conwatch.Config.Load.{
  Yaml, loaded, exited, child_string, apply_scalars, pattern_list, apply_pattern_lists,
  override_entries, apply_interface_overrides, read_config, load, set_default_target,
  set_default_target6,
}
use conwatch.Config.Resolve.{
  >>=-eq-some, strings, value_at, child_string-value_at, last_value, Read, push_patterns_lem,
  insert_overrides-Read,
}
use conwatch.Config.Precedence.{load_cases}

module _ (yaml : Yaml) where
  open yaml use {Node, child, elements, entries, load_file}

  abbrev pub strings_of : Option Node → Option (List Text)
  strings_of none = some []
  strings_of (some n) = strings yaml (elements n)

  abbrev pub entries_of : Option Node → List (Node × Node)
  entries_of none = []
  entries_of (some n) = entries n

  -- The value of each key of the file, with the default where the key is absent.
  pub record FromFile (root : Node) (cfg : Config) : Type 0 where
    pub target :
        (t : Option Text) × (value_at yaml root (codes "default_target") ≡ some t)
        × (cfg.default_target ≡ value_or t (codes "1.1.1.1"))
    pub target6 : value_at yaml root (codes "default_target6") ≡ some cfg.default_target6
    pub include :
        (n : Option Node) × (child root (codes "include") ≡ some n)
        × (strings_of n ≡ some cfg.include)
    pub exclude :
        (n : Option Node) × (child root (codes "exclude") ≡ some n)
        × (strings_of n ≡ some cfg.exclude)
    pub interfaces :
        (n : Option Node) × (child root (codes "interfaces") ≡ some n)
        × ((k : Text)
            → Read yaml k (last_value yaml k (entries_of n) none) (lookup k cfg.interfaces))

  pattern_list_lem :
      (n : Option Node) (ps : List Text) → pattern_list yaml n [] ≡ some ps → strings_of n ≡ some ps
  unfolding pattern_list
  pattern_list_lem none ps e = e
  pattern_list_lem (some n) ps e = ground (arith, push_patterns_lem yaml (elements n) [])

  empty_table : (k : Text) (cfg : Config) → cfg.interfaces ≡ [] → lookup k cfg.interfaces ≡ none
  unfolding lookup
  empty_table k cfg fresh = ap (lookup k) fresh

  override_entries_lem :
      (n : Option Node) (cfg new : Config)
      → override_entries yaml n cfg ≡ some new
      → cfg.interfaces ≡ []
      → ((k : Text) → Read yaml k (last_value yaml k (entries_of n) none) (lookup k new.interfaces))
        × (new.include ≡ cfg.include)
        × (new.exclude ≡ cfg.exclude)
        × (new.default_target ≡ cfg.default_target)
        × (new.default_target6 ≡ cfg.default_target6)
  unfolding override_entries
  override_entries_lem none cfg new e fresh = (
    λ k. ground (arith, empty_table k cfg fresh),
    ground arith,
    ground arith,
    ground arith,
    ground arith,
  )
  override_entries_lem (some n) cfg new e fresh =
      let read = λ (k : Text).
        insert_overrides-Read yaml (entries n) cfg new k none (empty_table k cfg fresh) e in
      (λ k. (read k).0, (read []).1, (read []).2, (read []).3, (read []).4)

  apply_scalars_lem :
      (root : Node) (cfg new : Config)
      → apply_scalars yaml root cfg ≡ some new
      → (t : Option Text) × (t6 : Option Text) × (child_string yaml root (codes "default_target")
          ≡ some t)
        × (child_string yaml root (codes "default_target6") ≡ some t6)
        × (set_default_target6 t6 (set_default_target t cfg) ≡ new)
  unfolding apply_scalars
  apply_scalars_lem root cfg new e =
      let (t, e1, f1) = >>=-eq-some (child_string yaml root (codes "default_target")) _ e in
      let (t6, e2, f2) = >>=-eq-some (child_string yaml root (codes "default_target6")) _ f1 in
      (t, t6, e1, e2, ground arith)

  apply_pattern_lists_lem :
      (root : Node) (cfg new : Config)
      → apply_pattern_lists yaml root cfg ≡ some new
      → (n : Option Node) × (m : Option Node) × (child root (codes "include") ≡ some n)
        × (pattern_list yaml n cfg.include ≡ some new.include)
        × (child root (codes "exclude") ≡ some m)
        × (pattern_list yaml m cfg.exclude ≡ some new.exclude)
        × (record cfg { include = new.include; exclude = new.exclude } ≡ new)
  unfolding apply_pattern_lists
  apply_pattern_lists_lem root cfg new e =
      let (n, e1, f1) = >>=-eq-some (child root (codes "include")) _ e in
      let (include, e2, f2) = >>=-eq-some (pattern_list yaml n cfg.include) _ f1 in
      let (m, e3, f3) = >>=-eq-some (child root (codes "exclude")) _ f2 in
      let (exclude, e4, f4) = >>=-eq-some (pattern_list yaml m cfg.exclude) _ f3 in
      (n, m, e1, ground arith, e3, ground arith, ground arith)

  steps-FromFile :
      (root : Node) (cfg1 cfg2 cfg : Config)
      → apply_scalars yaml root default_config ≡ some cfg1
      → apply_pattern_lists yaml root cfg1 ≡ some cfg2
      → apply_interface_overrides yaml root cfg2 ≡ some cfg
      → FromFile root cfg
  unfolding apply_interface_overrides
  steps-FromFile root cfg1 cfg2 cfg a1 a2 a3 =
      let (t, t6, s1, s2, s3) = apply_scalars_lem root default_config cfg1 a1 in
      let (i, x, p1, p2, p3, p4, p5) = apply_pattern_lists_lem root cfg1 cfg2 a2 in
      let (n, e3, f3) = >>=-eq-some (child root (codes "interfaces")) _ a3 in
      let none_yet : cfg2.interfaces ≡ [] = ground arith in
      let o = override_entries_lem n cfg2 cfg f3 none_yet in
      let at = λ (k : Text). sym (child_string-value_at yaml root k) in
      record {
        target = (t, at (codes "default_target") ∙ s1, ground arith);
        target6 = at (codes "default_target6") ∙ s2 ∙ ground arith;
        include = (i, p1, pattern_list_lem i cfg.include (ground arith));
        exclude = (x, p3, pattern_list_lem x cfg.exclude (ground arith));
        interfaces = (n, e3, o.0);
      }

  read_config-FromFile :
      (path : Text) (cfg : Config)
      → read_config yaml path ≡ some cfg
      → (root : Node) × (load_file path ≡ some root) × FromFile root cfg
  unfolding read_config
  read_config-FromFile path cfg read =
      let (root, opened, f0) = >>=-eq-some (load_file path) _ read in
      let (cfg1, e1, f1) = >>=-eq-some (apply_scalars yaml root default_config) _ f0 in
      let (cfg2, e2, f2) = >>=-eq-some (apply_pattern_lists yaml root cfg1) _ f1 in
      (root, opened, steps-FromFile root cfg1 cfg2 cfg e1 e2 f2)

  -- A load that succeeds has opened the file; each field of the configuration is the value of its
  -- key there, in the file's order, or the default where the key is absent; an interface has an
  -- override exactly if an entry has its name, with the five values of the keys of its last entry,
  -- the name standing for a label that is absent; and the file does not fill both pattern lists.
  pub load-FromFile :
      (path : Text) (cfg : Config)
      → load yaml path ≡ loaded cfg
      → (root : Node) × (load_file path ≡ some root)
        × FromFile root cfg
        × (is_real cfg.include && is_real cfg.exclude ≡ false)
  load-FromFile path cfg e =
      let (read, one_list) = ((load_cases yaml path).2 cfg).0 e in
      let (root, opened, f) = read_config-FromFile path cfg read in (root, opened, f, one_list)

  -- A load that ends the program does so with status 1, and has opened a file whose include and
  -- exclude lists both hold real patterns: more than the single pattern "*".
  pub load-Exited :
      (path : Text) (n : ℕ)
      → load yaml path ≡ exited n
      → (n ≡ 1)
        × ((root : Node) × (cfg : Config) × (load_file path ≡ some root)
            × FromFile root cfg
            × (is_real cfg.include ≡ true)
            × (is_real cfg.exclude ≡ true))
  load-Exited path n e =
      let (status, (cfg, read, include, exclude)) = ((load_cases yaml path).1 n).0 e in
      let (root, opened, f) = read_config-FromFile path cfg read in
      (status, (root, cfg, opened, f, include, exclude))
