-- ===== src/Config/Load.antt =====
-- src/watcher/config_load.cpp: loadConfig. yaml-cpp is a parameter, an interface of the calls that
-- the loader makes; a call that throws ends the load, since nothing here catches.
use conwatch.Prelude.{ℕ, ◌&&◌, Option, none, some, List, [], ◌∷◌, ◌++◌, Text, codes, if◌then◌else◌}
use conwatch.Prelude.Map.{text_key, insert}
use conwatch.Config.{Config, InterfaceOverride, default_config}
use conwatch.Config.Eligible.{is_real}

-- The end of a load: a configuration, an exception, or `exit` with a status.
pub data Loaded : Type 0 where
  loaded : Config → Loaded
  thrown : Loaded
  exited : ℕ → Loaded

-- Until it validates, the loader either goes on or throws (`none`).
infixl 5 ◌>>=◌
abbrev pub ◌>>=◌ {ℓ κ} : {A : Type ℓ} {B : Type κ} → Option A → (A → Option B) → Option B
some a >>= f = f a
none >>= f = none

-- `child n k` is `n[k]`, `none` where that node tests false. `as_string` is `as<std::string>()`;
-- `elements` and `entries` are what a range-for over a node yields, as nodes and as pairs.
pub record Yaml : Type 1 where
  pub Node : Type 0
  pub load_file : Text → Option Node
  pub child : Node → Text → Option (Option Node)
  pub as_string : Node → Option Text
  pub elements : Node → List Node
  pub entries : Node → List (Node × Node)

unfoldable pub validate_precedence : Config → Loaded
validate_precedence cfg =
    if is_real cfg.include && is_real cfg.exclude then exited 1 else loaded cfg

abbrev pub validated : Option Config → Loaded
validated none = thrown
validated (some cfg) = validate_precedence cfg

abbrev pub set_default_target : Option Text → Config → Config
set_default_target none cfg = cfg
set_default_target (some s) cfg = record cfg { default_target = s }

abbrev pub set_default_target6 : Option Text → Config → Config
set_default_target6 none cfg = cfg
set_default_target6 (some s) cfg = record cfg { default_target6 = some s }

abbrev pub label_or : Option Text → Text → Text
label_or none iface_name = iface_name
label_or (some s) iface_name = s

module _ (yaml : Yaml) where
  open yaml use {Node, load_file, child, as_string, elements, entries}

  -- `if (n[k]) x = n[k].as<std::string>();`
  unfoldable pub optional_string : Option Node → Option (Option Text)
  optional_string none = some none
  optional_string (some n) = do s ← as_string n; some (some s)

  unfoldable pub child_string : Node → Text → Option (Option Text)
  unfolding optional_string
  child_string n k = do c ← child n k; optional_string c

  unfoldable pub apply_scalars : Node → Config → Option Config
  apply_scalars root cfg = do
    target ← child_string root (codes "default_target")
    target6 ← child_string root (codes "default_target6")
    some (set_default_target6 target6 (set_default_target target cfg))

  -- The loop of `push_back`s.
  unfoldable pub push_patterns : List Node → List Text → Option (List Text)
  push_patterns [] ps = some ps
  push_patterns (n ∷ ns) ps = do s ← as_string n; push_patterns ns (ps ++ s ∷ [])

  unfoldable pub pattern_list : Option Node → List Text → Option (List Text)
  pattern_list none ps = some ps
  pattern_list (some n) ps = push_patterns (elements n) ps

  unfoldable pub apply_pattern_lists : Node → Config → Option Config
  apply_pattern_lists root cfg = do
    i ← child root (codes "include")
    include ← pattern_list i cfg.include
    e ← child root (codes "exclude")
    exclude ← pattern_list e cfg.exclude
    some (record cfg { include = include; exclude = exclude })

  unfoldable pub parse_override : Node × Node → Option InterfaceOverride
  parse_override (key, node) = do
    iface_name ← as_string key
    label ← child_string node (codes "label")
    target ← child_string node (codes "target")
    target6 ← child_string node (codes "target6")
    override4 ← child_string node (codes "gateway_ip_override4")
    override6 ← child_string node (codes "gateway_ip_override6")
    some (record {
      label = label_or label iface_name;
      target = target;
      target6 = target6;
      gateway_ip_override4 = override4;
      gateway_ip_override6 = override6;
    })

  -- The right side of the assignment is evaluated before its left side.
  unfoldable pub insert_overrides : List (Node × Node) → Config → Option Config
  insert_overrides [] cfg = some cfg
  insert_overrides (it ∷ its) cfg = do
    ov ← parse_override it
    key ← as_string it.0
    insert_overrides its (record cfg { interfaces = insert key ov cfg.interfaces })

  unfoldable pub override_entries : Option Node → Config → Option Config
  override_entries none cfg = some cfg
  override_entries (some n) cfg = insert_overrides (entries n) cfg

  unfoldable pub apply_interface_overrides : Node → Config → Option Config
  apply_interface_overrides root cfg = do
    n ← child root (codes "interfaces")
    override_entries n cfg

  -- What `load` reads before it validates.
  unfoldable pub read_config : Text → Option Config
  read_config path = do
    root ← load_file path
    cfg1 ← apply_scalars root default_config
    cfg2 ← apply_pattern_lists root cfg1
    apply_interface_overrides root cfg2

  unfoldable pub load : Text → Loaded
  unfolding validate_precedence
  load path = validated (read_config path)

  -- The function that config.hpp declares.
  abbrev pub load_config : Text → Loaded
  load_config path = load path
