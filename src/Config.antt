-- ===== src/Config.antt =====
-- src/watcher/config.hpp: the configuration, and the per-interface resolution of
-- src/watcher/config_resolve.cpp.
pub mod Eligible
pub mod Default
pub mod File
pub mod Atomic
pub mod Location
pub mod Load
pub mod FirstRun
pub mod Docs
pub mod Memory
pub mod Resolve
pub mod Precedence
pub mod Fields
mod Tests
mod FileTests
use conwatch.Prelude.{ℕ, Option, none, some, List, [], Text, codes, if◌then◌else◌, is_empty}
use conwatch.Prelude.Map.{Map, text_key, lookup}

pub record InterfaceOverride : Type 0 where
  pub label : Text
  pub target : Option Text
  pub target6 : Option Text
  pub gateway_ip_override4 : Option Text
  pub gateway_ip_override6 : Option Text

pub record Config : Type 0 where
  pub include : List Text
  pub exclude : List Text
  pub default_target : Text
  pub default_target6 : Option Text
  pub interfaces : Map Text InterfaceOverride

-- A default-constructed `Config`.
abbrev pub default_config : Config
default_config = record {
  include = [];
  exclude = [];
  default_target = codes "1.1.1.1";
  default_target6 = none;
  interfaces = [];
}

-- `o.value_or(d)`, and the field of an entry that `find` may not have found.
abbrev pub value_or : Option Text → Text → Text
value_or none d = d
value_or (some t) d = t

abbrev pub field_of : (InterfaceOverride → Option Text) → Option InterfaceOverride → Option Text
field_of f none = none
field_of f (some ov) = f ov

unfoldable pub effective_target : Config → Text → Text
effective_target cfg iface =
    value_or (field_of (λ ov. ov.target) (lookup iface cfg.interfaces)) cfg.default_target

abbrev pub label_of : Option InterfaceOverride → Text → Text
label_of none iface = iface
label_of (some ov) iface = if is_empty ov.label then iface else ov.label

unfoldable pub effective_label : Config → Text → Text
effective_label cfg iface = label_of (lookup iface cfg.interfaces) iface

unfoldable pub effective_target6 : Config → Text → Text
effective_target6 cfg iface =
    value_or (field_of (λ ov. ov.target6) (lookup iface cfg.interfaces))
      (value_or cfg.default_target6 [])

unfoldable pub effective_gateway_ip_override4 : Config → Text → Text
effective_gateway_ip_override4 cfg iface =
    value_or (field_of (λ ov. ov.gateway_ip_override4) (lookup iface cfg.interfaces)) []

unfoldable pub effective_gateway_ip_override6 : Config → Text → Text
effective_gateway_ip_override6 cfg iface =
    value_or (field_of (λ ov. ov.gateway_ip_override6) (lookup iface cfg.interfaces)) []

-- The functions that config.hpp declares.
abbrev pub resolve_target : Config → Text → Text
resolve_target cfg iface = effective_target cfg iface

abbrev pub resolve_label : Config → Text → Text
resolve_label cfg iface = effective_label cfg iface

abbrev pub resolve_target6 : Config → Text → Text
resolve_target6 cfg iface = effective_target6 cfg iface

abbrev pub resolve_gateway_ip_override4 : Config → Text → Text
resolve_gateway_ip_override4 cfg iface = effective_gateway_ip_override4 cfg iface

abbrev pub resolve_gateway_ip_override6 : Config → Text → Text
resolve_gateway_ip_override6 cfg iface = effective_gateway_ip_override6 cfg iface
