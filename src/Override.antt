-- ===== src/Override.antt =====
-- src/shared/gateway_override.hpp and gateway_override.cpp. std::tolower acts in the "C" locale,
-- in which the program runs: it changes the letters A to Z only.
pub mod Modes
mod Tests
use conwatch.Prelude.{
  ℕ, ◌+◌, Bool, ◌&&◌, List, [], ◌∷◌, map, Text, codes, text_eq, leb, if◌then◌else◌, is_empty,
}

pub data Mode : Type 0 where
  auto fixed disabled : Mode

pub record GatewayOverride : Type 0 where
  pub mode : Mode
  pub fixed_ip : Text

unfoldable pub lower : ℕ → ℕ
lower c = if leb b'A' c && leb c b'Z' then c + 32 else c

unfoldable pub to_lower : Text → Text
unfolding lower
to_lower s = map lower s

unfoldable pub parse : Text → GatewayOverride
parse value =
    if is_empty value
    then record { mode = auto; fixed_ip = [] }
    else (if text_eq (to_lower value) (codes "none")
        then record { mode = disabled; fixed_ip = [] }
        else record { mode = fixed; fixed_ip = value })
