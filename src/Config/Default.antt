-- ===== src/Config/Default.antt =====
-- src/watcher/config.cpp: DefaultConfigYaml, the file that is written on the first run.
use conwatch.Prelude.{List, [], ◌∷◌, ◌++◌, Text, codes}
use Prim.Native.String.{String}

-- Lines, each with its newline.
abbrev pub unlines : List String → Text
unlines [] = []
unlines (l ∷ ls) = codes l ++ 10 ∷ unlines ls

abbrev pub default_lines : List String
default_lines =
    "# conwatch configuration"
    ∷ "# Auto-generated with default values on first run. Edit and save --"
    ∷ "# the watcher re-reads this file on next start (no live-reload)." ∷ ""
    ∷ "# Default ping target for any monitored interface without its own"
    ∷ "# \"target\" under interfaces: below." ∷ "default_target: \"1.1.1.1\"" ∷ ""
    ∷ "# Optional default IPv6 ping target, used alongside default_target so"
    ∷ "# interfaces without their own target/target6 override get both an"
    ∷ "# IPv4 and IPv6 check. Leave unset to run IPv4-only by default (a"
    ∷ "# hostname default_target that resolves to both A/AAAA records also"
    ∷ "# enables both protocols, without needing this key)."
    ∷ "# default_target6: \"2606:4700:4700::1111\"" ∷ ""
    ∷ "# Exactly one of include / exclude should be populated; leave the"
    ∷ "# other empty ([]). Populating both with real patterns is a startup"
    ∷ "# error (see README) rather than a silently-guessed precedence." ∷ ""
    ∷ "# If non-empty, ONLY interfaces matching one of these glob patterns"
    ∷ "# are monitored (allow-list mode)." ∷ "include: []" ∷ ""
    ∷ "# Interfaces matching any of these glob patterns are never monitored."
    ∷ "# Defaults cover loopback and common virtual/container interfaces." ∷ "exclude:"
    ∷ "  - \"lo\"" ∷ "  - \"docker*\"" ∷ "  - \"podman*\"" ∷ "  - \"virbr*\"" ∷ "  - \"veth*\""
    ∷ "  - \"br-*\"" ∷ "" ∷ "# Per-interface overrides, keyed by exact interface name. Optional."
    ∷ "#" ∷ "# gateway_ip_override4/6 override how the \"blue\" (gateway-reachable)"
    ∷ "# check sources its gateway for that protocol, instead of resolving the"
    ∷ "# interface's kernel default route: a literal IP pins the gateway to"
    ∷ "# ping, and \"none\" disables the check entirely (severity goes straight"
    ∷ "# from yellow to red past the loss threshold, never blue). Useful for a"
    ∷ "# tunnel interface (e.g. WireGuard) that routes a private subnet without"
    ∷ "# carrying a default route." ∷ "#" ∷ "# Example:" ∷ "# interfaces:" ∷ "#   wlan0:"
    ∷ "#     label: \"WiFi\"" ∷ "#   wg0:" ∷ "#     label: \"VPN\"" ∷ "#     target: \"10.10.0.1\""
    ∷ "#     target6: \"fd00::1\"" ∷ "#     gateway_ip_override4: \"10.10.0.1\""
    ∷ "#     gateway_ip_override6: \"none\"" ∷ "interfaces: {}" ∷ []

unfoldable pub default_config_yaml : Text
default_config_yaml = unlines default_lines
