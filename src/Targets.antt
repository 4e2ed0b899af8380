-- ===== src/Targets.antt =====
-- src/shared/target_resolve.hpp and target_resolve.cpp. The address functions of the C library are
-- a parameter.
pub mod First
mod Tests
use conwatch.Prelude.{
  Bool, true, false, not, ◌&&◌, Option, none, some, List, [], ◌∷◌, Text, c_str, if◌then◌else◌,
  is_some,
}

pub data Family : Type 0 where
  inet inet6 other : Family

abbrev pub is_inet : Family → Bool
is_inet inet = true
is_inet inet6 = false
is_inet other = false

abbrev pub is_inet6 : Family → Bool
is_inet6 inet = false
is_inet6 inet6 = true
is_inet6 other = false

-- One entry of the list that getaddrinfo gives out.
pub record AddrInfo : Type 0 where
  pub family : Family
  pub addr : Text

-- `literal4 s` is `inet_pton(AF_INET, s, …) == 1`; `ntop4` is `none` where inet_ntop fails;
-- `getaddrinfo` is `none` where it returns an error.
pub record Addresses : Type 0 where
  pub literal4 : Text → Bool
  pub literal6 : Text → Bool
  pub ntop4 : Text → Option Text
  pub ntop6 : Text → Option Text
  pub getaddrinfo : Text → Option (List AddrInfo)

pub record ResolvedTargets : Type 0 where
  pub v4 : Option Text
  pub v6 : Option Text

abbrev pub unresolved : ResolvedTargets
unresolved = record { v4 = none; v6 = none }

abbrev pub set_v4 : Option Text → ResolvedTargets → ResolvedTargets
set_v4 none r = r
set_v4 (some t) r = record r { v4 = some t }

abbrev pub set_v6 : Option Text → ResolvedTargets → ResolvedTargets
set_v6 none r = r
set_v6 (some t) r = record r { v6 = some t }

module _ (net : Addresses) where
  open net use {literal4, literal6, ntop4, ntop6, getaddrinfo}

  -- The body of the loop before its `break`.
  unfoldable pub collect_one : AddrInfo → ResolvedTargets → ResolvedTargets
  collect_one ai r =
      if is_inet ai.family && not (is_some r.v4)
      then set_v4 (ntop4 ai.addr) r
      else (if is_inet6 ai.family && not (is_some r.v6) then set_v6 (ntop6 ai.addr) r else r)

  unfoldable pub collect_addresses : List AddrInfo → ResolvedTargets → ResolvedTargets
  collect_addresses [] r = r
  collect_addresses (ai ∷ ais) r =
      let r' = collect_one ai r in
      let rest = collect_addresses ais r' in if is_some r'.v4 && is_some r'.v6 then r' else rest

  abbrev pub collect_found : Option (List AddrInfo) → ResolvedTargets
  collect_found none = unresolved
  collect_found (some ais) = collect_addresses ais unresolved

  unfoldable pub resolve_via_dns : Text → ResolvedTargets
  resolve_via_dns target = collect_found (getaddrinfo (c_str target))

  unfoldable pub try_literal : Text → Option ResolvedTargets
  try_literal target =
      if literal4 (c_str target)
      then some (record { v4 = some target; v6 = none })
      else (if literal6 (c_str target) then some (record { v4 = none; v6 = some target }) else none)

  abbrev pub or_dns : Option ResolvedTargets → Text → ResolvedTargets
  or_dns (some r) target = r
  or_dns none target = resolve_via_dns target

  unfoldable pub resolve : Text → ResolvedTargets
  unfolding try_literal resolve_via_dns
  resolve target = or_dns (try_literal target) target

  -- The function that target_resolve.hpp declares.
  abbrev pub resolve_targets : Text → ResolvedTargets
  resolve_targets target = resolve target
