-- ===== src/Targets/First.antt =====
-- The loop over the addresses against the first usable record of each family.
use conwatch.Prelude.{
  ◌≡◌, sym, ◌∙◌, inl, inr, Bool, true, ◌&&◌, Option, none, some, List, [], ◌∷◌, Text, c_str,
  if◌then◌else◌, is_some, arith, Bool-cases, Option-cases,
}
use conwatch.Targets.{
  Family, is_inet, is_inet6, AddrInfo, Addresses, ResolvedTargets, unresolved, collect_one,
  collect_addresses, resolve, resolve_targets,
}

abbrev pub or_first : Option Text → Option Text → Option Text
or_first none o = o
or_first (some t) o = some t

-- The first address of a family that can be printed.
abbrev pub first_of_family : (Family → Bool) → (Text → Option Text) → List AddrInfo → Option Text
first_of_family is_family ntop [] = none
first_of_family is_family ntop (ai ∷ ais) =
    if is_family ai.family
    then or_first (ntop ai.addr) (first_of_family is_family ntop ais)
    else first_of_family is_family ntop ais

module _ (net : Addresses) where
  abbrev pub firsts : List AddrInfo → ResolvedTargets
  firsts ais = record {
    v4 = first_of_family is_inet net.ntop4 ais;
    v6 = first_of_family is_inet6 net.ntop6 ais;
  }

  abbrev or_firsts : ResolvedTargets → ResolvedTargets → ResolvedTargets
  or_firsts r s = record { v4 = or_first r.v4 s.v4; v6 = or_first r.v6 s.v6 }

  collect_one_lem :
      (ai : AddrInfo) (ais : List AddrInfo) (r : ResolvedTargets)
      → or_firsts (collect_one net ai r) (firsts ais) ≡ or_firsts r (firsts (ai ∷ ais))
  unfolding collect_one
  collect_one_lem ai ais r = ground arith

  complete_lem : (r s : ResolvedTargets) → is_some r.v4 && is_some r.v6 ≡ true → or_firsts r s ≡ r
  complete_lem r s h = ground arith

  -- The `break` loses nothing: the loop gives what was there, or else the first of each family.
  collect_addresses_lem :
      (ais : List AddrInfo) (r : ResolvedTargets)
      → collect_addresses net ais r ≡ or_firsts r (firsts ais)
  unfolding collect_addresses
  collect_addresses_lem [] r = ground arith
  collect_addresses_lem (ai ∷ ais) r =
      let r' = collect_one net ai r in
      elim (Bool-cases (is_some r'.v4 && is_some r'.v6)) [
        | inl full ↦ rw full (sym (complete_lem r' (firsts ais) full) ∙ collect_one_lem ai ais r)
        | inr more ↦ rw more (collect_addresses_lem ais r' ∙ collect_one_lem ai ais r)
      ]

  abbrev pub dns_firsts : Option (List AddrInfo) → ResolvedTargets
  dns_firsts none = unresolved
  dns_firsts (some ais) = firsts ais

  -- A literal IPv4 address is the only target, so is a literal IPv6 address, and neither is looked
  -- up; any other name gives the first printable address of each family that the lookup lists,
  -- and nothing if the lookup fails.
  pub resolve_targets_lem :
      (target : Text)
      → resolve_targets net target ≡ (
          if net.literal4 (c_str target)
          then record { v4 = some target; v6 = none }
          else (if net.literal6 (c_str target)
              then record { v4 = none; v6 = some target }
              else dns_firsts (net.getaddrinfo (c_str target))))
  unfolding resolve
  resolve_targets_lem target = elim (Option-cases (net.getaddrinfo (c_str target))) [
    | inl e ↦ rw e (ground arith)
    | inr (ais, e) ↦ rw e (ground (arith, collect_addresses_lem ais unresolved))
  ]
