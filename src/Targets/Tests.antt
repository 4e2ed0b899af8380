-- ===== src/Targets/Tests.antt =====
-- A name with two addresses of each family.
use conwatch.Prelude.{◌≡◌, none, some, List, [], ◌∷◌, codes, c_str, text_eq, if◌then◌else◌}
use conwatch.Targets.{inet, inet6, AddrInfo, Addresses, resolve_targets}
use conwatch.Targets.First.{resolve_targets_lem}

abbrev answers : List AddrInfo
answers =
    record { family = inet6; addr = codes "a" }
    ∷ record { family = inet; addr = codes "b" }
    ∷ record { family = inet6; addr = codes "c" }
    ∷ []

abbrev net : Addresses
net = record {
  literal4 = λ s. text_eq s (codes "1.1.1.1");
  literal6 = λ s. text_eq s (codes "::1");
  ntop4 = λ a. some a;
  ntop6 = λ a. if text_eq a (codes "a") then none else some a;
  getaddrinfo = λ s. some answers;
}

resolve_targets_lem_example :
    resolve_targets net (codes "host") ≡ record { v4 = some (codes "b"); v6 = some (codes "c") }
unfolding text_eq c_str
resolve_targets_lem_example = resolve_targets_lem net (codes "host")
