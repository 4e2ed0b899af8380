-- ===== src/Override/Tests.antt =====
-- The configured values of the unit tests.
use conwatch.Prelude.{◌≡◌, ◌≢◌, ◌↔◌, [], refl, codes, text_eq}
use conwatch.Override.{auto, disabled, fixed, to_lower, parse}
use conwatch.Override.Modes.{SpellsNone, parse_modes}

case_insensitive : (parse (codes "None")).mode ≡ disabled
unfolding parse to_lower text_eq
case_insensitive = refl

parse_modes_example :
    let o = parse (codes "NoNe") in
    ((o.mode ≡ auto) ↔ (codes "NoNe" ≡ []))
    × ((o.mode ≡ disabled) ↔ SpellsNone (codes "NoNe"))
    × ((o.mode ≡ fixed) ↔ ((codes "NoNe" ≢ []) × (¬ SpellsNone (codes "NoNe"))))
    × (o.fixed_ip ≡ (elim o.mode [ fixed ↦ codes "NoNe" | _ ↦ [] ]))
parse_modes_example = parse_modes (codes "NoNe")
