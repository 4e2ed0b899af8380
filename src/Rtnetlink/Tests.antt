-- ===== src/Rtnetlink/Tests.antt =====
-- The loops over one message and two attributes.
use conwatch.Prelude.{ℕ, List, [], ◌∷◌, Text, codes}
use conwatch.Rtnetlink.Sample.{Frame}

abbrev attrs : List (ℕ × Text)
attrs = (3, codes "wlan0") ∷ (4, []) ∷ []

abbrev frames : List Frame
frames = record { kind = 16; index = 2; flags = 0; family = 0; dst_len = 0; attrs = attrs } ∷ []
