-- ===== src/Override/Modes.antt =====
-- Which configured values select which mode.
use conwatch.Prelude.{
  ℕ, ◌≡◌, refl, ◌≢◌, ◌↔◌, ◌⊎◌, inl, inr, true, [], ◌∷◌, Text, codes, text_eq, text_eq_iff, arith,
  Bool-cases, map,
}
use conwatch.Override.{auto, fixed, disabled, lower, to_lower, parse}

-- A byte is a letter in either case.
abbrev pub Either : ℕ → ℕ → ℕ → Type 0
Either c upper small = (c ≡ upper) ⊎ (c ≡ small)

-- The eight-fold spellings of "none".
abbrev pub SpellsNone : Text → Type 0
SpellsNone (a ∷ b ∷ c ∷ d ∷ []) =
    Either a b'N' b'n' × Either b b'O' b'o' × Either c b'N' b'n' × Either d b'E' b'e'
SpellsNone _ = ⊥

lower_n : (c : ℕ) → (lower c ≡ b'n') ↔ Either c b'N' b'n'
unfolding lower
lower_n c = (λ e. ground arith, λ e. ground arith)

lower_o : (c : ℕ) → (lower c ≡ b'o') ↔ Either c b'O' b'o'
unfolding lower
lower_o c = (λ e. ground arith, λ e. ground arith)

lower_e : (c : ℕ) → (lower c ≡ b'e') ↔ Either c b'E' b'e'
unfolding lower
lower_e c = (λ e. ground arith, λ e. ground arith)

to_lower_none : (s : Text) → (map lower s ≡ codes "none") ↔ SpellsNone s
to_lower_none [] = (λ e. cc, λ e. absurd e)
to_lower_none (a ∷ []) = (λ e. cc, λ e. absurd e)
to_lower_none (a ∷ b ∷ []) = (λ e. cc, λ e. absurd e)
to_lower_none (a ∷ b ∷ c ∷ []) = (λ e. cc, λ e. absurd e)
to_lower_none (a ∷ b ∷ c ∷ d ∷ []) = (
  λ e. (
    (lower_n a).0 (ground arith),
    (lower_o b).0 (ground arith),
    (lower_n c).0 (ground arith),
    (lower_e d).0 (ground arith),
  ),
  λ h. cc ((lower_n a).1 h.0, (lower_o b).1 h.1, (lower_n c).1 h.2, (lower_e d).1 h.3),
)
to_lower_none (a ∷ b ∷ c ∷ d ∷ x ∷ xs) = (λ e. cc, λ e. absurd e)

sentinel_iff : (s : Text) → (text_eq (to_lower s) (codes "none") ≡ true) ↔ SpellsNone s
unfolding to_lower
sentinel_iff s = (
  λ e. (to_lower_none s).0 ((text_eq_iff _ _).0 e),
  λ h. (text_eq_iff _ _).1 ((to_lower_none s).1 h),
)

-- The empty value is Auto; "none" in any mixture of cases is Disabled; every other value is Fixed,
-- with the address as it was configured. No other mode carries an address.
pub parse_modes :
    (value : Text)
    → (((parse value).mode ≡ auto) ↔ (value ≡ []))
      × (((parse value).mode ≡ disabled) ↔ SpellsNone value)
      × (((parse value).mode ≡ fixed) ↔ ((value ≢ []) × (¬ SpellsNone value)))
      × ((parse value).fixed_ip ≡ (elim (parse value).mode [ fixed ↦ value | _ ↦ [] ]))
unfolding parse
parse_modes [] =
    ((λ e. refl, λ e. refl), (λ e. cc, λ e. absurd e), (λ e. cc, λ e. absurd (e.0 refl)), refl)
parse_modes (x ∷ xs) = elim (Bool-cases (text_eq (to_lower (x ∷ xs)) (codes "none"))) [
  | inl off ↦
      let spelled = (sentinel_iff (x ∷ xs)).0 off in
      (
        (λ e. ground arith, λ e. cc),
        (λ e. spelled, λ e. ground arith),
        (λ e. absurd (ground arith), λ e. absurd (e.1 spelled)),
        ground arith,
      )
  | inr on ↦
      let other : ¬ SpellsNone (x ∷ xs) = λ h. ground (arith, (sentinel_iff (x ∷ xs)).1 h) in
      (
        (λ e. ground arith, λ e. cc),
        (λ e. absurd (ground arith), λ e. absurd (other e)),
        (λ e. (λ q. cc, other), λ e. ground arith),
        ground arith,
      )
]
