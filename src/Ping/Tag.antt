-- ===== src/Ping/Tag.antt =====
-- The tag of an interface on its icon.
use mathlib.Core.List.{reverse, reverse-append, reverse-cons}
use conwatch.Prelude.{
  refl, ap, if◌then◌else◌, Bool-cases, inl, inr, ℕ, zero, suc, ◌-◌, ◌≤◌, ◌≡◌, Bool, [], ◌∷◌, ◌++◌,
  Text, take, drop, length, length-append, arith,
}
use conwatch.Ping.Setup.{leading, trailing_digits, right, short_iface_tag}

length-take : (n : ℕ) (s : Text) → length (take n s) ≤ n
length-take zero s = ground arith
length-take (suc n) [] = ground arith
length-take (suc n) (c ∷ s) = ground (arith, length-take n s)

length-drop : (n : ℕ) (s : Text) → length (drop n s) ≡ length s - n
length-drop zero s = ground arith
length-drop (suc n) [] = ground arith
length-drop (suc n) (c ∷ s) = ground (arith, length-drop n s)

drop_before : (s : Text) (d : ℕ) → drop (length s) (s ++ (d ∷ [])) ≡ d ∷ []
drop_before [] d = refl
drop_before (c ∷ s) d = drop_before s d

right_end : (s : Text) (d : ℕ) → right 1 (s ++ (d ∷ [])) ≡ d ∷ []
right_end s d =
    let one : length (s ++ (d ∷ [])) - 1 ≡ length s = omega (arith, length-append s (d ∷ [])) in
    rw one (drop_before s d)

-- The last character decides whether a tag has a digit: it is the whole of the tag's digits, however
-- many the name ends in.
last_digit :
    (is_digit : ℕ → Bool) (s : Text) (d : ℕ)
    → right 1 (trailing_digits is_digit (s ++ (d ∷ []))) ≡ (if is_digit d then d ∷ [] else [])
unfolding trailing_digits leading
last_digit is_digit s d = elim (Bool-cases (is_digit d)) [
  | inl digit ↦
      let rest = leading is_digit (reverse s) in
      rw (reverse-append s (d ∷ []), digit, reverse-cons d rest) (right_end (reverse rest) d)
  | inr other ↦ rw (reverse-append s (d ∷ []), other) refl
]

-- A tag has at most three characters, as the icon has room for, whatever the interface is called.
pub short_iface_tag-length :
    (is_letter is_digit : ℕ → Bool) (iface : Text)
    → length (short_iface_tag is_letter is_digit iface) ≤ 3
unfolding short_iface_tag
short_iface_tag-length is_letter is_digit iface =
    let letters = leading is_letter iface in
    let digits = trailing_digits is_digit iface in
    omega (
      arith,
      length-append (take 2 letters) (right 1 digits),
      length-take 2 letters,
      length-drop (length digits - 1) digits,
    )

-- The tag of a name is its leading letters, two at most, and its last character if that is a digit.
pub short_iface_tag_lem :
    (is_letter is_digit : ℕ → Bool) (s : Text) (d : ℕ)
    → short_iface_tag is_letter is_digit (s ++ (d ∷ []))
      ≡ take 2 (leading is_letter (s ++ (d ∷ []))) ++ (if is_digit d then d ∷ [] else [])
unfolding short_iface_tag
short_iface_tag_lem is_letter is_digit s d =
    ap (λ digits. take 2 (leading is_letter (s ++ (d ∷ []))) ++ digits) (last_digit is_digit s d)
