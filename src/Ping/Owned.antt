-- ===== src/Ping/Owned.antt =====
-- A monitor owns the sockets that it has, and no other.
use conwatch.Prelude.{
  ◌≡◌, refl, ap, ◌∙◌, Bool, true, false, not, ◌&&◌, ◌||◌, ℤ, pos, negsuc, arith, Bool-cases, inl,
  inr, if◌then◌else◌,
}
use conwatch.Netlink.Descriptors.{same_fd, same_fd-true}
use conwatch.Ping.Sockets.{is_open}

same_fd_comm : (a b : ℤ) → same_fd a b ≡ same_fd b a
same_fd_comm (pos a) (pos b) = ground arith
same_fd_comm (negsuc a) (negsuc b) = ground arith
same_fd_comm (pos a) (negsuc b) = refl
same_fd_comm (negsuc a) (pos b) = refl

-- Whether the open descriptor `s`, if it is one, is `d`.
abbrev pub is_it : ℤ → ℤ → Bool
is_it d s = is_open s && same_fd d s

-- The descriptors `now` are those of `base` and the two sockets, which are none of them.
pub record Owns (base now : ℤ → Bool) (mine other : ℤ) : Type 0 where
  pub apart : is_open mine ≡ true → is_it mine other ≡ false
  pub new : is_open mine ≡ true → base mine ≡ false
  pub new_other : is_open other ≡ true → base other ≡ false
  pub all : (d : ℤ) → now d ≡ is_it d mine || is_it d other || base d

pub Owns-comm : (base now : ℤ → Bool) (a b : ℤ) → Owns base now a b → Owns base now b a
Owns-comm base now a b o = record {
  apart = λ h. ground (arith, o.apart, same_fd_comm a b, h);
  new = o.new_other;
  new_other = o.new;
  all = λ d. o.all d ∙ ground arith;
}

-- Behind the close of one of them.
pub closed_Owns :
    (base now then_is : ℤ → Bool) (mine other : ℤ)
    → Owns base now mine other
    → ((d : ℤ) → then_is d ≡ (if is_open mine then not (same_fd d mine) && now d else now d))
    → (d : ℤ) → then_is d ≡ is_it d other || base d
closed_Owns base now then_is mine other o closed d = elim (Bool-cases (is_it d mine)) [
  | inl it ↦
      let same : d ≡ mine = same_fd-true d mine (ground (arith, it)) in
      let on : is_open mine ≡ true = ground (arith, it) in
      let apart : is_it d other ≡ false = ap (λ x. is_it x other) same ∙ o.apart on in
      let new : base d ≡ false = ap base same ∙ o.new on in ground (arith, closed d, it, apart, new)
  | inr other_fd ↦ ground (arith, closed d, o.all d, other_fd)
]

-- Behind the making of another, if one was made.
pub made_Owns :
    (base then_is made : ℤ → Bool) (s other : ℤ)
    → (is_open other ≡ true → base other ≡ false)
    → ((d : ℤ) → then_is d ≡ is_it d other || base d)
    → (is_open s ≡ true → (then_is s ≡ false) × ((d : ℤ) → made d ≡ same_fd d s || then_is d))
    → (is_open s ≡ false → (d : ℤ) → made d ≡ then_is d)
    → Owns base made s other
made_Owns base then_is made s other old closed got missed = record {
  apart = λ h. ground (arith, (got h).0, closed s);
  new = λ h. ground (arith, (got h).0, closed s);
  new_other = old;
  all = λ d. elim (Bool-cases (is_open s)) [
    | inl h ↦ ground (arith, (got h).1 d, closed d, h)
    | inr h ↦ ground (arith, missed h d, closed d, h)
  ];
}
