-- ===== src/Netlink/Lab.antt =====
-- A kernel that keeps a list of its open descriptors and makes the next one of their sum.
use conwatch.Prelude.{
  ℕ, ◌+◌, ◌≤◌, ◌≡◌, refl, Bool, true, false, not, ◌&&◌, ◌||◌, ◌==◌, List, [], ◌∷◌, any, arith, ℤ,
  pos, negsuc, if◌then◌else◌,
}
use conwatch.Netlink.Socket.{Kernel}
use conwatch.Netlink.Descriptors.{IsLawful, same_fd}

abbrev pub sum : List ℕ → ℕ
sum [] = 0
sum (x ∷ xs) = x + sum xs

abbrev pub without : ℕ → List ℕ → List ℕ
without n [] = []
without n (x ∷ xs) = if x == n then without n xs else x ∷ without n xs

abbrev pub close_in : ℤ → List ℕ → List ℕ
close_in (pos n) w = without n w
close_in (negsuc n) w = w

abbrev pub next : List ℕ → ℤ
next w = pos (sum w + 3)

abbrev pub with_next : List ℕ → List ℕ
with_next w = (sum w + 3) ∷ w

abbrev pub is_open : List ℕ → ℤ → Bool
is_open w (pos n) = any (λ x. x == n) w
is_open w (negsuc n) = false

-- A kernel of which bind answers `bound`.
abbrev pub kernel : ℤ → Kernel
kernel bound = record {
  World = List ℕ;
  socket_route = λ w. (next w, with_next w);
  bind = λ s f g w. (bound, w);
  sendto = λ s r w. (pos 32, w);
  close = close_in;
  nlmsg_length = λ n. n + 16;
  sizeof_ifinfomsg = 16;
  rtm_getlink = 18;
  nlm_f_request = 1;
  nlm_f_dump = 768;
  rtmgrp_link = 1;
  af_netlink = 16;
  af_unspec = 0;
}

not_above : (n : ℕ) (w : List ℕ) → any (λ x. x == n) w ≡ true → n ≤ sum w
not_above n [] e = absurd (ground arith)
not_above n (x ∷ xs) e = ground (arith, not_above n xs)

pub next_closed : (w : List ℕ) → is_open w (next w) ≡ false
next_closed w = ground (arith, not_above (sum w + 3) w)

without-any :
    (n m : ℕ) (w : List ℕ) → any (λ x. x == m) (without n w) ≡ not (m == n) && any (λ x. x == m) w
without-any n m [] = ground arith
without-any n m (x ∷ xs) = ground (arith, without-any n m xs)

pub opens_next : (w : List ℕ) (d : ℤ) → is_open (with_next w) d ≡ same_fd d (next w) || is_open w d
opens_next w (pos n) = ground arith
opens_next w (negsuc n) = refl

pub closes :
    (s : ℤ) (w : List ℕ) (d : ℤ) → is_open (close_in s w) d ≡ not (same_fd d s) && is_open w d
closes (pos n) w (pos m) = without-any n m w
closes (pos n) w (negsuc m) = refl
closes (negsuc n) w (pos m) = refl
closes (negsuc n) w (negsuc m) = ground arith

pub kernel-IsLawful : (bound : ℤ) → IsLawful (kernel bound) is_open
kernel-IsLawful bound = record {
  made = λ w _. (next_closed w, opens_next w);
  not_made = λ w e. absurd (ground (arith, e));
  bound = λ s f g w d. refl;
  sent = λ s r w d. refl;
  closed = closes;
}
