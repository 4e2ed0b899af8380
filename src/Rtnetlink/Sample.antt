-- ===== src/Rtnetlink/Sample.antt =====
-- Buffers as lists of messages and of attributes, with the numbers of the Linux headers: an instance
-- of the interface, for tests.
use conwatch.Prelude.{ℕ, ◌<◌, ◌≡◌, Bool, true, false, List, [], ◌∷◌, Text, arith, length}
use conwatch.Rtnetlink.{Rtnetlink}

pub record Frame : Type 0 where
  pub kind : ℕ
  pub index : ℕ
  pub flags : ℕ
  pub family : ℕ
  pub dst_len : ℕ
  pub attrs : List (ℕ × Text)

abbrev pub no_frame : Frame
no_frame = record { kind = 0; index = 0; flags = 0; family = 0; dst_len = 0; attrs = [] }

abbrev pub head_or {ℓ} : {A : Type ℓ} → A → List A → A
head_or d [] = d
head_or d (x ∷ xs) = x

abbrev pub tail {ℓ} : {A : Type ℓ} → List A → List A
tail [] = []
tail (x ∷ xs) = xs

abbrev pub has_more {ℓ} : {A : Type ℓ} → List A → Bool
has_more [] = false
has_more (x ∷ xs) = true

pub tail-length {ℓ} : {A : Type ℓ} (xs : List A) → has_more xs ≡ true → length (tail xs) < length xs
tail-length [] h = absurd (ground arith)
tail-length (x ∷ xs) h = ground arith

abbrev pub sample : Rtnetlink
sample = record {
  Messages = List Frame;
  nlmsg_ok = has_more;
  nlmsg_next = tail;
  nlmsg_left = length;
  nlmsg_next_shrinks = tail-length;
  nlmsg_type = λ m. (head_or no_frame m).kind;
  Attrs = List (ℕ × Text);
  rta_ok = has_more;
  rta_next = tail;
  rta_left = length;
  rta_next_shrinks = tail-length;
  rta_type = λ a. (head_or (0, []) a).0;
  rta_data = λ a. (head_or (0, []) a).1;
  ifi_index = λ m. (head_or no_frame m).index;
  ifi_flags = λ m. (head_or no_frame m).flags;
  ifla_rta = λ m. (head_or no_frame m).attrs;
  rtm_family = λ m. (head_or no_frame m).family;
  rtm_dst_len = λ m. (head_or no_frame m).dst_len;
  rtm_rta = λ m. (head_or no_frame m).attrs;
  nlmsg_done = 3;
  nlmsg_error = 2;
  rtm_newlink = 16;
  rtm_dellink = 17;
  rtm_newroute = 24;
  ifla_ifname = 3;
  rta_oif = 4;
  rta_gateway = 5;
  iff_up = 1;
  iff_running = 64;
  iff_lower_up = 65536;
  af_inet = 2;
  af_inet6 = 10;
}
