-- ===== src/Ping/Lab.antt =====
-- A monitor of one interface whose target answers the first two pings and then no more, while the
-- gateway of its default route answers.
use conwatch.Prelude.{
  length, ℕ, ◌+◌, ◌*◌, ◌/◌, Bool, false, none, some, List, [], ◌∷◌, ◌++◌, Text, codes, text_eq, pos,
  negsuc, ltb, if◌then◌else◌, replicate,
}
use conwatch.Icmp.{echo_packet}
use conwatch.Rtnetlink.Sample.{sample, Frame}
use conwatch.Targets.{Addresses}
use conwatch.Ping.{System}
use conwatch.Ping.Setup.{Arguments}
use conwatch.Drawing.{Fonts}
use conwatch.Drawing.Integers.{negate}

abbrev pub net : Addresses
net = record {
  literal4 = λ s. text_eq s (codes "1.1.1.1");
  literal6 = λ s. false;
  ntop4 = λ a. some (codes "192.168.1.1");
  ntop6 = λ a. none;
  getaddrinfo = λ s. none;
}

abbrev pub default_route : Frame
default_route = record {
  kind = 24;
  index = 0;
  flags = 0;
  family = 2;
  dst_len = 0;
  attrs = (4, 7 ∷ 0 ∷ 0 ∷ 0 ∷ []) ∷ (5, 192 ∷ 168 ∷ 1 ∷ 1 ∷ []) ∷ [];
}

abbrev pub reply : List ℕ
reply = 0x45 ∷ replicate 19 0 ++ echo_packet 0 0 0x1234 0

-- The world counts the requests; from the third on, the target is silent and the gateway is not.
pub record Lab : Type 0 where
  pub sent : ℕ
  pub last_to : Text

abbrev pub replies : Lab → List (List ℕ)
replies w =
    if text_eq w.last_to (codes "1.1.1.1")
    then (if ltb w.sent 3 then reply ∷ [] else [])
    else reply ∷ []

-- A font is its size; a character is half as wide, and its ink begins a pixel to the right.
abbrev pub fixed_fonts : Fonts
fixed_fonts = record {
  Font = ℕ;
  painter_font = 12;
  set_bold = λ bold size. size;
  set_pixel_size = λ size old. size;
  tight_bounding_rect =
      λ size s. record { left = pos 1; top = negate (pos size); width = pos (length s * size / 2) };
}

abbrev pub lab : System
lab = record {
  World = Lab;
  nl = sample;
  addresses = net;
  socket4 = λ w. (pos 3, w);
  socket6 = λ w. (negsuc 0, w);
  bind_to_device = λ s name w. w;
  set_recv_timeout = λ s w. w;
  close = λ s w. w;
  pton4 = some;
  pton6 = λ s. none;
  sendto = λ s packet to w. (pos 24, record { sent = w.sent + 1; last_to = to });
  datagrams = λ s w. replies w;
  received = λ s n w. w;
  getifaddrs =
      λ w. (some (record { family = some 2; name = codes "wlan0"; link_local = false } ∷ []), w);
  route = record {
    if_nametoindex = λ name w. 7;
    socket_route = λ w. (pos 5, w);
    send = λ s r w. (pos 28, w);
    batches = λ s w. (default_route ∷ []) ∷ [];
    received = λ s n w. w;
    sizeof_request = 28;
    rtm_getroute = 26;
    nlm_f_request = 1;
    nlm_f_dump = 768;
  };
  fonts = fixed_fonts;
  arg = λ format text. format ++ text;
  arg_number = λ format n. format ++ (n ∷ []);
  arg2 = λ format a b. format ++ a ++ b;
  join = λ parts between. [];
}

abbrev pub is_letter : ℕ → Bool
is_letter c = ltb 96 c

abbrev pub is_digit : ℕ → Bool
is_digit c = ltb c 58

abbrev pub arguments : Arguments
arguments = record {
  iface = codes "wlan0";
  target = codes "1.1.1.1";
  target6 = [];
  label = codes "WiFi";
  gateway_ip_override4 = [];
  gateway_ip_override6 = [];
}

abbrev pub quiet_lab : Lab
quiet_lab = record { sent = 0; last_to = [] }
