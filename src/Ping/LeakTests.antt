-- ===== src/Ping/LeakTests.antt =====
-- A monitor whose target never answers, in a kernel that lists its open descriptors.
use conwatch.Prelude.{false, refl, ℕ, ◌++◌, List, [], ◌∷◌, some, none, pos, negsuc, codes, arith}
use conwatch.Rtnetlink.Sample.{sample}
use conwatch.Netlink.Lab.{is_open, next, with_next, next_closed, opens_next, close_in, closes}
use conwatch.Ping.{System}
use conwatch.Ping.Setup.{construct}
use conwatch.Ping.History.{ticks}
use conwatch.Ping.Lab.{net, fixed_fonts, default_route, arguments, is_letter, is_digit}
use conwatch.Ping.Owned.{Owns}
use conwatch.Ping.Descriptors.{IsLawful}
use conwatch.Ping.Leaks.{ticks-Owns}

abbrev listed : System
listed = record {
  World = List ℕ;
  nl = sample;
  addresses = net;
  socket4 = λ w. (next w, with_next w);
  socket6 = λ w. (negsuc 0, w);
  bind_to_device = λ s name w. w;
  set_recv_timeout = λ s w. w;
  close = close_in;
  pton4 = some;
  pton6 = λ s. none;
  sendto = λ s packet to w. (pos 24, w);
  datagrams = λ s w. [];
  received = λ s n w. w;
  getifaddrs =
      λ w. (some (record { family = some 2; name = codes "wlan0"; link_local = false } ∷ []), w);
  route = record {
    if_nametoindex = λ name w. 7;
    socket_route = λ w. (next w, with_next w);
    send = λ s r w. (pos 28, w);
    batches = λ s w. (default_route ∷ []) ∷ [];
    received = λ s n w. w;
    sizeof_request = 28;
    rtm_getroute = 26;
    nlm_f_request = 1;
    nlm_f_dump = 768;
  };
  fonts = fixed_fonts;
  arg = λ format text. format ++ text;
  arg_number = λ format n. format ++ (n ∷ []);
  arg2 = λ format a b. format ++ a ++ b;
  join = λ parts between. [];
}

listed-IsLawful : IsLawful listed is_open
listed-IsLawful = record {
  made4 = λ w _. (next_closed w, opens_next w);
  not_made4 = λ w e. absurd (ground (arith, e));
  made6 = λ w e. absurd (ground (arith, e));
  not_made6 = λ w e d. refl;
  bound = λ s name w d. refl;
  timed = λ s w d. refl;
  sent = λ s packet to w d. refl;
  heard = λ s n w d. refl;
  listed = λ w d. refl;
  closed = closes;
  routes = record {
    made = λ w _. (next_closed w, opens_next w);
    not_made = λ w e. absurd (ground (arith, e));
    sent = λ s r w d. refl;
    heard = λ s n w d. refl;
    closed = closes;
  };
}

ticks-Owns_example :
    let m =
      ticks listed 25 (construct listed is_letter is_digit arguments 0x1234 (0 ∷ 1 ∷ 2 ∷ [])) in
    Owns (is_open (0 ∷ 1 ∷ 2 ∷ [])) (is_open m.world) m.v4.sock m.v6.sock
ticks-Owns_example =
    ticks-Owns listed is_open listed-IsLawful is_letter is_digit arguments 0x1234 (0 ∷ 1 ∷ 2 ∷ [])
      25
