-- ===== src/Ping/LoadTests.antt =====
-- What is sent and made in a network that never answers, and the icons of one that comes and goes.
use conwatch.Prelude.{false, refl, ◌+◌, ◌≤◌, ◌++◌, [], ◌∷◌, some, none, pos, negsuc, codes, length}
use conwatch.Rtnetlink.Sample.{sample}
use conwatch.Ping.{System, Monitor}
use conwatch.Ping.Setup.{construct}
use conwatch.Ping.History.{ticks}
use conwatch.Ping.Lab.{
  lab, quiet_lab, net, fixed_fonts, default_route, arguments, is_letter, is_digit,
}
use conwatch.Ping.Unseen.{Unseen}
use conwatch.Ping.Sent.{Log}
use conwatch.Ping.Remade.Count.{Tally, IsTally}
use conwatch.Ping.Remade.{Paced, ticks-Paced}
use conwatch.Ping.Cache.{ticks-icon_cache}

-- The world is a log of sendto(2) with a tally of socket(2).
abbrev logging : System
logging = record {
  World = Log × Tally;
  nl = sample;
  addresses = net;
  socket4 = λ w. (pos 3, (w.0, (w.1.0 + 1, w.1.1)));
  socket6 = λ w. (negsuc 0, (w.0, (w.1.0, w.1.1 + 1)));
  bind_to_device = λ s name w. w;
  set_recv_timeout = λ s w. w;
  close = λ s w. w;
  pton4 = some;
  pton6 = λ s. none;
  sendto = λ s packet to w. (pos 24, ((packet, to) ∷ w.0, w.1));
  datagrams = λ s w. [];
  received = λ s n w. w;
  getifaddrs =
      λ w. (some (record { family = some 2; name = codes "wlan0"; link_local = false } ∷ []), w);
  route = record {
    if_nametoindex = λ name w. 7;
    socket_route = λ w. (pos 5, w);
    send = λ s r w. (pos 28, w);
    batches = λ s w. (default_route ∷ []) ∷ [];
    received = λ s n w. w;
    sizeof_request = 28;
    rtm_getroute = 26;
    nlm_f_request = 1;
    nlm_f_dump = 768;
  };
  fonts = fixed_fonts;
  arg = λ format text. format ++ text;
  arg_number = λ format n. format ++ (n ∷ []);
  arg2 = λ format a b. format ++ a ++ b;
  join = λ parts between. [];
}

logging-Unseen : {A : Type 0} (seen : Log × Tally → A) → Unseen logging seen
logging-Unseen seen = record {
  bound = λ s name w. refl;
  timed = λ s w. refl;
  closed = λ s w. refl;
  heard = λ s n w. refl;
  listed = λ w. refl;
  route_made = λ w. refl;
  route_sent = λ s r w. refl;
  route_heard = λ s n w. refl;
}

logging-IsTally : IsTally logging (λ w. w.1)
logging-IsTally = record {
  unseen = logging-Unseen (λ w. w.1);
  made4 = λ w. refl;
  made6 = λ w. refl;
  sent = λ s packet to w. refl;
}

-- The tick of the tenth loss, which asks the gateway too.
abbrev nine_lost : Monitor logging
nine_lost = ticks logging 9 (construct logging is_letter is_digit arguments 0x1234 ([], (0, 0)))

ticks-icon_cache_example :
    length (ticks lab 12 (construct lab is_letter is_digit arguments 0x1234 quiet_lab)).icon_cache
    ≤ 9
ticks-icon_cache_example = ticks-icon_cache lab is_letter is_digit arguments 0x1234 quiet_lab 12

ticks-Paced_example :
    let m = construct logging is_letter is_digit arguments 0x1234 ([], (0, 0)) in
    let u = ticks logging 25 m in
    Paced m.world.1.0 u.world.1.0 u.v4.fail_streak 25
    × Paced m.world.1.1 u.world.1.1 u.v6.fail_streak 25
ticks-Paced_example =
    ticks-Paced logging (λ w. w.1) logging-IsTally is_letter is_digit arguments 0x1234 ([], (0, 0))
      25
