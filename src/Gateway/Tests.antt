-- ===== src/Gateway/Tests.antt =====
-- A dump of two batches with two default routes.
use conwatch.Prelude.{ℤ, pos, List, codes, arith, ℕ, ◌≡◌, refl, some, none, [], ◌∷◌, Text}
use conwatch.Rtnetlink.{messages, attributes, walk}
use conwatch.Rtnetlink.Sample.{Frame, sample}
use conwatch.Gateway.Lookup.{RouteCalls, resolve_gateway}
use conwatch.Netlink.Lab.{is_open, next, with_next, next_closed, opens_next, close_in, closes}
use conwatch.Gateway.LastRoute.{last_gateway, dumped, IsLawful, resolve_gateway_lem}

abbrev route : ℕ → ℕ → Text → Frame
route kind oif gateway = record {
  kind = kind;
  index = 0;
  flags = 0;
  family = 2;
  dst_len = 0;
  attrs = (4, oif ∷ 0 ∷ 0 ∷ 0 ∷ []) ∷ (5, gateway) ∷ [];
}

abbrev batches : List (List Frame)
batches =
    (route 24 7 (10 ∷ 0 ∷ 0 ∷ 1 ∷ []) ∷ route 24 8 (10 ∷ 0 ∷ 0 ∷ 2 ∷ []) ∷ [])
    ∷ (route 24 7 (10 ∷ 0 ∷ 0 ∷ 3 ∷ []) ∷ route 3 0 [] ∷ route 24 7 (10 ∷ 0 ∷ 0 ∷ 4 ∷ []) ∷ [])
    ∷ []

abbrev calls : RouteCalls sample (List ℕ)
calls = record {
  if_nametoindex = λ name w. 7;
  socket_route = λ w. (next w, with_next w);
  send = λ s r w. (pos 28, w);
  batches = λ s w. batches;
  received = λ s n w. w;
  sizeof_request = 28;
  rtm_getroute = 26;
  nlm_f_request = 1;
  nlm_f_dump = 768;
}

calls-IsLawful : IsLawful sample (List ℕ) calls close_in is_open
calls-IsLawful = record {
  made = λ w _. (next_closed w, opens_next w);
  not_made = λ w e. absurd (ground (arith, e));
  sent = λ s r w d. refl;
  heard = λ s n w d. refl;
  closed = closes;
}

resolve_gateway_lem_example :
    let r = resolve_gateway sample some some (List ℕ) calls close_in (codes "eth0") 2 (1 ∷ []) in
    (r.0 ≡ last_gateway sample some some 2 7 (dumped sample batches) none)
    × ((d : ℤ) → is_open r.1 d ≡ is_open (1 ∷ []) d)
resolve_gateway_lem_example =
    resolve_gateway_lem sample some some (List ℕ) calls close_in is_open calls-IsLawful
      (codes "eth0") 2 (1 ∷ []) refl

answered :
    last_gateway sample some some 2 7 (dumped sample batches) none ≡ some (10 ∷ 0 ∷ 0 ∷ 3 ∷ [])
unfolding messages attributes walk
answered = refl
