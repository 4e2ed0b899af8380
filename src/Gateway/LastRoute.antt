-- ===== src/Gateway/LastRoute.antt =====
-- The resolver against the routes of the dump.
use conwatch.Prelude.{
  ℤ, is_negative, c_str, ◌&&◌, not, ℕ, ◌≡◌, refl, sym, ap, ◌∙◌, Bool, true, false, ◌||◌, ◌==◌,
  Option, none, some, List, [], ◌∷◌, ◌++◌, Text, if◌then◌else◌, arith, inl, inr, Bool-cases,
  Option-cases, length,
}
use conwatch.Rtnetlink.{Rtnetlink, messages, attributes}
use conwatch.Netlink.Descriptors.{same_fd, made_closed}
use conwatch.Gateway.Lookup.{
  RouteCalls, RouteRequest, is_size, build_request, drain_calls, send_request_and_drain, resolve,
  resolve_gateway,
}
use conwatch.Gateway.{
  RouteAttrs, no_attrs, read_int, or_keep, scan_attr, scan_attrs, format_gateway,
  parse_default_route_gateway, scan_messages, scan_batch, drain,
}

module _ (nl : Rtnetlink) where
  abbrev pub is_end : nl.Messages → Bool
  is_end m = (nl.nlmsg_type m == nl.nlmsg_done) || (nl.nlmsg_type m == nl.nlmsg_error)

  -- The messages of a batch before the one that ends the dump.
  abbrev pub before_end : List nl.Messages → List nl.Messages
  before_end [] = []
  before_end (m ∷ ms) = if is_end m then [] else m ∷ before_end ms

  abbrev pub has_end : List nl.Messages → Bool
  has_end [] = false
  has_end (m ∷ ms) = is_end m || has_end ms

  -- The messages of the whole dump.
  abbrev pub dumped : List nl.Messages → List nl.Messages
  dumped [] = []
  dumped (b ∷ bs) =
      if has_end (messages nl b)
      then before_end (messages nl b)
      else before_end (messages nl b) ++ dumped bs

module _ (nl : Rtnetlink) (ntop4 ntop6 : Text → Option Text) (family ifindex : ℕ) where
  -- The interface that the last RTA_OIF names, and the bytes of the last RTA_GATEWAY.
  abbrev pub last_oif : List nl.Attrs → ℕ → ℕ
  last_oif [] old = old
  last_oif (a ∷ as') old =
      last_oif as' (if nl.rta_type a == nl.rta_oif then read_int (nl.rta_data a) else old)

  abbrev pub last_via : List nl.Attrs → Option Text → Option Text
  last_via [] old = old
  last_via (a ∷ as') old =
      last_via as' (if nl.rta_type a == nl.rta_gateway then some (nl.rta_data a) else old)

  -- A new route of the family to everywhere, over the interface; a route without RTA_OIF is over
  -- that of index -1.
  abbrev pub is_default_route : nl.Messages → Bool
  is_default_route m =
      (nl.nlmsg_type m == nl.rtm_newroute)
      && (nl.rtm_family m == family)
      && (nl.rtm_dst_len m == 0)
      && (last_oif (attributes nl (nl.rtm_rta m)) 4294967295 == ifindex)

  -- An address of the family's length, in text.
  abbrev pub address_text : Option Text → Option Text
  address_text none = none
  address_text (some g) =
      if length g == 4
      then (if family == nl.af_inet then ntop4 g else none)
      else (if (length g == 16) && (family == nl.af_inet6) then ntop6 g else none)

  abbrev pub route_gateway : nl.Messages → Option Text
  route_gateway m =
      if is_default_route m
      then address_text (last_via (attributes nl (nl.rtm_rta m)) none)
      else none

  -- The gateway of the last message that gives one.
  abbrev pub last_gateway : List nl.Messages → Option Text → Option Text
  last_gateway [] old = old
  last_gateway (m ∷ ms) old = last_gateway ms (or_keep (route_gateway m) old)

  last_gateway-append :
      (ms ns : List nl.Messages) (old : Option Text)
      → last_gateway (ms ++ ns) old ≡ last_gateway ns (last_gateway ms old)
  last_gateway-append [] ns old = refl
  last_gateway-append (m ∷ ms) ns old = last_gateway-append ms ns (or_keep (route_gateway m) old)

  or_keep_assoc : (a b c : Option Text) → or_keep a (or_keep b c) ≡ or_keep (or_keep a b) c
  or_keep_assoc none b c = refl
  or_keep_assoc (some g) b c = refl

  or_keep-none : (a : Option Text) → or_keep a none ≡ a
  or_keep-none none = refl
  or_keep-none (some g) = refl

  last_gateway_keep :
      (ms : List nl.Messages) (old : Option Text)
      → last_gateway ms old ≡ or_keep (last_gateway ms none) old
  last_gateway_keep [] old = refl
  last_gateway_keep (m ∷ ms) old =
      let g = route_gateway m in
      last_gateway_keep ms (or_keep g old)
      ∙ or_keep_assoc (last_gateway ms none) g old
      ∙ ap (λ x. or_keep x old)
          (ap (or_keep (last_gateway ms none)) (sym (or_keep-none g))
            ∙ sym (last_gateway_keep ms (or_keep g none)))

  scan_attrs_lem :
      (as' : List nl.Attrs) (r : RouteAttrs)
      → (nl.rta_oif == nl.rta_gateway) ≡ false
      → scan_attrs nl ntop4 ntop6 family ifindex as' r
        ≡ record { oif = last_oif as' r.oif; gateway = last_via as' r.gateway }
  unfolding scan_attrs scan_attr
  scan_attrs_lem [] r apart = refl
  scan_attrs_lem (a ∷ as') r apart =
      let r' = scan_attr nl ntop4 ntop6 family ifindex a r in
      let o : r'.oif ≡ (if nl.rta_type a == nl.rta_oif then read_int (nl.rta_data a) else r.oif) =
        ground arith in
      let g : r'.gateway
          ≡ (if nl.rta_type a == nl.rta_gateway then some (nl.rta_data a) else r.gateway) =
        ground (arith, apart) in
      scan_attrs_lem as' r' apart
      ∙ ap (λ x. record { oif = last_oif as' x; gateway = last_via as' r'.gateway }) o
      ∙ ap
          (λ x. record {
            oif =
                last_oif as'
                  (if nl.rta_type a == nl.rta_oif then read_int (nl.rta_data a) else r.oif);
            gateway = last_via as' x;
          })
          g

  parse_lem :
      (m : nl.Messages)
      → (nl.rta_oif == nl.rta_gateway) ≡ false
      → (nl.nlmsg_type m == nl.rtm_newroute) ≡ true
      → parse_default_route_gateway nl ntop4 ntop6 family ifindex m ≡ route_gateway m
  unfolding parse_default_route_gateway format_gateway
  parse_lem m apart new =
      let as' = attributes nl (nl.rtm_rta m) in
      let r = scan_attrs_lem as' no_attrs apart in
      elim (Option-cases (last_via as' none)) [
        | inl e ↦ ground (arith, r, new, e)
        | inr (g, e) ↦ ground (arith, r, new, e)
      ]

  route_keep :
      (m : nl.Messages) (old : Option Text)
      → (nl.rta_oif == nl.rta_gateway) ≡ false
      → (if nl.nlmsg_type m == nl.rtm_newroute
          then or_keep (parse_default_route_gateway nl ntop4 ntop6 family ifindex m) old
          else old)
        ≡ or_keep (route_gateway m) old
  route_keep m old apart = elim (Bool-cases (nl.nlmsg_type m == nl.rtm_newroute)) [
    | inl new ↦
        ap
          (λ b.
            if b
            then or_keep (parse_default_route_gateway nl ntop4 ntop6 family ifindex m) old
            else old)
          new
        ∙ ap (λ g. or_keep g old) (parse_lem m apart new)
    | inr other ↦ rw other refl
  ]

  scan_messages_lem :
      (apart : (nl.rta_oif == nl.rta_gateway) ≡ false) (ms : List nl.Messages) (old : Option Text)
      → scan_messages nl ntop4 ntop6 family ifindex ms old
        ≡ record { result = last_gateway (before_end nl ms) old; done = has_end nl ms }
  unfolding scan_messages
  scan_messages_lem apart [] old = refl
  scan_messages_lem apart (m ∷ ms) old = elim (Bool-cases (is_end nl m)) [
    | inl end ↦ rw end
    | inr more ↦
        rw
          (more, route_keep m old apart, scan_messages_lem apart ms (or_keep (route_gateway m) old))
  ]

  drain_lem :
      (apart : (nl.rta_oif == nl.rta_gateway) ≡ false) (bs : List nl.Messages) (old : Option Text)
      → drain nl ntop4 ntop6 family ifindex bs old ≡ last_gateway (dumped nl bs) old
  unfolding drain scan_batch
  drain_lem apart [] old = refl
  drain_lem apart (b ∷ bs) old =
      let ms = messages nl b in
      let g = last_gateway (before_end nl ms) none in
      let step = sym (last_gateway_keep (before_end nl ms) old) in
      elim (Bool-cases (has_end nl ms)) [
        | inl end ↦ rw (scan_messages_lem apart ms none, end) step
        | inr more ↦
            rw
              (
                scan_messages_lem apart ms none,
                more,
                last_gateway-append (before_end nl ms) (dumped nl bs) old,
              )
              (drain_lem apart bs (or_keep g old) ∙ ap (last_gateway (dumped nl bs)) step)
      ]

-- The calls of the resolver open at most one descriptor, that was not open.
pub record IsLawful (nl : Rtnetlink) (World : Type 0) (calls : RouteCalls nl World)
    (close : ℤ → World → World) (is_open : World → ℤ → Bool) : Type 0 where
  pub made :
      (w : World)
      → let (s, w') = calls.socket_route w in
        is_negative s ≡ false
        → (is_open w s ≡ false) × ((d : ℤ) → is_open w' d ≡ same_fd d s || is_open w d)
  pub not_made :
      (w : World)
      → let (s, w') = calls.socket_route w in
        is_negative s ≡ true → (d : ℤ) → is_open w' d ≡ is_open w d
  pub sent :
      (s : ℤ) (r : RouteRequest) (w : World) (d : ℤ) → is_open (calls.send s r w).1 d ≡ is_open w d
  pub heard : (s : ℤ) (n : ℕ) (w : World) (d : ℤ) → is_open (calls.received s n w) d ≡ is_open w d
  pub closed :
      (s : ℤ) (w : World) (d : ℤ) → is_open (close s w) d ≡ not (same_fd d s) && is_open w d

module _ (nl : Rtnetlink) (ntop4 ntop6 : Text → Option Text) (World : Type 0)
    (calls : RouteCalls nl World) (close : ℤ → World → World) (is_open : World → ℤ → Bool)
    (lawful : IsLawful nl World calls close is_open) where
  -- Sending and receiving opens nothing.
  send_request-same :
      (family ifindex : ℕ) (fd : ℤ) (w : World) (d : ℤ)
      → is_open (send_request_and_drain nl ntop4 ntop6 World calls close family ifindex fd w).1 d
        ≡ is_open w d
  unfolding send_request_and_drain
  send_request-same family ifindex fd w d =
      let request = build_request nl ntop4 ntop6 World calls close family in
      let (sent, w1) = calls.send fd request w in
      let n = drain_calls nl ntop4 ntop6 World calls close family ifindex (calls.batches fd w1) in
      elim (Bool-cases (is_size calls.sizeof_request sent)) [
        | inl whole ↦ rw whole (lawful.heard fd n w1 d ∙ lawful.sent fd request w d)
        | inr cut ↦ rw cut (lawful.sent fd request w d)
      ]

  -- The resolver leaves the same descriptors open as before, however it ends.
  pub resolve_gateway-is_open :
      (iface : Text) (family : ℕ) (w : World) (d : ℤ)
      → is_open (resolve_gateway nl ntop4 ntop6 World calls close iface family w).1 d ≡ is_open w d
  unfolding resolve
  resolve_gateway-is_open iface family w =
      let ifindex = calls.if_nametoindex (c_str iface) w in
      let (fd, w1) = calls.socket_route w in
      let s = send_request_and_drain nl ntop4 ntop6 World calls close family ifindex fd w1 in
      elim (Bool-cases (ifindex == 0)) [
        | inl missing ↦ rw missing (λ d. refl)
        | inr there ↦ elim (Bool-cases (is_negative fd)) [
          | inl none_made ↦ rw (there, none_made) (lawful.not_made w none_made)
          | inr got ↦
              let m = lawful.made w got in
              let same = send_request-same family ifindex fd w1 in
              rw (there, got)
                (made_closed (is_open w) (is_open s.1) (is_open (close fd s.1)) fd m.0
                  (λ d. same d ∙ m.1 d) (lawful.closed fd s.1))
        ]
      ]

  -- If the interface exists and the request is sent whole, and only then, the resolver answers the
  -- gateway of the last default route of its family over its interface that has a gateway with an
  -- address of the family, among the messages of the dump before the one that ends it, over however
  -- many batches they come in; and it leaves the same descriptors open as before, however it ends.
  -- RTA_OIF and RTA_GATEWAY are different types of attribute; and of the calls of the kernel, only
  -- socket(2) may open a descriptor, a fresh one, and only close(2) ends one.
  pub resolve_gateway_lem :
      (iface : Text) (family : ℕ) (w : World)
      → (nl.rta_oif == nl.rta_gateway) ≡ false
      → let ifindex = calls.if_nametoindex (c_str iface) w in
        let (fd, w1) = calls.socket_route w in
        let request = build_request nl ntop4 ntop6 World calls close family in
        let (sent, w2) = calls.send fd request w1 in
        let r = resolve_gateway nl ntop4 ntop6 World calls close iface family w in
        (r.0 ≡ (
          if not (ifindex == 0) && not (is_negative fd) && is_size calls.sizeof_request sent
          then last_gateway nl ntop4 ntop6 family ifindex (dumped nl (calls.batches fd w2)) none
          else none))
        × ((d : ℤ) → is_open r.1 d ≡ is_open w d)
  unfolding resolve send_request_and_drain
  resolve_gateway_lem iface family w apart =
      let ifindex = calls.if_nametoindex (c_str iface) w in
      let (fd, w1) = calls.socket_route w in
      let request = build_request nl ntop4 ntop6 World calls close family in
      let (sent, w2) = calls.send fd request w1 in
      let answer = drain_lem nl ntop4 ntop6 family ifindex apart (calls.batches fd w2) none in
      (
        elim (Bool-cases (ifindex == 0)) [
          | inl missing ↦ rw missing refl
          | inr there ↦ elim (Bool-cases (is_negative fd)) [
            | inl none_made ↦ rw (there, none_made) refl
            | inr got ↦ rw (there, got) (ground (arith, answer))
          ]
        ],
        resolve_gateway-is_open iface family w,
      )
