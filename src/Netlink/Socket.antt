-- ===== src/Netlink/Socket.antt =====
-- src/watcher/netlink.cpp: the descriptor of a NetlinkWatcher, from its constructor to its
-- destructor. The calls of the kernel and the constants of its headers are parameters.
use Prim.Native.Nat.{bit_or}
use conwatch.Prelude.{is_negative, ℕ, Bool, true, false, ℤ, negsuc, if◌then◌else◌}

-- The message of requestDump, and the family of the address that it goes to.
pub record DumpRequest : Type 0 where
  pub nlmsg_len : ℕ
  pub nlmsg_type : ℕ
  pub nlmsg_flags : ℕ
  pub nlmsg_seq : ℕ
  pub ifi_family : ℕ
  pub to_family : ℕ

-- `socket_route` is socket(AF_NETLINK, SOCK_RAW | SOCK_CLOEXEC, NETLINK_ROUTE), `bind s f g` binds
-- to the family f and the groups g; `World` is the state of the kernel.
pub record Kernel : Type 1 where
  pub World : Type 0
  pub socket_route : World → ℤ × World
  pub bind : ℤ → ℕ → ℕ → World → ℤ × World
  pub sendto : ℤ → DumpRequest → World → ℤ × World
  pub close : ℤ → World → World
  pub nlmsg_length : ℕ → ℕ
  pub sizeof_ifinfomsg : ℕ
  pub rtm_getlink : ℕ
  pub nlm_f_request : ℕ
  pub nlm_f_dump : ℕ
  pub rtmgrp_link : ℕ
  pub af_netlink : ℕ
  pub af_unspec : ℕ

pub record NetlinkWatcher : Type 0 where
  pub fd : ℤ

abbrev pub new_netlink : NetlinkWatcher
new_netlink = record { fd = negsuc 0 }

module _ (k : Kernel) where
  unfoldable pub dump_request : DumpRequest
  dump_request = record {
    nlmsg_len = k.nlmsg_length k.sizeof_ifinfomsg;
    nlmsg_type = k.rtm_getlink;
    nlmsg_flags = bit_or k.nlm_f_request k.nlm_f_dump;
    nlmsg_seq = 1;
    ifi_family = k.af_unspec;
    to_family = k.af_netlink;
  }

  -- A request that cannot be sent is only reported.
  unfoldable pub request_dump : NetlinkWatcher → k.World → k.World
  request_dump n w = (k.sendto n.fd dump_request w).1

  pub record Opened : Type 0 where
    pub ok : Bool
    pub netlink : NetlinkWatcher
    pub world : k.World

  unfoldable pub bind_new : NetlinkWatcher → k.World → Opened
  bind_new n w =
      let (bound, w1) = k.bind n.fd k.af_netlink k.rtmgrp_link w in
      if is_negative bound
      then record { ok = false; netlink = new_netlink; world = k.close n.fd w1 }
      else record { ok = true; netlink = n; world = request_dump n w1 }

  -- `open`, which does not look at the descriptor that was there before.
  unfoldable pub open_netlink : k.World → Opened
  open_netlink w =
      let (s, w1) = k.socket_route w in
      if is_negative s
      then record { ok = false; netlink = record { fd = s }; world = w1 }
      else bind_new (record { fd = s }) w1

  -- The destructor.
  unfoldable pub destroy : NetlinkWatcher → k.World → k.World
  destroy n w = if is_negative n.fd then w else k.close n.fd w
