-- ===== src/Netlink/Tests.antt =====
-- A dump of two links and a removal.
use conwatch.Prelude.{
  is_negative, ◌&&◌, ℤ, negsuc, not, ℕ, ◌≡◌, refl, true, false, List, [], ◌∷◌, ◌++◌, Text, codes,
}
use conwatch.Rtnetlink.{walk, messages, attributes}
use conwatch.Rtnetlink.Sample.{Frame, sample}
use conwatch.Netlink.{
  change, remove, assign_name, find_name, extract_if_name, is_operationally_up, report,
  handle_messages, handle_message,
}
use conwatch.Netlink.Socket.{open_netlink, destroy}
use conwatch.Netlink.Descriptors.{open_netlink-destroy}
use conwatch.Netlink.Lab.{kernel, is_open, kernel-IsLawful}
use conwatch.Netlink.Flags.{is_set, is_operationally_up-is_set}

abbrev link : ℕ → ℕ → ℕ → Text → Frame
link kind index flags name = record {
  kind = kind;
  index = index;
  flags = flags;
  family = 0;
  dst_len = 0;
  attrs = (3, name ++ 0 ∷ []) ∷ [];
}

abbrev buffer : List Frame
buffer =
    link 16 2 65603 (codes "wlan0")
    ∷ link 16 3 4099 (codes "eth0")
    ∷ link 16 9 1 []
    ∷ link 17 4 0 (codes "wg0")
    ∷ link 3 0 0 []
    ∷ []

handled :
    (handle_message sample buffer).calls
    ≡ change 2 (codes "wlan0") true ∷ change 3 (codes "eth0") false ∷ remove 4 ∷ []
unfolding handle_message handle_messages report extract_if_name find_name assign_name
    is_operationally_up messages attributes walk
handled = refl

-- A kernel that makes the socket and refuses to bind it.
bind_refused :
    let o = open_netlink (kernel (negsuc 0)) (1 ∷ 2 ∷ []) in
    ((d : ℤ) → is_open (destroy (kernel (negsuc 0)) o.netlink o.world) d ≡ is_open (1 ∷ 2 ∷ []) d)
    × (is_negative o.netlink.fd ≡ not o.ok)
bind_refused =
    open_netlink-destroy (kernel (negsuc 0)) is_open (kernel-IsLawful (negsuc 0)) (1 ∷ 2 ∷ [])

is_operationally_up-is_set_example :
    is_operationally_up sample 65603 ≡ is_set 65603 0 && is_set 65603 6 && is_set 65603 16
is_operationally_up-is_set_example = is_operationally_up-is_set sample 65603 refl refl refl
