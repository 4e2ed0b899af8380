-- ===== src/Ping/Probes/Kinds.antt =====
-- The requests that a monitor may send.
use conwatch.Prelude.{ℕ, ◌≡◌, ◌⊎◌, some, List, Text, c_str, leb, if◌then◌else◌}
use conwatch.Icmp.{echo_request4, echo_request6}
use conwatch.Ping.{System, ProtoTrack}
use conwatch.Ping.Track.{is_active}

-- At most two in a tick, and the second only from the tenth loss on.
abbrev pub allowed : ProtoTrack → ℕ
allowed t = if is_active t then (if leb 10 t.fail_streak then 2 else 1) else 0

module _ (sys : System) (pid : ℕ) where
  -- An echo request of this process to an address in text.
  abbrev pub Echo4 : Text → List ℕ × Text → Type 0
  Echo4 ip (packet, to) =
      (seq : ℕ) × (packet ≡ echo_request4 pid seq) × (sys.pton4 (c_str ip) ≡ some to)

  abbrev pub Echo6 : Text → List ℕ × Text → Type 0
  Echo6 ip (packet, to) =
      (seq : ℕ) × (packet ≡ echo_request6 pid seq) × (sys.pton6 (c_str ip) ≡ some to)

  -- To the target of a protocol, or to its gateway.
  abbrev pub Probe4 : ProtoTrack → List ℕ × Text → Type 0
  Probe4 t e = Echo4 t.target_ip e ⊎ Echo4 t.gateway_ip e

  abbrev pub Probe6 : ProtoTrack → List ℕ × Text → Type 0
  Probe6 t e = Echo6 t.target_ip e ⊎ Echo6 t.gateway_ip e
