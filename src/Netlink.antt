-- ===== src/Netlink.antt =====
-- src/watcher/netlink.hpp and netlink.cpp: from a received buffer to the calls of the two callbacks.
pub mod Calls
pub mod Flags
pub mod Socket
pub mod Descriptors
pub mod Lab
mod Tests
use Prim.Native.Nat.{bit_and}
use conwatch.Prelude.{
  ℕ, ◌-◌, Bool, true, false, not, ◌&&◌, ◌||◌, ◌==◌, Option, none, some, List, [], ◌∷◌, ◌++◌, Text,
  length, take, if◌then◌else◌, is_empty,
}
use conwatch.Rtnetlink.{Rtnetlink, messages, attributes}

-- A call of `onChange` or of `onRemoved`.
pub data Call : Type 0 where
  change : ℕ → Text → Bool → Call
  remove : ℕ → Call

-- The calls made, in order, and whether the handler then left by an exception.
pub record Handled : Type 0 where
  pub calls : List Call
  pub thrown : Bool

abbrev pub add_call : Call → Handled → Handled
add_call c h = record h { calls = c ∷ h.calls }

module _ (nl : Rtnetlink) where
  -- `name.assign(data, payload - 1)`: a payload of no bytes asks for SIZE_MAX bytes, and throws.
  unfoldable pub assign_name : Text → Option Text
  assign_name [] = none
  assign_name (x ∷ xs) = some (take (length xs) (x ∷ xs))

  -- The loop over the attributes, up to its `break`.
  unfoldable pub find_name : List nl.Attrs → Option Text
  find_name [] = some []
  find_name (a ∷ as') =
      let rest = find_name as' in
      if nl.rta_type a == nl.ifla_ifname then assign_name (nl.rta_data a) else rest

  unfoldable pub extract_if_name : nl.Messages → Option Text
  extract_if_name m = find_name (attributes nl (nl.ifla_rta m))

  abbrev pub has_flag : ℕ → ℕ → Bool
  has_flag flags mask = not (bit_and flags mask == 0)

  unfoldable pub is_operationally_up : ℕ → Bool
  is_operationally_up flags =
      has_flag flags nl.iff_up && has_flag flags nl.iff_running && has_flag flags nl.iff_lower_up

  -- The rest of the loop's body behind the read of the name.
  unfoldable pub report : nl.Messages → Text → Handled → Handled
  report m name rest =
      if nl.nlmsg_type m == nl.rtm_dellink
      then add_call (remove (nl.ifi_index m)) rest
      else (if is_empty name
          then rest
          else add_call (change (nl.ifi_index m) name (is_operationally_up (nl.ifi_flags m))) rest)

  abbrev pub report_named : nl.Messages → Option Text → Handled → Handled
  report_named m none rest = record { calls = []; thrown = true }
  report_named m (some name) rest = report m name rest

  abbrev pub is_link : nl.Messages → Bool
  is_link m = (nl.nlmsg_type m == nl.rtm_newlink) || (nl.nlmsg_type m == nl.rtm_dellink)

  abbrev pub is_control : nl.Messages → Bool
  is_control m = (nl.nlmsg_type m == nl.nlmsg_done) || (nl.nlmsg_type m == nl.nlmsg_error)

  unfoldable pub handle_messages : List nl.Messages → Handled
  handle_messages [] = record { calls = []; thrown = false }
  handle_messages (m ∷ ms) =
      let rest = handle_messages ms in
      if is_control m
      then rest
      else (if not (is_link m) then rest else report_named m (extract_if_name m) rest)

  -- One received buffer.
  unfoldable pub handle_message : nl.Messages → Handled
  handle_message buf = handle_messages (messages nl buf)

  -- The buffers that recv(2) returns before it returns 0 or less.
  unfoldable pub process_pending_messages : List nl.Messages → Handled
  process_pending_messages [] = record { calls = []; thrown = false }
  process_pending_messages (buf ∷ bufs) =
      let h = handle_message buf in
      let rest = process_pending_messages bufs in
      if h.thrown then h else record rest { calls = h.calls ++ rest.calls }
