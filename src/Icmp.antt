-- ===== src/Icmp.antt =====
-- The ICMP packets of src/conwatch-tray: checksum (ping_monitor_addr.cpp), the echo requests and the
-- test of a reply (ping_monitor_socket4.cpp, ping_monitor_socket6.cpp). A buffer is its bytes; the
-- host is little-endian, and the header layouts are those of RFC 791, 792 and 4443.
pub mod Valid
pub mod Reply
pub mod Rfc1071
mod Tests
use conwatch.Prelude.{
  ℕ, zero, suc, ◌+◌, ◌-◌, ◌*◌, ◌/◌, ◌%◌, ◌^◌, Bool, true, false, ◌&&◌, ◌==◌, List, [], ◌∷◌, ◌++◌,
  Text, length, get_or, replicate, ltb, if◌then◌else◌,
}

-- The sum of `checksum`: 16-bit words, and a last byte; a `uint32_t` wraps.
unfoldable pub sum_words : List ℕ → ℕ → ℕ
sum_words [] sum = sum
sum_words (b ∷ []) sum = (sum + b) % 4294967296
sum_words (lo ∷ hi ∷ rest) sum = sum_words rest ((sum + (lo + 256 * hi)) % 4294967296)

-- The two folds and the complement.
unfoldable pub fold_sum : ℕ → ℕ
fold_sum sum =
    let once = (sum / 65536 + sum % 65536) % 4294967296 in
    let twice = (once + once / 65536) % 4294967296 in (4294967295 - twice) % 65536

unfoldable pub checksum : List ℕ → ℕ
checksum buf = fold_sum (sum_words buf 0)

-- A 16-bit field as it lies in memory.
abbrev pub word_bytes : ℕ → List ℕ
word_bytes w = (w % 256) ∷ (w / 256 % 256) ∷ []

abbrev pub payload : List ℕ
payload = replicate 16 0x42

-- Type, code, checksum, identifier, sequence number, and the payload.
unfoldable pub echo_packet : ℕ → ℕ → ℕ → ℕ → List ℕ
echo_packet ty sum id seq = ty ∷ 0 ∷ word_bytes sum ++ word_bytes id ++ word_bytes seq ++ payload

-- ICMP_ECHO with its checksum.
unfoldable pub echo_request4 : ℕ → ℕ → List ℕ
echo_request4 pid seq = echo_packet 8 (checksum (echo_packet 8 0 pid seq)) pid seq

-- ICMP6_ECHO_REQUEST; the kernel fills in the checksum.
unfoldable pub echo_request6 : ℕ → ℕ → List ℕ
echo_request6 pid seq = echo_packet 128 0 pid seq

-- The `uint16_t` at an offset of a buffer.
abbrev pub word_at : List ℕ → ℕ → ℕ
word_at buf i = get_or buf i 0 + 256 * get_or buf (suc i) 0

-- `buf` is what recvfrom stored, so `n` is its length. The header length is the low half of the
-- first byte, in words of four bytes; then come ICMP_ECHOREPLY and the identifier.
unfoldable pub is_matching_reply4 : List ℕ → ℕ → Bool
is_matching_reply4 buf pid =
    let ip_header_len = get_or buf 0 0 % 16 * 4 in
    if ltb (length buf) (ip_header_len + 8)
    then false
    else (get_or buf ip_header_len 0 == 0) && (word_at buf (ip_header_len + 4) == pid)

-- ICMP6_ECHO_REPLY; the buffer starts at the ICMPv6 header.
unfoldable pub is_matching_reply6 : List ℕ → ℕ → Bool
is_matching_reply6 buf pid =
    if ltb (length buf) 8 then false else (get_or buf 0 0 == 129) && (word_at buf 4 == pid)
