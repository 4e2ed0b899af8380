-- ===== src/Icmp/Tests.antt =====
-- A request of process 0x1234, and its reply behind a header of twenty bytes.
use conwatch.Prelude.{ℕ, ◌<◌, ◌≡◌, ◌-◌, refl, true, List, [], ◌∷◌, ◌++◌, replicate, arith}
use conwatch.Icmp.{checksum, sum_words, fold_sum, echo_packet, echo_request4, is_matching_reply4}
use conwatch.Icmp.Rfc1071.{AllBytes, ones_sum, checksum-ones_sum}
use conwatch.Icmp.Valid.{echo_request4-checksum}
use conwatch.Icmp.Reply.{is_matching_reply4_lem}

-- An odd last byte is added as it is.
odd_length : checksum (1 ∷ 0 ∷ 2 ∷ 0 ∷ 7 ∷ []) ≡ 65525
unfolding checksum sum_words fold_sum
odd_length = refl

echo_request4-checksum_example :
    (checksum (echo_request4 0x1234 7) ≡ 0) × (checksum (echo_packet 8 0 0x1234 7) < 65536)
echo_request4-checksum_example = echo_request4-checksum 0x1234 7 (omega arith) (omega arith)

abbrev header : List ℕ
header = 0x45 ∷ replicate 19 0

is_matching_reply4_lem_example :
    is_matching_reply4 (header ++ echo_packet 0 0xbeef 0x1234 3) 0x1234 ≡ true
is_matching_reply4_lem_example =
    is_matching_reply4_lem header 0 0xbeef 0x1234 3 0x1234 refl (omega arith)

-- The packet of the request above, a byte short of its last.
abbrev odd_packet : List ℕ
odd_packet = 8 ∷ 0 ∷ 0 ∷ 0 ∷ 0x12 ∷ 0x34 ∷ 0 ∷ 7 ∷ 0xff ∷ []

odd_packet-AllBytes : AllBytes odd_packet
odd_packet-AllBytes = ground arith

checksum-ones_sum_example : checksum odd_packet ≡ 65535 - ones_sum odd_packet 0
checksum-ones_sum_example = checksum-ones_sum odd_packet odd_packet-AllBytes (omega arith)
