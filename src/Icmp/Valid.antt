-- ===== src/Icmp/Valid.antt =====
-- The checksum of an echo request is valid.
use conwatch.Prelude.{ℕ, ◌+◌, ◌*◌, ◌<◌, ◌≡◌, arith}
use conwatch.Icmp.{sum_words, fold_sum, checksum, echo_packet, echo_request4}

-- The sum of the words of an echo request, with any checksum in its field.
echo_sum :
    (sum id seq : ℕ)
    → sum < 65536
    → id < 65536
    → seq < 65536
    → sum_words (echo_packet 8 sum id seq) 0 ≡ 8 + sum + id + seq + 8 * 16962
unfolding sum_words echo_packet
echo_sum sum id seq s i q = omega arith

fold_back : (t : ℕ) → t < 4294901760 → fold_sum (t + fold_sum t) ≡ 0
unfolding fold_sum
fold_back t h = omega arith

fold_sum-lt : (t : ℕ) → fold_sum t < 65536
unfolding fold_sum
fold_sum-lt t = omega arith

-- The checksum that is written into an echo request makes the sum of the whole packet that of a
-- valid one, so that a receiver which runs the same checksum over it gets 0; and it fits its field.
pub echo_request4-checksum :
    (pid seq : ℕ)
    → pid < 65536
    → seq < 65536
    → (checksum (echo_request4 pid seq) ≡ 0) × (checksum (echo_packet 8 0 pid seq) < 65536)
unfolding echo_request4 checksum
echo_request4-checksum pid seq p q =
    let total = 8 + 0 + pid + seq + 8 * 16962 in
    let first = echo_sum 0 pid seq (omega arith) p q in
    let fits = fold_sum-lt total in
    let regroup : 8 + fold_sum total + pid + seq + 8 * 16962 ≡ total + fold_sum total =
      omega arith in
    (
      rw (first, echo_sum (fold_sum total) pid seq fits p q, regroup)
          (fold_back total (omega arith)),
      rw first fits,
    )
