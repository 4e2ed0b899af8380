-- ===== src/Icmp/Rfc1071.antt =====
-- The checksum against RFC 1071: the complement of the ones' complement sum of the 16-bit words.
use conwatch.Prelude.{
  ℕ, ◌+◌, ◌-◌, ◌*◌, ◌/◌, ◌%◌, ◌≤◌, ◌<◌, ◌≡◌, sym, ap, ◌∙◌, List, [], ◌∷◌, arith, length, ◌==◌,
  if◌then◌else◌,
}
use conwatch.Icmp.{sum_words, fold_sum, checksum}

-- Addition with the carry brought round to the lowest bit.
abbrev pub ones_add : ℕ → ℕ → ℕ
ones_add a b = (a + b) % 65536 + (a + b) / 65536

-- The words of a buffer, added to a sum; an odd last byte is padded with zero.
abbrev pub ones_sum : List ℕ → ℕ → ℕ
ones_sum [] sum = sum
ones_sum (b ∷ []) sum = ones_add sum b
ones_sum (lo ∷ hi ∷ rest) sum = ones_sum rest (ones_add sum (lo + 256 * hi))

abbrev pub AllBytes : List ℕ → Type 0
AllBytes [] = Unit {0}
AllBytes (b ∷ bs) = (b < 256) × AllBytes bs

-- What a sum is in ones' complement.
residue : ℕ → ℕ
residue n = if n == 0 then 0 else (n - 1) % 65535 + 1

ones_add-residue : (n w : ℕ) → w ≤ 65535 → ones_add (residue n) w ≡ residue (n + w)
unfolding residue
ones_add-residue n w h = ground arith

fold_sum-residue : (s : ℕ) → s < 4294967296 → fold_sum s ≡ 65535 - residue s
unfolding fold_sum residue
fold_sum-residue s h = ground arith

-- A 32-bit sum does not wrap on a buffer of this size.
sum_words-residue :
    (buf : List ℕ) (sum : ℕ)
    → AllBytes buf
    → 2 * sum + 65535 * (length buf + 1) < 8589934592
    → fold_sum (sum_words buf sum) ≡ 65535 - ones_sum buf (residue sum)
unfolding sum_words
sum_words-residue [] sum a h = fold_sum-residue sum (omega arith)
sum_words-residue (b ∷ []) sum a h =
    let whole : (sum + b) % 4294967296 ≡ sum + b = omega arith in
    ap fold_sum whole
    ∙ fold_sum-residue (sum + b) (omega arith)
    ∙ ap (λ r. 65535 - r) (sym (ones_add-residue sum b (omega arith)))
sum_words-residue (lo ∷ hi ∷ rest) sum a h =
    let w = lo + 256 * hi in
    let whole : (sum + w) % 4294967296 ≡ sum + w = omega arith in
    rw whole (
      sum_words-residue rest (sum + w) a.1.1 (omega arith)
      ∙ ap (λ r. 65535 - ones_sum rest r) (sym (ones_add-residue sum w (omega arith))))

-- On a buffer of at most 131070 bytes, two folds of a 32-bit sum are enough: the checksum is the
-- complement of the ones' complement sum of its words, as RFC 1071 has it, an odd last byte counted
-- as a word of its own.
pub checksum-ones_sum :
    (buf : List ℕ) → AllBytes buf → length buf ≤ 131070 → checksum buf ≡ 65535 - ones_sum buf 0
unfolding checksum residue
checksum-ones_sum buf a h = sum_words-residue buf 0 a (omega arith)
