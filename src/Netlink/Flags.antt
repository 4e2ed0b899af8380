-- ===== src/Netlink/Flags.antt =====
-- The flags of an interface, bit by bit.
use Prim.Native.Nat.{bit_and}
use mathlib.Core.Path.{ap₂}
use conwatch.Prelude.{zero, suc, ◌≤◌, ℕ, ◌*◌, ◌^◌, ◌≡◌, Bool, not, ◌&&◌, ◌==◌, arith}
use conwatch.Prelude.Bits.{bit_at, bit_and-bit_at, bit_at-lt}
use conwatch.Rtnetlink.{Rtnetlink}
use conwatch.Netlink.{has_flag, is_operationally_up}

abbrev pub is_set : ℕ → ℕ → Bool
is_set flags k = bit_at flags k == 1

bit_cases : (b mask : ℕ) → b ≤ 1 → 1 ≤ mask → not (b * mask == 0) ≡ (b == 1)
bit_cases zero mask h m = ground arith
bit_cases (suc zero) mask h m = ground arith
bit_cases (suc (suc b)) mask h m = absurd (omega arith)

module _ (nl : Rtnetlink) where
  has_flag-is_set :
      (flags k mask : ℕ) → mask ≡ 2 ^ k → 1 ≤ mask → has_flag nl flags mask ≡ is_set flags k
  has_flag-is_set flags k mask e m =
      let product : bit_and flags mask ≡ bit_at flags k * mask = rw e (bit_and-bit_at flags k) in
      rw product (bit_cases (bit_at flags k) mask (bit_at-lt flags k) m)

  -- With the masks of the Linux headers an interface is operationally up exactly if the bits 0, 6
  -- and 16 of its flags are set, whatever the others are: IFF_UP, IFF_RUNNING and IFF_LOWER_UP.
  pub is_operationally_up-is_set :
      (flags : ℕ)
      → nl.iff_up ≡ 2 ^ 0
      → nl.iff_running ≡ 2 ^ 6
      → nl.iff_lower_up ≡ 2 ^ 16
      → is_operationally_up nl flags ≡ is_set flags 0 && is_set flags 6 && is_set flags 16
  unfolding is_operationally_up
  is_operationally_up-is_set flags up running lower =
      ap₂ ◌&&◌
        (ap₂ ◌&&◌ (has_flag-is_set flags 0 nl.iff_up up (omega (arith, up)))
          (has_flag-is_set flags 6 nl.iff_running running (omega (arith, running))))
        (has_flag-is_set flags 16 nl.iff_lower_up lower (omega (arith, lower)))
