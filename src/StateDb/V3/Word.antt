-- ===== src/StateDb/V3/Word.antt =====
-- The packed word of slot 0.
use Prim.Native.Nat.{bit_and}
use base_buster.Prelude.{ℕ, ◌+◌, ◌-◌, ◌*◌, ◌^◌, ◌<◌, ◌≡◌, ◌∙◌, ap, true, not, ◌==◌, arith}
use base_buster.Prelude.Int.{ℤ, pos, negsuc}
use base_buster.Prelude.Words.{shl, shr}
use base_buster.Prelude.Bits.{bit_or_packed_right, bit_or-zero, bit_and_mask}
use base_buster.Prelude.Signed.{to_bits, of_bits, FitsSigned, of_bits-to_bits, to_bits-lt}
use base_buster.Pool.{U256}
use base_buster.StateDb.V3.{slot0_word, slot0_fields, bits24_mask}

tick_field :
    (z : ℤ)
    → FitsSigned (2 ^ 23) z
    → bit_and (to_bits (2 * 2 ^ 31) z) bits24_mask ≡ to_bits (2 * 2 ^ 23) z
unfolding to_bits
tick_field (pos n) h = omega (arith, bit_and_mask 24 (to_bits (2 * 2 ^ 31) (pos n)))
tick_field (negsuc n) h = omega (arith, bit_and_mask 24 (to_bits (2 * 2 ^ 31) (negsuc n)))

slot0_word-sum :
    (s : U256) (z : ℤ)
    → s < 2 ^ 160
    → FitsSigned (2 ^ 23) z
    → slot0_word s z ≡ 1 * 2 ^ 240 + (to_bits (2 * 2 ^ 23) z * 2 ^ 160 + s)
unfolding slot0_word
slot0_word-sum s z hs hz =
    let x : ℕ = to_bits (2 * 2 ^ 23) z in
    let small : x < 2 * 2 ^ 23 = to_bits-lt (2 * 2 ^ 23) z (omega arith) in
    let e : shl x 160 ≡ x * 2 ^ 160 = omega arith in
    rw (tick_field z hz) (
      rw e (
        rw (bit_or_packed_right 160 x s hs)
          (simp bit_or-zero (bit_or_packed_right 240 1 (x * 2 ^ 160 + s) (omega arith)))))

-- A price of 160 bits and a tick of 24 bits read back; the other fields are zero and the pool is
-- unlocked.
pub slot0_fields-slot0_word :
    (s : U256) (z : ℤ)
    → s < 2 ^ 160
    → FitsSigned (2 ^ 23) z
    → slot0_fields (slot0_word s z) ≡ record {
      sqrt_price_x96 = s;
      tick = z;
      observation_index = 0;
      observation_cardinality = 0;
      observation_cardinality_next = 0;
      fee_protocol = 0;
      unlocked = true;
    }
unfolding slot0_fields
slot0_fields-slot0_word s z hs hz =
    let x : ℕ = to_bits (2 * 2 ^ 23) z in
    let small : x < 2 * 2 ^ 23 = to_bits-lt (2 * 2 ^ 23) z (omega arith) in
    let c : ℕ = 1 * 2 ^ 240 + (x * 2 ^ 160 + s) in
    let f0 : bit_and c (2 ^ 160 - 1) ≡ s = omega (arith, bit_and_mask 160 c) in
    let f1 : bit_and (shr c 160) bits24_mask ≡ x = omega (arith, bit_and_mask 24 (shr c 160)) in
    let f2 : bit_and (shr c 184) (2 ^ 16 - 1) ≡ 0 = omega (arith, bit_and_mask 16 (shr c 184)) in
    let f3 : bit_and (shr c 200) (2 ^ 16 - 1) ≡ 0 = omega (arith, bit_and_mask 16 (shr c 200)) in
    let f4 : bit_and (shr c 216) (2 ^ 16 - 1) ≡ 0 = omega (arith, bit_and_mask 16 (shr c 216)) in
    let f5 : bit_and (shr c 232) (2 ^ 8 - 1) ≡ 0 = omega (arith, bit_and_mask 8 (shr c 232)) in
    let f6 : bit_and (shr c 240) (2 ^ 1 - 1) ≡ 1 = omega (arith, bit_and_mask 1 (shr c 240)) in
    rw (slot0_word-sum s z hs hz) (λ i. record {
      sqrt_price_x96 = f0 i;
      tick = (ap (of_bits (2 ^ 23)) f1 ∙ of_bits-to_bits (2 ^ 23) z (omega arith) hz) i;
      observation_index = f2 i;
      observation_cardinality = f3 i;
      observation_cardinality_next = f4 i;
      fee_protocol = f5 i;
      unlocked = not (f6 i == 0);
    })
