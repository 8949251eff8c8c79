-- ===== src/Tests/Weighted.antt =====
-- Runs of the weighted pools' formula.
use base_buster.Prelude.{ℕ, ◌+◌, ◌-◌, ◌*◌, ◌≤◌, ◌≡◌, ok, refl, true, arith}
use base_buster.Prelude.Int.{pos, negsuc, ◌-ℤ◌}
use base_buster.Pool.{U256}
use base_buster.Calculation.Balancer.{weighted_out}
use base_buster.Calculation.Balancer.LogExp.{exp, valid_exponent}
use base_buster.Calculation.Balancer.Range.{exp-range}
use base_buster.Calculation.Balancer.Product.{weighted_out-product}

weighted_out-product_example :
    (out : U256) × (weighted_out 1000 3000 500 500 200 ≡ ok out)
    × (out ≤ 3000)
    × (1000 * 3000 ≤ (1000 + 200) * (3000 - out))
weighted_out-product_example =
    weighted_out-product 1000 3000 500 200 (omega arith) (omega arith) (omega arith) (omega arith)
      (omega arith) (omega arith)

accepted : valid_exponent (negsuc 999_999_999_999_999_999) ≡ true
unfolding ◌-ℤ◌
accepted = refl

exp-range_example :
    (r : ℕ) × (exp (negsuc 999_999_999_999_999_999) ≡ ok (pos r)) × (r ≤ 1_000_000_000_000_000_000)
exp-range_example = exp-range (negsuc 999_999_999_999_999_999) accepted
