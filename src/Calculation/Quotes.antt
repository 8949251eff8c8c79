-- ===== src/Calculation/Quotes.antt =====
-- src/calculation/curve.rs and maverick.rs: outputs that a call of a contract answers.
use base_buster.Prelude.{
  ℕ, ◌^◌, Bool, false, List, Option, none, some, Outcome, ok, panic, unwrap, ◌>>=◌, ltb,
  if◌then◌else◌,
}
use base_buster.Prelude.Int.{ℤ}
use base_buster.Pool.{Address, U256}
use base_buster.Quoter.{TxEnv, ExecutionResult, success, revert, halt}

-- `get_dy` of a Curve pool, and `calculateSwap` of Maverick's quoter.
pub record GetDyCall : Type 0 where
  pub i : U256
  pub j : U256
  pub dx : U256

pub record CalculateSwapCall : Type 0 where
  pub pool : Address
  pub amount : ℕ
  pub token_a_in : Bool
  pub exact_output : Bool
  pub tick_limit : ℤ

-- revm over the database, of type `S`, and alloy's encodings and decodings.
pub record QuoteEvm (S : Type 0) : Type 0 where
  pub transact : S → TxEnv → Option (S × ExecutionResult)
  pub encode_get_dy : GetDyCall → List ℕ
  pub encode_calculate_swap : CalculateSwapCall → List ℕ
  pub decode_amount : List ℕ → Option U256
  pub decode_three : List ℕ → Option (U256 × U256 × U256)

abbrev pub quote_call : Address → List ℕ → TxEnv
quote_call to calldata = record {
  caller = 1;
  value = 0;
  gas_limit = none;
  transact_to = to;
  tx_data = calldata;
}

abbrev pub maverick_quoter : Address
maverick_quoter = 0xb40afdb85a07f37ae217e7d6462e609900dd8d7a

module _ {S : Type 0} (evm : QuoteEvm S) where
  -- A call that fails, or answers what cannot be decoded, is an output of 0.
  unfoldable pub curve_amount : ExecutionResult → U256
  curve_amount (success value) = elim (evm.decode_amount value) [ some a ↦ a | none ↦ 0 ]
  curve_amount (revert output) = 0
  curve_amount halt = 0

  unfoldable pub curve_out : S → U256 → U256 → U256 → Address → Outcome (S × U256)
  curve_out db index_in index_out amount_in pool = do
    let calldata = evm.encode_get_dy (record { i = index_in; j = index_out; dx = amount_in })
    (db', result) ← unwrap (evm.transact db (quote_call pool calldata))
    ok (db', curve_amount result)

  unfoldable pub maverick_amount : ExecutionResult → U256
  maverick_amount (success value) = elim (evm.decode_three value) [ some out ↦ out.1 | none ↦ 0 ]
  maverick_amount (revert output) = 0
  maverick_amount halt = 0

  -- `amount_in.to::<u128>()` panics on an amount that does not fit.
  unfoldable pub maverick_v2_out : S → U256 → Address → Bool → ℤ → Outcome (S × U256)
  maverick_v2_out db amount_in pool zero_for_one tick_limit = do
    amount ← if ltb amount_in (2 ^ 128) then ok amount_in else panic
    let calldata = evm.encode_calculate_swap (record {
      pool = pool;
      amount = amount;
      token_a_in = zero_for_one;
      exact_output = false;
      tick_limit = tick_limit;
    })
    (db', result) ← unwrap (evm.transact db (quote_call maverick_quoter calldata))
    ok (db', maverick_amount result)
