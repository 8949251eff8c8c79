-- ===== src/Quoter.antt =====
-- src/quoter.rs: a quote of a path by the EVM, and the search for a better input.
pub mod Laws
pub mod Stores
pub mod Extends
use base_buster.Prelude.{
  ℕ, zero, suc, Bool, true, false, ◌&&◌, List, last?, Option, none, some, Outcome, ok, err, panic,
  reverted, library, unwrap, ◌>>=◌, ltb,
}
use base_buster.Prelude.Words.{wrapping_add}
use base_buster.Pool.{Address, U256}
use base_buster.Swap.{SwapParams, amount}

-- revm's `ExecutionResult`, with the bytes of the output.
pub data ExecutionResult : Type 0 where
  success revert : List ℕ → ExecutionResult
  halt : ExecutionResult

-- The fields of a transaction that the source sets; without a gas limit it has revm's default.
pub record TxEnv : Type 0 where
  pub caller : Address
  pub value : U256
  pub gas_limit : Option ℕ
  pub transact_to : Address
  pub tx_data : List ℕ

-- The step of the scan, `2e14`.
abbrev pub input_step : U256
input_step = 200_000_000_000_000

-- `transact` is the result of the quoter contract's run on the parameters, over the database that the
-- run finds; what it stores there is `store_reads` of Stores. `abi_decode` decodes its output.
module _ (transact : SwapParams → Outcome ExecutionResult)
    (abi_decode : List ℕ → Option (List U256)) where
  unfoldable pub decode_result : ExecutionResult → Outcome (List U256)
  decode_result (success value) = elim (abi_decode value) [
    | some amounts ↦ ok amounts
    | none ↦ err library
  ]
  decode_result (revert output) = err reverted
  decode_result halt = err library

  -- `evm.transact().unwrap()` panics on an error.
  unfoldable pub quote_path : SwapParams → Outcome (List U256)
  quote_path quote_params = elim (transact quote_params) [
    | ok result ↦ decode_result result
    | err e ↦ panic
    | panic ↦ panic
  ]

  -- The loop, with the turns that are left. Every `break` returns the best so far.
  unfoldable pub optimize_steps : ℕ → SwapParams → U256 → U256 → U256 → Outcome (U256 × U256)
  optimize_steps zero path curr_input best_input best_output = ok (best_input, best_output)
  optimize_steps (suc turns) path curr_input best_input best_output =
      let next_input = wrapping_add curr_input input_step in
      elim (quote_path (record path { amount_in = next_input })) [
        | err e ↦ ok (best_input, best_output)
        | panic ↦ panic
        | ok amounts ↦ elim (last? amounts) [
          | none ↦ panic
          | some output ↦ elim (ltb next_input output && ltb best_output output) [
            | true ↦ optimize_steps turns path next_input next_input output
            | false ↦ ok (best_input, best_output)
          ]
        ]
      ]

  unfoldable pub optimize_input : SwapParams → U256 → Outcome (U256 × U256)
  optimize_input quote_path initial_out = optimize_steps 50 quote_path amount amount initial_out
