-- ===== src/TxSender.antt =====
-- src/tx_sender.rs and src/gas_station.rs: the fees of a transaction, its nonce, and the polling for
-- its receipt.
pub mod Laws
use base_buster.Prelude.{
  ℕ, zero, suc, ◌+◌, ◌/◌, ◌^◌, Bool, List, [], ◌∷◌, Option, none, some, Outcome, ok, panic, ◌>>=◌,
  ltb, if◌then◌else◌, expect_ok,
}
use base_buster.Pool.{Address, U256}
use base_buster.Swap.{SwapParams, FlashSwapParams, to_flash_swap}

-- `GasStation`: the base fee of the next block. A profit whose half needs more than 128 bits panics.
unfoldable pub get_gas_fees : ℕ → U256 → Outcome (ℕ × ℕ)
get_gas_fees base_fee profit =
    let half = profit / 2 in
    if ltb half (2 ^ 128) then ok (base_fee + half / 350_000, half / 350_000) else panic

-- The blocks that `update_gas` receives, with alloy's rule for the next base fee.
pub record GasHeader : Type 0 where
  pub base_fee_per_gas : Option ℕ
  pub gas_used : ℕ
  pub gas_limit : ℕ

module _ (calc_next_block_base_fee : ℕ → ℕ → ℕ → ℕ) where
  unfoldable pub update_gas : ℕ → List GasHeader → Outcome ℕ
  update_gas base_fee [] = ok base_fee
  update_gas base_fee (header ∷ headers) = elim header.base_fee_per_gas [
    | none ↦ panic
    | some fee ↦ update_gas (calc_next_block_base_fee header.gas_used header.gas_limit fee) headers
  ]

pub record TransactionRequest : Type 0 where
  pub to : Address
  pub nonce : ℕ
  pub gas_limit : ℕ
  pub chain_id : ℕ
  pub max_fee_per_gas : ℕ
  pub max_priority_fee_per_gas : ℕ
  pub input : FlashSwapParams

pub record TransactionSender : Type 0 where
  pub contract_address : Address
  pub nonce : ℕ

-- A path that passed the simulation, its profit, and the base fee when it is sent.
pub record ValidPath : Type 0 where
  pub arb_path : SwapParams
  pub profit : U256
  pub base_fee : ℕ

unfoldable pub request : TransactionSender → ValidPath → ℕ × ℕ → TransactionRequest
request s event (max_fee, priority_fee) = record {
  to = s.contract_address;
  nonce = s.nonce;
  gas_limit = 2_000_000;
  chain_id = 8453;
  max_fee_per_gas = max_fee;
  max_priority_fee_per_gas = priority_fee;
  input = to_flash_swap event.arb_path;
}

-- `send` signs, encodes and posts the transaction; an error there panics.
module _ (send : TransactionRequest → Outcome ℕ) where
  unfoldable pub send_transactions :
      TransactionSender → List ValidPath → Outcome (TransactionSender × List TransactionRequest)
  send_transactions s [] = ok (s, [])
  send_transactions s (event ∷ events) = do
    fees ← get_gas_fees event.base_fee event.profit
    let tx = request s event fees
    let next : TransactionSender = record s { nonce = suc s.nonce }
    tx_hash ← expect_ok (send tx)
    (end, sent) ← send_transactions next events
    ok (end, tx ∷ sent)

-- The polling loop of `send_and_monitor`: the attempts made and the receipt's block, if it came.
unfoldable pub poll : (ℕ → Option ℕ) → ℕ → ℕ → ℕ × Option ℕ
poll receipt zero attempts = (attempts, none)
poll receipt (suc left) attempts = elim (receipt attempts) [
  | some block ↦ (attempts, some block)
  | none ↦ poll receipt left (suc attempts)
]

unfoldable pub send_and_monitor : (ℕ → Option ℕ) → ℕ × Option ℕ
send_and_monitor receipt = poll receipt 10 0
