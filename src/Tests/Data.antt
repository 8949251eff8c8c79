-- ===== src/Tests/Data.antt =====
-- Data that the tests share.
use base_buster.Prelude.{ℕ, ◌+◌, ◌*◌, true, false, List, [], ◌∷◌, none, some}
use base_buster.Pool.{Pool, V2Pool, uniswap_v2}
use base_buster.StateDb.Types.{AccountInfo, BlockStateDb, Provider, Evm, untouched, on_chain}

abbrev pub some_info : AccountInfo
some_info = record { balance = 2; nonce = 1; code_hash = 5; code = some (1 ∷ []) }

abbrev pub no_info : AccountInfo
no_info = record { balance = 0; nonce = 0; code_hash = 0; code = none }

abbrev keccak : List ℕ → ℕ
keccak (w ∷ o ∷ []) = w * 16 + o + 15
keccak _ = 0

abbrev pub test_evm : Evm
test_evm = record {
  hash_slow = λ code. 5;
  keccak_empty = 0;
  keccak256 = keccak;
  default_info = no_info;
}

abbrev pub node : Provider
node = record {
  get_transaction_count = λ a. some 1;
  get_balance = λ a. some 2;
  get_code_at = λ a. some (1 ∷ []);
  get_storage_at = λ a i. some 42;
  get_block_hash = λ n. some (some 7);
}

abbrev pub empty_db : BlockStateDb
empty_db = record { accounts = []; contracts = []; block_hashes = []; pools = []; pool_info = [] }

-- One account, 1, with one slot, 8.
abbrev pub account_db : BlockStateDb
account_db = record {
  accounts =
      (
        1,
        record {
          info = no_info;
          state = untouched;
          storage = (8, record { value = 42; insertion_type = on_chain }) ∷ [];
          insertion_type = on_chain;
        },
      )
      ∷ [];
  contracts = [];
  block_hashes = [];
  pools = 1 ∷ [];
  pool_info = [];
}

-- The same account without its slot.
abbrev pub bare_db : BlockStateDb
bare_db = record account_db {
  accounts =
      (1, record { info = no_info; state = untouched; storage = []; insertion_type = on_chain })
      ∷ [];
}

abbrev pub test_v2 : V2Pool
test_v2 = record { token0_reserves = 1000; token1_reserves = 2000; stable = none }

abbrev pub test_pool : Pool
test_pool = record {
  address = 1;
  token0_address = 10;
  token1_address = 11;
  token0_decimals = 18;
  token1_decimals = 18;
  pool_type = uniswap_v2;
  fee = 0;
  is_v2 = true;
  is_v3 = false;
  get_v2 = some test_v2;
  get_v3 = none;
  tokens = [];
  balance = λ a. 0;
}
