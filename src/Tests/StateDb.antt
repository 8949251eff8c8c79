-- ===== src/Tests/StateDb.antt =====
-- Runs of the database.
use base_buster.Prelude.{◌≡◌, refl, true, false, [], ◌∷◌, some, ok, arith}
use base_buster.Prelude.Maps.{lookup, insert}
use base_buster.StateDb.Types.{BlockStateDb, Provider, custom, untouched, on_chain}
use base_buster.StateDb.Database.{
  slot_at, storage, storage_ref, basic_ref, store_slot, write_slot, update_all_slots,
  insert_account_storage, code_by_hash_ref, custom_slot,
}
use base_buster.StateDb.ReadThrough.{Pinned, storage-storage_ref, storage_total}
use base_buster.StateDb.Insertions.{update_all_slots-storage_ref}
use base_buster.StateDb.Commit.{Account, commit_account}
use base_buster.StateDb.Commit.Laws.{
  slot_at-commit_account, storage_ref-commit_cleared, code_by_hash_ref-commit_account,
}
use base_buster.StateDb.V2.{insert_v2, get_reserves, get_token0, get_token1}
use base_buster.StateDb.V2.Laws.{insert_v2-get}
use base_buster.Tests.Data.{
  test_evm, node, empty_db, account_db, bare_db, test_pool, test_v2, some_info, no_info,
}

read_8 : storage test_evm node bare_db 1 8 ≡ ok (42, account_db)
unfolding storage storage_ref slot_at store_slot write_slot lookup insert
read_8 = refl

storage-storage_ref_example :
    (storage_ref node bare_db 1 8 ≡ ok 42) × Pinned bare_db account_db 1 8 42
storage-storage_ref_example = storage-storage_ref test_evm bare_db 1 node 8 42 read_8

direct_8 : storage_ref node bare_db 1 8 ≡ ok 42
unfolding storage_ref slot_at lookup
direct_8 = refl

info_1 : basic_ref test_evm node bare_db 1 ≡ ok (some no_info)
unfolding basic_ref lookup
info_1 = refl

storage_total_example : (db' : BlockStateDb) × (storage test_evm node bare_db 1 8 ≡ ok (42, db'))
storage_total_example = storage_total test_evm bare_db 1 node 8 42 no_info direct_8 info_1

known_1 :
    lookup 1 bare_db.accounts
    ≡ some (record { info = no_info; state = untouched; storage = []; insertion_type = on_chain })
unfolding lookup
known_1 = refl

update_all_slots-storage_ref_example :
    storage_ref node (update_all_slots bare_db 1 ((8, 5) ∷ (9, 6) ∷ (8, 7) ∷ [])) 1 8 ≡ ok 7
update_all_slots-storage_ref_example =
    update_all_slots-storage_ref 1 bare_db ((8, 5) ∷ (9, 6) ∷ (8, 7) ∷ []) _ known_1 node 1 8

custom_db : BlockStateDb
custom_db = record bare_db {
  accounts =
      (
        1,
        record {
          info = no_info;
          state = untouched;
          storage = (3, custom_slot 9) ∷ [];
          insertion_type = on_chain;
        },
      )
      ∷ [];
}

insert_3 : insert_account_storage test_evm node bare_db 1 3 9 custom ≡ ok custom_db
unfolding custom_db insert_account_storage write_slot lookup insert
insert_3 = refl

abbrev created : Account
created = record {
  info = some_info;
  is_touched = true;
  is_selfdestructed = false;
  is_created = true;
  storage = (2, 6) ∷ [];
}

slot_at-commit_account_example :
    slot_at (commit_account test_evm account_db 1 created) 1 2 ≡ some (custom_slot 6)
slot_at-commit_account_example = slot_at-commit_account test_evm account_db 1 created 1 2

storage_ref-commit_cleared_example :
    storage_ref node (commit_account test_evm account_db 1 created) 1 8 ≡ ok 42
storage_ref-commit_cleared_example =
    storage_ref-commit_cleared test_evm account_db 1 created node 8 refl refl refl

code_by_hash_ref-commit_account_example :
    code_by_hash_ref (commit_account test_evm account_db 1 created) 5 ≡ ok (1 ∷ [])
unfolding lookup
code_by_hash_ref-commit_account_example =
    code_by_hash_ref-commit_account test_evm account_db 1 created 1 [] refl refl refl

info_new : basic_ref test_evm node empty_db 1 ≡ ok (some some_info)
unfolding basic_ref lookup
info_new = refl

insert_v2-get_example :
    (db' : BlockStateDb) × (insert_v2 test_evm node empty_db test_pool ≡ ok db')
    × ((q : Provider)
        → (get_reserves q db' 1 ≡ ok (1000, 2000))
          × (get_token0 q db' 1 ≡ ok 10)
          × (get_token1 q db' 1 ≡ ok 11))
insert_v2-get_example =
    insert_v2-get test_evm node empty_db test_pool test_v2 some_info info_new refl (omega arith)
      (omega arith) (omega arith) (omega arith)
