-- ===== src/Tests/Blocks.antt =====
-- A node at height 4 adds the block of the transfer of Transactions at height 5. The text of a block
-- is its own hash, and the stores count their writes.
use kolme.Prelude.{ℕ, ◌≡◌, refl, [], ◌∷◌, some, none, ok, arith, ◌+◌}
use kolme.Prelude.Int.{ℤ}
use kolme.Context.{validate_data_loads}
use kolme.Chain.{
  SignedBlock, at_block, Storing, Kolme, add_block_with, get_next_height, get_block_hash,
}
use kolme.Chain.Adding.{IsAdded, add_block_with-IsAdded}
use kolme.Chain.Latest.{
  SignedLatest, update_latest_block, update_all, IsNoOlder, update_all-IsNoOlder, increasing_middle,
  IsMiddle, increasing_middle-IsMiddle,
}
use kolme.Chain.Linked.{add_all, IsLinked, add_all-IsLinked}
use kolme.Tests.Decimals.{whole_ops}
use kolme.Tests.Transactions.{host, state, signed}

abbrev counting : Storing ℤ ℕ ℕ ℕ
counting = record {
  message_hash = λ text. text;
  save_framework_state = λ s t. (ok 21, t + 1);
  save_app_state = λ s t. (ok 22, t + 1);
  save_logs = λ s t. (ok 23, t + 1);
  add_block = λ block t. (ok tt, t + 1);
  add_signed_block = λ block t. t;
  get_next_to_archive = λ t. (ok 5, t);
  archive_block = λ height t. t + 1;
}

abbrev fourth : SignedBlock ℤ ℕ
fourth = record {
  message = record {
    serialized = 40;
    value = record {
      tx = signed;
      timestamp = 9;
      processor = 1;
      height = 4;
      parent = 30;
      framework_state = 21;
      app_state = 22;
      logs = 23;
      loads = [];
    };
  };
  signature = 1;
}

abbrev pub fifth : SignedBlock ℤ ℕ
fifth = record fourth {
  message = record {
    serialized = 50;
    value = record fourth.message.value { timestamp = 10; height = 5; parent = 40 };
  };
}

abbrev node : Kolme ℤ ℕ ℕ ℕ
node = record {
  current_block =
      at_block fourth (record { blockhash = 40; framework_state = state; app_state = 0 });
  code_version = 1;
  stores = 0;
}

added : (add_block_with host counting fifth validate_data_loads node).0 ≡ ok tt
unfolding add_block_with kolme.BTreeMap.get kolme.Accounts.burn kolme.BTreeMap.insert
    kolme.Accounts.mint kolme.Prelude.Int.◌-ℤ◌ kolme.Prelude.Int.◌+ℤ◌
added = refl

add_block_with-IsAdded_example :
    IsAdded host counting fifth validate_data_loads node
      (add_block_with host counting fifth validate_data_loads node).1
add_block_with-IsAdded_example =
    add_block_with-IsAdded host counting fifth validate_data_loads node added

all_added : (add_all host counting validate_data_loads (fifth ∷ []) node).0 ≡ ok tt
unfolding add_block_with kolme.BTreeMap.get kolme.Accounts.burn kolme.BTreeMap.insert
    kolme.Accounts.mint kolme.Prelude.Int.◌-ℤ◌ kolme.Prelude.Int.◌+ℤ◌
all_added = refl

add_all-IsLinked_example :
    IsLinked host counting validate_data_loads
      (get_next_height node.current_block)
      (get_block_hash node.current_block)
      (fifth ∷ [])
add_all-IsLinked_example =
    add_all-IsLinked host counting validate_data_loads (fifth ∷ []) node all_added

abbrev announced : ℕ → ℕ → SignedLatest
announced height when = record {
  message = record { serialized = height; value = record { height = height; when = when } };
  signature = 1;
}

-- A lower height and an older announcement are dropped.
kept :
    update_all (announced 4 9 ∷ announced 5 7 ∷ announced 6 12 ∷ []) (some (announced 5 8))
    ≡ some (announced 6 12)
unfolding update_latest_block
kept = refl

update_all-IsNoOlder_example :
    IsNoOlder
      (announced 5 8)
      (update_all (announced 4 9 ∷ announced 5 7 ∷ announced 6 12 ∷ []) (some (announced 5 8)))
update_all-IsNoOlder_example =
    update_all-IsNoOlder (announced 4 9 ∷ announced 5 7 ∷ announced 6 12 ∷ []) (announced 5 8)

increasing_middle_10 : increasing_middle 10 21 ≡ ok 16
unfolding increasing_middle
increasing_middle_10 = refl

increasing_middle-IsMiddle_example : IsMiddle 10 21 (increasing_middle 10 21)
increasing_middle-IsMiddle_example = increasing_middle-IsMiddle 10 21
