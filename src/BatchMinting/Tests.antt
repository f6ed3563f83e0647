-- ===== src/BatchMinting/Tests.antt =====
-- The theorems about batches on a queue of a first-time and an annual request.
use alive_human.Base.{ℕ, ◌≡◌, refl, true, false, String, [], ◌∷◌, Option, none, some, All, ok, err}
use alive_human.Base.Texts.{str_append}
use alive_human.Repository.Table.{table_repository}
use alive_human.MintingQueue.{
  Items, QueueItem, annual, first_time, blank, failed as item_failed, cancelled, same_status,
  resolved, rejected,
}
use alive_human.MintingQueue.Batches.{get_next_batch, request_of}
use alive_human.MintingQueue.Requests.{cancel_minting_request}
use alive_human.BatchMinting.{Records, Tokens, Config}
use alive_human.BatchMinting.Batch.{
  Minting, first_call, mint_first_time, mint_group, save_minted, sign_all, process_batch_mint,
}
use alive_human.BatchMinting.Requests.{pending, failed, prefix, get_mint_status}
use alive_human.BatchMinting.Rows.{AllStored}
use alive_human.BatchMinting.Groups.{is_settled}
use alive_human.BatchMinting.Runs.{process_batch_mint-settles}
use alive_human.BatchMinting.Failures.{get_mint_status-batch, failed_though_minted}

abbrev items : Items
items = table_repository (λ i. i.id)

abbrev records : Records
records = table_repository (λ r. r.id)

-- The token service sends every transaction, and refuses every signature.
abbrev tokens : Tokens
tokens = record {
  generate_proof = λ address. some ("0xp" ∷ []);
  sign = λ address device. rejected "no key";
  send = λ sent call. resolved "0xbeef";
  mint_for_new_user = λ address. resolved none;
  record_token_minting = λ address. resolved tt;
}

abbrev config : Config
config = record {
  batch_minting_enabled = true;
  batch_mint_max_size = 10;
  batch_minting_interval_ms = 300000;
}

abbrev ann : QueueItem
ann = record (blank "r1" "ann" "0xa" first_time 5) { device_id = some "d1"; priority = 10 }

abbrev bob : QueueItem
bob = record (blank "r2" "bob" "0xb" annual 6) { device_id = some "d2"; priority = 5 }

abbrev state : Minting items records
unfolding table_repository
state = record {
  queue = record {
    table = (ann ∷ bob ∷ [], (refl, (refl, tt)));
    calls = [];
    events = [];
    is_processing = false;
  };
  records = ([], tt);
  sent = [];
  recorded = [];
}

abbrev ids : ℕ → String
ids n = "m1"

abbrev clock : ℕ → ℕ
clock n = 100

process_batch_mint-settles_example :
    let batch = get_next_batch items state.queue 10 in
    let after = process_batch_mint items records tokens config ids clock clock state in
    AllStored items after.0.queue.table is_settled batch
    × ((hash : Option String)
        → after.1 ≡ ok hash
        → AllStored items after.0.queue.table (same_status cancelled) batch)
    × ((message : String)
        → after.1 ≡ err message
        → AllStored items after.0.queue.table (same_status item_failed) batch)
process_batch_mint-settles_example =
    process_batch_mint-settles items records tokens config ids clock clock state

get_mint_status-batch_example :
    let batch = get_next_batch items state.queue 10 in
    let after = process_batch_mint items records tokens config ids clock clock state in
    ((hash : Option String)
      → after.1 ≡ ok hash
      → All (λ m. get_mint_status items records after.0 (str_append prefix m.id) ≡ pending) batch)
    × ((message : String)
        → after.1 ≡ err message
        → All
            (λ m.
              (shown : String) × (get_mint_status items records after.0 (str_append prefix m.id)
                ≡ failed shown))
            batch)
get_mint_status-batch_example =
    get_mint_status-batch items records tokens config ids clock clock state

failed_though_minted_example :
    let after = process_batch_mint items records tokens config ids clock clock state in
    (tokens.send [] (first_call items records tokens (request_of ann ∷ [])) ≡ resolved "0xbeef")
    × (after.1 ≡ err "no key")
    × (after.0.sent ≡ first_call items records tokens (request_of ann ∷ []) ∷ [])
    × AllStored items after.0.queue.table
        (same_status item_failed)
        (get_next_batch items state.queue 10)
unfolding state table_repository get_next_batch request_of mint_first_time mint_group save_minted
    cancel_minting_request sign_all
failed_though_minted_example =
    failed_though_minted items records tokens config ids clock clock state "0xbeef" "no key"
      (request_of ann) (request_of bob) [] [] refl refl refl refl
