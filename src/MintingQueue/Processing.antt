-- ===== src/MintingQueue/Processing.antt =====
-- `processQueue` and `processQueueItem`: the scheduled batch, and one attempt at one request.
use alive_human.Base.{
  ℕ, suc, ◌≡◌, arith, ◌+◌, ◌*◌, ◌^◌, Bool, true, false, ◌&&◌, String, List, [], ◌∷◌, none, some,
  ltb, if◌then◌else◌,
}
use alive_human.MintingQueue.{
  Items, QueueItem, QueueEvent, World, Settled, resolved, rejected, Services, MintCall,
  first_time_mint, annual_mint, admin_mint, pending, processing, completed, failed, first_time,
  annual, referral, other, admin, is_pending, minting_completed, minting_failed,
}

-- The transaction of a request, by its type: the call, or the error before any call.
unfoldable pub call_for : Services → QueueItem → Settled MintCall
call_for services i = elim i.item_type [
  | first_time ↦ elim (services.parse_proof i.merkle_proof) [
    | resolved proof ↦ resolved (first_time_mint i.wallet_address i.device_id proof)
    | rejected e ↦ rejected e
  ]
  | annual ↦ resolved (annual_mint i.wallet_address i.device_id i.signature)
  | admin ↦ resolved (admin_mint i.wallet_address i.amount)
  | referral ↦ rejected "Unsupported minting type: referral"
  | other ↦ rejected "Unsupported minting type: other"
]

abbrev pub attempted : Settled MintCall → List MintCall → List MintCall
attempted (resolved call) calls = call ∷ calls
attempted (rejected e) calls = calls

-- What the body of the `try` settles with.
abbrev pub answer : Services → List MintCall → Settled MintCall → Settled String
answer services calls (resolved call) = services.mint calls call
answer services calls (rejected e) = rejected e

abbrev pub started : QueueItem → ℕ → QueueItem
started i now = record i { status = processing; processing_started_at = some now }

abbrev pub succeeded : QueueItem → String → ℕ → QueueItem
succeeded i hash now = record i {
  status = completed;
  transaction_hash = some hash;
  completed_at = some now;
  processed_at = some now;
}

-- A retry waits 2 ^ retryCount times five minutes.
unfoldable pub after_failure : QueueItem → String → ℕ → QueueItem
after_failure i message now =
    let tried : QueueItem = record i {
      status = failed;
      error_message = some message;
      retry_count = i.retry_count + 1;
      processed_at = some now;
    } in
    if ltb tried.retry_count i.max_retries
    then record tried {
      status = pending;
      process_after = some (now + 2 ^ tried.retry_count * 5 * 60 * 1000);
    }
    else tried

-- `minting.failed` is emitted only when no retry is left.
abbrev pub failure_events : QueueItem → List QueueEvent → List QueueEvent
failure_events i events = if is_pending i.status then events else minting_failed i.id ∷ events

-- `LessThan(new Date()) || IsNull()` is `LessThan(new Date())`, and SQL's `<` is not true of null.
abbrev pub is_ready : ℕ → QueueItem → Bool
is_ready now i = is_pending i.status && elim i.process_after [ none ↦ false | some t ↦ ltb t now ]

-- By ascending priority, then by age.
abbrev pub by_priority : QueueItem → QueueItem → Bool
by_priority a b =
    if ltb a.priority b.priority
    then true
    else (if ltb b.priority a.priority then false else ltb a.created_at b.created_at)

module _ (items : Items) (services : Services) where
  -- `item` is the row as it was fetched. The clock reads `now` at the start, and `later` when the
  -- call has settled.
  unfoldable pub process_queue_item : World items.Table → QueueItem → ℕ → ℕ → World items.Table
  process_queue_item w item now later =
      let begun = started item now in
      let call = call_for services item in
      let table = items.save w.table begun in
      elim (answer services w.calls call) [
        | resolved hash ↦ record w {
          table = items.save table (succeeded begun hash later);
          calls = attempted call w.calls;
          events = minting_completed item.id ∷ w.events;
        }
        | rejected message ↦ record w {
          table = items.save table (after_failure begun message later);
          calls = attempted call w.calls;
          events = failure_events (after_failure begun message later) w.events;
        }
      ]

  unfoldable pub process_each : World items.Table → List QueueItem → (ℕ → ℕ) → ℕ → World items.Table
  process_each w [] clock n = w
  process_each w (i ∷ is) clock n =
      process_each (process_queue_item w i (clock n) (clock (suc n))) is clock (suc (suc n))

  unfoldable pub process_queue : World items.Table → ℕ → (ℕ → ℕ) → World items.Table
  process_queue w batch_size clock =
      let locked : World items.Table = record w { is_processing = true } in
      let ready = items.find w.table (is_ready (clock 0)) by_priority (some batch_size) in
      let done = process_each locked ready clock 1 in
      if w.is_processing then w else record done { is_processing = false }

  -- `triggerQueueProcessing`, with 10 for the batch.
  unfoldable pub trigger_queue_processing : World items.Table → (ℕ → ℕ) → World items.Table
  trigger_queue_processing w clock = process_queue w 10 clock

-- The row that an attempt leaves.
unfoldable pub next_row : Services → List MintCall → QueueItem → ℕ → ℕ → QueueItem
next_row services calls i now later = elim (answer services calls (call_for services i)) [
  | resolved hash ↦ succeeded (started i now) hash later
  | rejected message ↦ after_failure (started i now) message later
]

pub next_row-id :
    (services : Services) (calls : List MintCall) (i : QueueItem) (now later : ℕ)
    → (next_row services calls i now later).id ≡ i.id
unfolding next_row after_failure
next_row-id services calls i now later = ground arith

-- An attempt writes its row twice, and makes at most one call.
pub process_queue_item-table :
    (items : Items) (services : Services) (w : World items.Table) (i : QueueItem) (now later : ℕ)
    → (process_queue_item items services w i now later).table
      ≡ items.save (items.save w.table (started i now)) (next_row services w.calls i now later)
unfolding process_queue_item next_row
process_queue_item-table items services w i now later = ground arith

pub process_queue_item-calls :
    (items : Items) (services : Services) (w : World items.Table) (i : QueueItem) (now later : ℕ)
    → (process_queue_item items services w i now later).calls
      ≡ attempted (call_for services i) w.calls
unfolding process_queue_item
process_queue_item-calls items services w i now later = ground arith
