-- ===== src/MintingQueue/Outcomes.antt =====
-- The result of one attempt, and an attempt at a row that has changed since it was fetched.
use text.Mathlib.TextEquality.{eq_iff}
use alive_human.Base.{ℕ, ◌+◌, ◌*◌, ◌^◌, ◌≤◌, ◌<◌, ◌≡◌, refl, String, ◌∷◌, some, arith, ok}
use alive_human.MintingQueue.{
  Items, QueueItem, World, Services, MintCall, resolved, rejected, pending, completed, failed,
  cancelled,
}
use alive_human.MintingQueue.Processing.{
  next_row, process_queue_item-calls, call_for, after_failure, process_queue_item,
}
use alive_human.MintingQueue.Requests.{cancel_minting_request}
use alive_human.MintingQueue.Attempts.{item-stored}

module _ (items : Items) (services : Services) where
  -- One attempt at a stored request of type first-time, annual or admin: if the service resolves,
  -- the row is completed with the transaction's hash; if it rejects, the row counts one more try
  -- and keeps the message, and it is pending again, to be processed after 2 ^ tries times five
  -- minutes, or failed if no retry is left. Just the one call is made.
  pub process_queue_item-outcomes :
      (w : World items.Table) (i : QueueItem) (call : MintCall) (now later : ℕ)
      → call_for services i ≡ resolved call
      → (r : QueueItem) × (items.find_one
            (process_queue_item items services w i now later).table
            i.id
          ≡ some r)
        × ((process_queue_item items services w i now later).calls ≡ call ∷ w.calls)
        × ((hash : String)
            → services.mint w.calls call ≡ resolved hash
            → (r.status ≡ completed)
              × (r.transaction_hash ≡ some hash)
              × (r.retry_count ≡ i.retry_count))
        × ((message : String)
            → services.mint w.calls call ≡ rejected message
            → (r.retry_count ≡ i.retry_count + 1)
              × (r.error_message ≡ some message)
              × (i.retry_count + 1 < i.max_retries
                  → (r.status ≡ pending)
                    × (r.process_after ≡ some (later + 2 ^ (i.retry_count + 1) * 300000)))
              × (i.max_retries ≤ i.retry_count + 1 → r.status ≡ failed))
  unfolding next_row after_failure
  process_queue_item-outcomes w i call now later ready = (
    next_row services w.calls i now later,
    item-stored items services w i now later,
    rw (process_queue_item-calls items services w i now later, ready),
    λ hash said. (ground arith, ground arith, ground arith),
    λ message said.
        (ground arith, ground arith, λ more. (ground arith, ground arith), λ last. ground arith),
  )

  -- A batch works on the rows as it fetched them: a request cancelled after that is still minted.
  -- The cancellation succeeds, and the attempt then calls the service and completes the row.
  pub cancel_is_overtaken :
      (w : World items.Table) (i : QueueItem) (call : MintCall) (hash : String) (now later : ℕ)
      → items.find_one w.table i.id ≡ some i
      → i.status ≡ pending
      → call_for services i ≡ resolved call
      → services.mint w.calls call ≡ resolved hash
      → (w' : World items.Table) × (c : QueueItem) × (r : QueueItem) × (cancel_minting_request items
            w i.id
          ≡ ok (w', c))
        × (items.find_one w'.table i.id ≡ some c)
        × (c.status ≡ cancelled)
        × ((process_queue_item items services w' i now later).calls ≡ call ∷ w.calls)
        × (items.find_one (process_queue_item items services w' i now later).table i.id ≡ some r)
        × (r.status ≡ completed)
  unfolding cancel_minting_request next_row
  cancel_is_overtaken w i call hash now later stored on ready said =
      let c : QueueItem = record i { status = cancelled } in
      let w' : World items.Table = record w { table = items.save w.table c } in
      (
        w',
        c,
        next_row services w.calls i now later,
        ground arith,
        ground (arith, items.find_one-save w.table c i.id, eq_iff i.id i.id),
        refl,
        rw (process_queue_item-calls items services w' i now later, ready),
        item-stored items services w' i now later,
        ground arith,
      )
