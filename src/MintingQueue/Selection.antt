-- ===== src/MintingQueue/Selection.antt =====
-- Which requests the batches leave alone, and how many calls a batch makes.

use alive_human.Base.{
  ℕ, suc, ◌+◌, ◌≤◌, ◌≡◌, ◌∙◌, refl, true, false, String, List, [], ◌∷◌, none, some, All, str_eq,
  if◌then◌else◌, arith, length, inl, inr,
}
use alive_human.Repository.Rows.{others-All}
use alive_human.MintingQueue.{Items, QueueItem, World, Services, Settled-cases, is_pending}
use alive_human.MintingQueue.Processing.{
  next_row, next_row-id, process_queue_item-table, process_queue_item-calls, answer, started,
  process_queue_item, process_each, is_ready, by_priority, process_queue,
}
use alive_human.MintingQueue.Batches.{
  pending_call_for, process_pending_item, process_pending_each, process_pending_items,
  by_priority_down, retried, finished,
}

-- The batches that the program runs.
pub data Batch : Type 0 where
  scheduled : ℕ → (ℕ → ℕ) → Batch
  pending_batch : ℕ → (ℕ → ℕ) → Batch

module _ (items : Items) (services : Services) where
  pub item-other :
      (w : World items.Table) (i : QueueItem) (now later : ℕ) (key : String)
      → str_eq i.id key ≡ false
      → items.find_one (process_queue_item items services w i now later).table key
        ≡ items.find_one w.table key
  item-other w i now later key distinct =
      let row = next_row services w.calls i now later in
      ground (
        arith,
        process_queue_item-table items services w i now later,
        items.find_one-save (items.save w.table (started i now)) row key,
        items.find_one-save w.table (started i now) key,
        next_row-id services w.calls i now later,
      )

  pub each-other :
      (w : World items.Table) (is : List QueueItem) (clock : ℕ → ℕ) (n : ℕ) (key : String)
      → All (λ i. str_eq i.id key ≡ false) is
      → items.find_one (process_each items services w is clock n).table key
        ≡ items.find_one w.table key
  unfolding process_each
  each-other w [] clock n key distinct = refl
  each-other w (i ∷ is) clock n key distinct =
      each-other (process_queue_item items services w i (clock n) (clock (suc n))) is clock
        (suc (suc n)) key distinct.1
      ∙ item-other w i (clock n) (clock (suc n)) key distinct.0

  -- A request that is not ready at the start of a batch is left as it is.
  pub process_queue-other :
      (w : World items.Table) (batch_size : ℕ) (clock : ℕ → ℕ) (key : String) (r : QueueItem)
      → items.find_one w.table key ≡ some r
      → is_ready (clock 0) r ≡ false
      → items.find_one (process_queue items services w batch_size clock).table key ≡ some r
  unfolding process_queue
  process_queue-other w batch_size clock key r stored idle =
      let locked : World items.Table = record w { is_processing = true } in
      let ready = items.find w.table (is_ready (clock 0)) by_priority (some batch_size) in
      ground (
        arith,
        each-other locked ready clock 1 key (
            others-All items w.table (is_ready (clock 0)) key r ready stored idle
              (items.find-All w.table (is_ready (clock 0)) by_priority (some batch_size))),
      )

  pending_item-other :
      (w : World items.Table) (i : QueueItem) (now later : ℕ) (key : String)
      → str_eq i.id key ≡ false
      → items.find_one (process_pending_item items services w i now later).0.table key
        ≡ items.find_one w.table key
  unfolding process_pending_item retried
  pending_item-other w i now later key distinct =
      elim (Settled-cases (answer services w.calls (pending_call_for services i))) [
        | inl (hash, e) ↦ ground (
          arith,
          items.find_one-save (items.save w.table (started i now))
              (finished (started i now) hash later) key,
          items.find_one-save w.table (started i now) key,
        )
        | inr (message, e) ↦ ground (
          arith,
          items.find_one-save (items.save w.table (started i now))
              (retried (started i now) message later) key,
          items.find_one-save w.table (started i now) key,
        )
      ]

  pending_each-other :
      (w : World items.Table) (is : List QueueItem) (clock : ℕ → ℕ) (n good bad : ℕ) (key : String)
      → All (λ i. str_eq i.id key ≡ false) is
      → items.find_one (process_pending_each items services w is clock n good bad).0.table key
        ≡ items.find_one w.table key
  unfolding process_pending_each
  pending_each-other w [] clock n good bad key distinct = refl
  pending_each-other w (i ∷ is) clock n good bad key distinct =
      let one = process_pending_item items services w i (clock n) (clock (suc n)) in
      pending_each-other one.0 is clock (suc (suc n)) (if one.1 then suc good else good)
        (if one.1 then bad else suc bad) key distinct.1
      ∙ pending_item-other w i (clock n) (clock (suc n)) key distinct.0

  process_pending_items-other :
      (w : World items.Table) (limit : ℕ) (clock : ℕ → ℕ) (key : String) (r : QueueItem)
      → items.find_one w.table key ≡ some r
      → is_pending r.status ≡ false
      → items.find_one (process_pending_items items services w limit clock).0.table key ≡ some r
  unfolding process_pending_items
  process_pending_items-other w limit clock key r stored idle =
      let rows = items.find w.table (λ i. is_pending i.status) by_priority_down (some limit) in
      pending_each-other w rows clock 0 0 0 key (
        others-All items w.table (λ i. is_pending i.status) key r rows stored idle
          (items.find-All w.table (λ i. is_pending i.status) by_priority_down (some limit)))
      ∙ stored

  unfoldable pub run_batches : World items.Table → List Batch → World items.Table
  run_batches w [] = w
  run_batches w (scheduled size clock ∷ bs) =
      run_batches (process_queue items services w size clock) bs
  run_batches w (pending_batch limit clock ∷ bs) =
      run_batches (process_pending_items items services w limit clock).0 bs

  -- A request that is completed, failed or cancelled stays as it is through any sequence of batches
  -- of both kinds, of any sizes, whatever the token service answers.
  pub run_batches-settled :
      (w : World items.Table) (bs : List Batch) (key : String) (r : QueueItem)
      → items.find_one w.table key ≡ some r
      → is_pending r.status ≡ false
      → items.find_one (run_batches w bs).table key ≡ some r
  unfolding run_batches
  run_batches-settled w [] key r stored settled = stored
  run_batches-settled w (scheduled size clock ∷ bs) key r stored settled =
      run_batches-settled (process_queue items services w size clock) bs key r
        (process_queue-other w size clock key r stored (ground arith)) settled
  run_batches-settled w (pending_batch limit clock ∷ bs) key r stored settled =
      run_batches-settled (process_pending_items items services w limit clock).0 bs key r
        (process_pending_items-other w limit clock key r stored settled) settled

  unfoldable pub run_scheduled : World items.Table → List (ℕ × (ℕ → ℕ)) → World items.Table
  run_scheduled w [] = w
  run_scheduled w ((size, clock) ∷ bs) =
      run_scheduled (process_queue items services w size clock) bs

  -- A request whose `processAfter` is null, as every new request's is, is never taken by the
  -- scheduled batch: however often that runs, the row stays as it is.
  pub run_scheduled-fresh :
      (w : World items.Table) (bs : List (ℕ × (ℕ → ℕ))) (key : String) (r : QueueItem)
      → items.find_one w.table key ≡ some r
      → r.process_after ≡ none
      → items.find_one (run_scheduled w bs).table key ≡ some r
  unfolding run_scheduled
  run_scheduled-fresh w [] key r stored fresh = stored
  run_scheduled-fresh w ((size, clock) ∷ bs) key r stored fresh =
      run_scheduled-fresh (process_queue items services w size clock) bs key r
        (process_queue-other w size clock key r stored (ground arith)) fresh

  each-calls :
      (w : World items.Table) (is : List QueueItem) (clock : ℕ → ℕ) (n : ℕ)
      → length (process_each items services w is clock n).calls ≤ length w.calls + length is
  unfolding process_each
  each-calls w [] clock n = omega arith
  each-calls w (i ∷ is) clock n =
      let one = process_queue_item items services w i (clock n) (clock (suc n)) in
      ground (
        arith,
        each-calls one is clock (suc (suc n)),
        process_queue_item-calls items services w i (clock n) (clock (suc n)),
      )

  -- A scheduled batch makes no more calls of the token service than its size, and none while another
  -- batch holds the lock; in any case the lock is free afterwards if it was free before.
  pub process_queue-calls :
      (w : World items.Table) (batch_size : ℕ) (clock : ℕ → ℕ)
      → (length (process_queue items services w batch_size clock).calls
          ≤ length w.calls + batch_size)
        × (w.is_processing ≡ true → process_queue items services w batch_size clock ≡ w)
        × (w.is_processing ≡ false
            → (process_queue items services w batch_size clock).is_processing ≡ false)
  unfolding process_queue
  process_queue-calls w batch_size clock =
      let locked : World items.Table = record w { is_processing = true } in
      let ready = items.find w.table (is_ready (clock 0)) by_priority (some batch_size) in
      (
        ground (
          arith,
          each-calls locked ready clock 1,
          items.find-length w.table (is_ready (clock 0)) by_priority batch_size,
        ),
        λ held. ground arith,
        λ free. ground arith,
      )
