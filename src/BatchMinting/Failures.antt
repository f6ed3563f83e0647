-- ===== src/BatchMinting/Failures.antt =====
-- What a batch reports of the requests that it has minted.
use mathlib.Core.Path.{subst}
use alive_human.Base.{
  ℕ, suc, ◌≡◌, inl, inr, refl, sym, ap₂, ◌∙◌, true, not, String, List, [], ◌∷◌, Option, some,
  get_or, filter, length, arith, All, Option-cases, Fallible, Fallible-cases, ok, err,
}
use alive_human.Base.Texts.{str_append, after_prefix-append}
use alive_human.MintingQueue.{
  Items, QueueItem, is_pending, cancelled, failed as item_failed, same_status, resolved, rejected,
  Settled-cases,
}
use alive_human.MintingQueue.Requests.{non_empty, get_queue_item, mark_mint_as_failed}
use alive_human.MintingQueue.Batches.{QueuedMintRequest, get_next_batch}
use alive_human.BatchMinting.{Records, RecordType, Tokens, Config, first_time}
use alive_human.BatchMinting.Batch.{
  Minting, save_minted, mark_all, mint_group, mint_first_time, mint_annual, mint_batch, sign_all,
  first_call, process_batch_mint, process_taken, settle_batch, new_record,
}
use alive_human.BatchMinting.Requests.{pending, failed, prefix, get_mint_status}
use alive_human.BatchMinting.Rows.{Stored, AllStored, cancel-cases, mark_all-fails}
use alive_human.BatchMinting.Groups.{AllStored-weaker, get_next_batch-pending}
use alive_human.BatchMinting.Runs.{process_batch_mint-settles, mint_batch-AllStored}

module _ (items : Items) (records : Records) where
  -- A cancelled request is reported as pending, and a failed one as failed.
  status-cancelled :
      (st : Minting items records) (id : String)
      → Stored items st.queue.table (same_status cancelled) id
      → get_mint_status items records st (str_append prefix id) ≡ pending
  unfolding get_mint_status get_queue_item
  status-cancelled st id (i, found, off) = ground (arith, after_prefix-append prefix id)

  status-failed :
      (st : Minting items records) (id : String)
      → Stored items st.queue.table (same_status item_failed) id
      → (message : String) × (get_mint_status items records st (str_append prefix id)
          ≡ failed message)
  unfolding get_mint_status get_queue_item
  status-failed st id (i, found, bad) = (
    get_or (non_empty i.error_message) "Unknown error during batch processing",
    ground (arith, after_prefix-append prefix id),
  )

  statuses-cancelled :
      (st : Minting items records) (ms : List QueuedMintRequest)
      → AllStored items st.queue.table (same_status cancelled) ms
      → All (λ m. get_mint_status items records st (str_append prefix m.id) ≡ pending) ms
  statuses-cancelled st [] all = tt
  statuses-cancelled st (m ∷ ms) all =
      (status-cancelled st m.id all.0, statuses-cancelled st ms all.1)

  statuses-failed :
      (st : Minting items records) (ms : List QueuedMintRequest)
      → AllStored items st.queue.table (same_status item_failed) ms
      → All
          (λ m.
            (message : String) × (get_mint_status items records st (str_append prefix m.id)
              ≡ failed message))
          ms
  statuses-failed st [] all = tt
  statuses-failed st (m ∷ ms) all = (status-failed st m.id all.0, statuses-failed st ms all.1)

  save_minted-sent :
      (type : RecordType) (hash : String) (ids : ℕ → String) (clock : ℕ → ℕ) (n : ℕ)
      (ms : List QueuedMintRequest) (st : Minting items records)
      → (save_minted items records type hash ids clock n ms st).0.sent ≡ st.sent
  unfolding save_minted
  save_minted-sent type hash ids clock n [] st = refl
  save_minted-sent type hash ids clock n (m ∷ ms) st = elim (cancel-cases items st.queue m.id) [
    | inl (e, refused) ↦ rw (refused, save_minted) refl
    | inr (i, here, done) ↦
        let off : QueueItem = record i { status = cancelled } in
        let next : Minting items records = record st {
          records = records.save st.records (new_record (ids n) type hash m (clock n));
          queue = record st.queue { table = items.save st.queue.table off };
        } in
        rw (done, save_minted) (save_minted-sent type hash ids clock (suc n) ms next)
  ]

  mark_all-sent :
      (message : String) (clock : ℕ → ℕ) (n : ℕ) (ms : List QueuedMintRequest)
      (st : Minting items records)
      → (mark_all items records message clock n ms st).0.sent ≡ st.sent
  unfolding mark_all mark_mint_as_failed
  mark_all-sent message clock n [] st = refl
  mark_all-sent message clock n (m ∷ ms) st =
      elim (Option-cases (items.find_one st.queue.table m.id)) [
        | inl missing ↦ rw (missing, mark_all) refl
        | inr (i, here) ↦
            rw (here, mark_all)
              (mark_all-sent message clock (suc n) ms (record st {
                queue = record st.queue {
                  table = items.save st.queue.table (record i {
                    status = item_failed;
                    error_message = some message;
                    processed_at = some (clock n);
                  });
                };
              }))
      ]

  module _ (tokens : Tokens) where
    -- After a batch that succeeds, each request that it minted is reported as pending under the
    -- reference that was given for it, since the batch has cancelled its row; after a batch that does
    -- not, each is reported as failed. So none is ever reported as completed.
    pub get_mint_status-batch :
        (config : Config) (ids : ℕ → String) (clock later : ℕ → ℕ) (st : Minting items records)
        → let batch = get_next_batch items st.queue config.batch_mint_max_size in
          let after = process_batch_mint items records tokens config ids clock later st in
          ((hash : Option String)
            → after.1 ≡ ok hash
            → All
                (λ m. get_mint_status items records after.0 (str_append prefix m.id) ≡ pending)
                batch)
          × ((message : String)
              → after.1 ≡ err message
              → All
                  (λ m.
                    (shown : String) × (get_mint_status items records after.0
                        (str_append prefix m.id)
                      ≡ failed shown))
                  batch)
    get_mint_status-batch config ids clock later st =
        let batch = get_next_batch items st.queue config.batch_mint_max_size in
        let after = process_batch_mint items records tokens config ids clock later st in
        let (settled, cancels, fails) =
          process_batch_mint-settles items records tokens config ids clock later st in
        (
          λ hash e. statuses-cancelled after.0 batch (cancels hash e),
          λ message e. statuses-failed after.0 batch (fails message e),
        )

    mint_first_time-sends :
        (ids : ℕ → String) (clock : ℕ → ℕ) (m : QueuedMintRequest) (ms : List QueuedMintRequest)
        (st : Minting items records) (hash : String)
        → (mint_first_time items records tokens ids clock (m ∷ ms) st).1 ≡ ok hash
        → (tokens.send st.sent (first_call items records tokens (m ∷ ms)) ≡ resolved hash)
          × ((mint_first_time items records tokens ids clock (m ∷ ms) st).0.sent
              ≡ first_call items records tokens (m ∷ ms) ∷ st.sent)
    unfolding mint_first_time mint_group
    mint_first_time-sends ids clock m ms st hash done =
        let call = first_call items records tokens (m ∷ ms) in
        let called : Minting items records = record st { sent = call ∷ st.sent } in
        elim (Settled-cases (tokens.send st.sent call)) [
          | inr (e, wrong) ↦ absurd (ground arith)
          | inl (h, right) ↦
              let saved = save_minted items records first_time h ids clock 0 (m ∷ ms) called in
              elim (Fallible-cases saved.1) [
                | inl (e, wrong) ↦ absurd (ground arith)
                | inr (u, fine) ↦ (
                  ground arith,
                  ground (arith, save_minted-sent first_time h ids clock 0 (m ∷ ms) called),
                )
              ]
        ]

    settle_failed :
        (later : ℕ → ℕ) (batch : List QueuedMintRequest) (st : Minting items records)
        (message : String)
        → AllStored items st.queue.table (λ s. true) batch
        → let after = settle_batch items records tokens later batch (st, err message) in
          (after.1 ≡ err message)
          × (after.0.sent ≡ st.sent)
          × AllStored items after.0.queue.table (same_status item_failed) batch
    unfolding settle_batch
    settle_failed later batch st message there =
        let (fine, bad) = mark_all-fails items records message later 0 batch st there in
        (ground arith, mark_all-sent message later 0 batch st, bad)

    mint_batch_stops :
        (ids : ℕ → String) (clock : ℕ → ℕ) (batch firsts annuals : List QueuedMintRequest)
        (a : QueuedMintRequest) (st : Minting items records) (hash message : String)
        → filter (λ r. r.is_first_time) batch ≡ firsts
        → filter (λ r. not r.is_first_time) batch ≡ a ∷ annuals
        → (mint_first_time items records tokens ids clock firsts st).1 ≡ ok hash
        → sign_all items records tokens (a ∷ annuals) ≡ rejected message
        → mint_batch items records tokens ids clock batch st
          ≡ ((mint_first_time items records tokens ids clock firsts st).0, err message)
    unfolding mint_batch mint_annual
    mint_batch_stops ids clock batch firsts annuals a st hash message is_first is_annual minted
          refused =
        let then_annual : List QueuedMintRequest
            → List QueuedMintRequest
            → Minting items records × Fallible String String =
          λ fs gs. elim (mint_first_time items records tokens ids clock fs st).1 [
            | err e ↦ ((mint_first_time items records tokens ids clock fs st).0, err e)
            | ok h ↦
                mint_annual items records tokens ids clock (length fs) h gs
                  (mint_first_time items records tokens ids clock fs st).0
          ] in
        let groups : mint_batch items records tokens ids clock batch st
            ≡ then_annual firsts (a ∷ annuals) =
          ap₂ then_annual is_first is_annual in
        groups ∙ rw minted (rw (refused, mint_annual) refl)

    failed_taken :
        (ids : ℕ → String) (clock later : ℕ → ℕ) (batch : List QueuedMintRequest)
        (m a : QueuedMintRequest) (firsts annuals : List QueuedMintRequest)
        (st : Minting items records) (hash message : String)
        → AllStored items st.queue.table (λ s. true) batch
        → filter (λ r. r.is_first_time) batch ≡ m ∷ firsts
        → filter (λ r. not r.is_first_time) batch ≡ a ∷ annuals
        → (mint_first_time items records tokens ids clock (m ∷ firsts) st).1 ≡ ok hash
        → sign_all items records tokens (a ∷ annuals) ≡ rejected message
        → let after = process_taken items records tokens ids clock later batch st in
          (after.1 ≡ err message)
          × (after.0.sent ≡ first_call items records tokens (m ∷ firsts) ∷ st.sent)
          × AllStored items after.0.queue.table (same_status item_failed) batch
    unfolding process_taken
    failed_taken ids clock later [] m a firsts annuals st hash message there is_first is_annual
          minted refused =
        absurd (ground arith)
    failed_taken ids clock later (b ∷ bs) m a firsts annuals st hash message there is_first
          is_annual minted refused =
        let first = mint_first_time items records tokens ids clock (m ∷ firsts) st in
        let stops =
          mint_batch_stops ids clock (b ∷ bs) (m ∷ firsts) annuals a st hash message is_first
            is_annual minted refused in
        let kept =
          subst (λ r. AllStored items r.0.queue.table (λ s. true) (b ∷ bs)) stops
            (mint_batch-AllStored items records tokens (λ s. true) refl ids clock (b ∷ bs) (b ∷ bs)
              st there) in
        let (wrong, same, bad) = settle_failed later (b ∷ bs) first.0 message kept in
        subst
          (λ r.
            ((settle_batch items records tokens later (b ∷ bs) r).1 ≡ err message)
            × ((settle_batch items records tokens later (b ∷ bs) r).0.sent
                ≡ first_call items records tokens (m ∷ firsts) ∷ st.sent)
            × AllStored items (settle_batch items records tokens later (b ∷ bs) r).0.queue.table
                (same_status item_failed) (b ∷ bs))
          (sym stops)
          (wrong, same ∙ (mint_first_time-sends ids clock m firsts st hash minted).1, bad)

    -- A batch that has minted its first-time requests in a transaction, and for which the signature of
    -- an annual request is then refused, ends with that error: the transaction has been sent, and all
    -- the requests are marked as failed, those that it minted too.
    pub failed_though_minted :
        (config : Config) (ids : ℕ → String) (clock later : ℕ → ℕ) (st : Minting items records)
        (hash message : String) (m a : QueuedMintRequest) (firsts annuals : List QueuedMintRequest)
        → filter (λ r. r.is_first_time) (get_next_batch items st.queue config.batch_mint_max_size)
          ≡ m ∷ firsts
        → filter
            (λ r. not r.is_first_time)
            (get_next_batch items st.queue config.batch_mint_max_size)
          ≡ a ∷ annuals
        → (mint_first_time items records tokens ids clock (m ∷ firsts) st).1 ≡ ok hash
        → sign_all items records tokens (a ∷ annuals) ≡ rejected message
        → let after = process_batch_mint items records tokens config ids clock later st in
          (tokens.send st.sent (first_call items records tokens (m ∷ firsts)) ≡ resolved hash)
          × (after.1 ≡ err message)
          × (after.0.sent ≡ first_call items records tokens (m ∷ firsts) ∷ st.sent)
          × AllStored items after.0.queue.table
              (same_status item_failed)
              (get_next_batch items st.queue config.batch_mint_max_size)
    unfolding process_batch_mint
    failed_though_minted config ids clock later st hash message m a firsts annuals is_first
          is_annual minted refused =
        let batch = get_next_batch items st.queue config.batch_mint_max_size in
        let (wrong, same, bad) =
          failed_taken ids clock later batch m a firsts annuals st hash message
            (AllStored-weaker items st.queue.table is_pending (λ s. true) batch (λ s p. refl)
              (get_next_batch-pending items st.queue config.batch_mint_max_size))
            is_first is_annual minted refused in
        ((mint_first_time-sends ids clock m firsts st hash minted).0, wrong, same, bad)
