-- ===== src/BatchMinting/Rows.antt =====
-- What the loops of a batch do to the rows of the queue.
use text.Mathlib.TextEquality.{eq_iff}
use mathlib.Core.Path.{subst}
use alive_human.Base.{
  ℕ, suc, ◌≡◌, ◌⊎◌, refl, sym, ap, ◌∙◌, Bool, true, false, String, List, [], ◌∷◌, some, arith, All,
  str_eq, Option-cases, Bool-cases, inl, inr, ok, err,
}
use alive_human.Repository.{Distinct}
use alive_human.MintingQueue.{
  Items, QueueItem, QueueError, ItemStatus, World, is_pending, request_not_found, cannot_cancel,
  cancelled, failed, same_status,
}
use alive_human.MintingQueue.Requests.{cancel_minting_request, mark_mint_as_failed}
use alive_human.MintingQueue.Batches.{QueuedMintRequest}
use alive_human.BatchMinting.{Records, RecordType}
use alive_human.BatchMinting.Batch.{Minting, save_minted, mark_all, new_record}

abbrev failed_row : QueueItem → String → ℕ → QueueItem
failed_row i message now = record i {
  status = failed;
  error_message = some message;
  processed_at = some now;
}

module _ (items : Items) where
  -- A row is stored under the key and its status passes the test.
  abbrev pub Stored : items.Table → (ItemStatus → Bool) → String → Type 0
  Stored table test id =
      (i : QueueItem) × (items.find_one table id ≡ some i) × (test i.status ≡ true)

  abbrev pub AllStored : items.Table → (ItemStatus → Bool) → List QueuedMintRequest → Type 0
  AllStored table test ms = All (λ m. Stored table test m.id) ms

  pub save-Stored :
      (table : items.Table) (test : ItemStatus → Bool) (new : QueueItem) (id : String)
      → test new.status ≡ true
      → Stored table test id
      → Stored (items.save table new) test id
  save-Stored table test new id passes (i, found, h) = elim (Bool-cases (str_eq new.id id)) [
    | inl same ↦ (new, ground (arith, items.find_one-save table new id), passes)
    | inr distinct ↦ (i, ground (arith, items.find_one-save table new id), h)
  ]

  pub saved-Stored :
      (table : items.Table) (test : ItemStatus → Bool) (new : QueueItem) (id : String)
      → test new.status ≡ true
      → new.id ≡ id
      → Stored (items.save table new) test id
  saved-Stored table test new id passes same =
      (new, ground (arith, items.find_one-save table new id, eq_iff new.id id), passes)

  pub cancel-cases :
      (w : World items.Table) (id : String)
      → ((e : QueueError) × (cancel_minting_request items w id ≡ err e))
        ⊎ ((i : QueueItem) × (items.find_one w.table id ≡ some i)
            × (cancel_minting_request items w id
                ≡ ok (
                  record w { table = items.save w.table (record i { status = cancelled }) },
                  record i { status = cancelled },
                )))
  unfolding cancel_minting_request
  cancel-cases w id = elim (Option-cases (items.find_one w.table id)) [
    | inl missing ↦ inl (request_not_found, ground arith)
    | inr (i, here) ↦ elim (Bool-cases (is_pending i.status)) [
      | inl on ↦ inr (i, here, ground arith)
      | inr off ↦ inl (cannot_cancel i.status, ground arith)
    ]
  ]

  pub cancel_pending :
      (w : World items.Table) (id : String) (i : QueueItem)
      → items.find_one w.table id ≡ some i
      → is_pending i.status ≡ true
      → cancel_minting_request items w id
        ≡ ok (
          record w { table = items.save w.table (record i { status = cancelled }) },
          record i { status = cancelled },
        )
  unfolding cancel_minting_request
  cancel_pending w id i here on = ground arith

  -- Writing one row leaves the requests with other ids as they are.
  pub others-Stored :
      (table : items.Table) (test : ItemStatus → Bool) (new : QueueItem) (id : String)
      (ms : List QueuedMintRequest)
      → new.id ≡ id
      → All (λ m. str_eq id m.id ≡ false) ms
      → AllStored table test ms
      → AllStored (items.save table new) test ms
  others-Stored table test new id [] same apart all = tt
  others-Stored table test new id (m ∷ ms) same apart ((i, here, h), rest) = (
    (i, ground (arith, items.find_one-save table new m.id, eq_iff new.id m.id, eq_iff id m.id), h),
    others-Stored table test new id ms same apart.1 rest,
  )

  All-saved :
      (table : items.Table) (test : ItemStatus → Bool) (new : QueueItem)
      (ms : List QueuedMintRequest)
      → test new.status ≡ true
      → AllStored table test ms
      → AllStored (items.save table new) test ms
  All-saved table test new [] passes all = tt
  All-saved table test new (m ∷ ms) passes all =
      (save-Stored table test new m.id passes all.0, All-saved table test new ms passes all.1)

  module _ (records : Records) where
    abbrev with_row : Minting items records → QueueItem → Minting items records
    with_row st new = record st {
      queue = record st.queue { table = items.save st.queue.table new };
    }

    -- A row whose status passes a test that `cancelled` passes keeps doing so.
    pub save_minted-Stored :
        (test : ItemStatus → Bool) (passes : test cancelled ≡ true) (type : RecordType)
        (hash : String) (ids : ℕ → String) (clock : ℕ → ℕ) (n : ℕ) (ms : List QueuedMintRequest)
        (st : Minting items records) (id : String)
        → Stored st.queue.table test id
        → Stored (save_minted items records type hash ids clock n ms st).0.queue.table test id
    unfolding save_minted
    save_minted-Stored test passes type hash ids clock n [] st id kept = kept
    save_minted-Stored test passes type hash ids clock n (m ∷ ms) st id kept =
        elim (cancel-cases st.queue m.id) [
          | inl (e, refused) ↦ rw (refused, save_minted) kept
          | inr (i, here, done) ↦
              let off : QueueItem = record i { status = cancelled } in
              let next : Minting items records = record st {
                records = records.save st.records (new_record (ids n) type hash m (clock n));
                queue = record st.queue { table = items.save st.queue.table off };
              } in
              rw (done, save_minted)
                (save_minted-Stored test passes type hash ids clock (suc n) ms next id
                  (save-Stored st.queue.table test off id passes kept))
        ]

    -- If the loop ends well, all its requests are cancelled.
    pub save_minted-cancels :
        (type : RecordType) (hash : String) (ids : ℕ → String) (clock : ℕ → ℕ) (n : ℕ)
        (ms : List QueuedMintRequest) (st : Minting items records)
        → (save_minted items records type hash ids clock n ms st).1 ≡ ok tt
        → AllStored
            (save_minted items records type hash ids clock n ms st).0.queue.table
            (same_status cancelled)
            ms
    unfolding save_minted
    save_minted-cancels type hash ids clock n [] st e = tt
    save_minted-cancels type hash ids clock n (m ∷ ms) st e = elim (cancel-cases st.queue m.id) [
      | inl (error, refused) ↦ absurd (ground arith)
      | inr (i, here, done) ↦
          let off : QueueItem = record i { status = cancelled } in
          let next : Minting items records = record st {
            records = records.save st.records (new_record (ids n) type hash m (clock n));
            queue = record st.queue { table = items.save st.queue.table off };
          } in
          let step : save_minted items records type hash ids clock n (m ∷ ms) st
              ≡ save_minted items records type hash ids clock (suc n) ms next =
            rw (done, save_minted) refl in
          subst (λ r. AllStored r.0.queue.table (same_status cancelled) (m ∷ ms)) (sym step)
            (
              save_minted-Stored (same_status cancelled) refl type hash ids clock (suc n) ms next
                  m.id
                  (saved-Stored st.queue.table (same_status cancelled) off m.id refl
                    (items.find_one-id st.queue.table m.id i here)),
              save_minted-cancels type hash ids clock (suc n) ms next
                  (ap (λ r. r.1) (sym step) ∙ e),
            )
    ]

    -- Pending requests with different ids are all saved and cancelled.
    pub save_minted-succeeds :
        (type : RecordType) (hash : String) (ids : ℕ → String) (clock : ℕ → ℕ) (n : ℕ)
        (ms : List QueuedMintRequest) (st : Minting items records)
        → AllStored st.queue.table is_pending ms
        → Distinct (λ m. m.id) ms
        → (save_minted items records type hash ids clock n ms st).1 ≡ ok tt
    unfolding save_minted
    save_minted-succeeds type hash ids clock n [] st all distinct = refl
    save_minted-succeeds type hash ids clock n (m ∷ ms) st ((i, here, on), rest) distinct =
        let off : QueueItem = record i { status = cancelled } in
        let next : Minting items records = record st {
          records = records.save st.records (new_record (ids n) type hash m (clock n));
          queue = record st.queue { table = items.save st.queue.table off };
        } in
        rw (cancel_pending st.queue m.id i here on, save_minted)
          (save_minted-succeeds type hash ids clock (suc n) ms next
            (others-Stored st.queue.table is_pending off m.id ms
              (items.find_one-id st.queue.table m.id i here) distinct.0 rest)
            distinct.1)

    -- The loop of the `catch` ends well if all its rows are there, and leaves them failed.
    pub mark_all-Stored :
        (test : ItemStatus → Bool) (passes : test failed ≡ true) (message : String) (clock : ℕ → ℕ)
        (n : ℕ) (ms : List QueuedMintRequest) (st : Minting items records) (id : String)
        → Stored st.queue.table test id
        → Stored (mark_all items records message clock n ms st).0.queue.table test id
    unfolding mark_all mark_mint_as_failed
    mark_all-Stored test passes message clock n [] st id kept = kept
    mark_all-Stored test passes message clock n (m ∷ ms) st id kept =
        elim (Option-cases (items.find_one st.queue.table m.id)) [
          | inl missing ↦ rw (missing, mark_all) kept
          | inr (i, here) ↦
              let bad = failed_row i message (clock n) in
              rw (here, mark_all)
                (mark_all-Stored test passes message clock (suc n) ms (with_row st bad) id
                  (save-Stored st.queue.table test bad id passes kept))
        ]

    pub mark_all-fails :
        (message : String) (clock : ℕ → ℕ) (n : ℕ) (ms : List QueuedMintRequest)
        (st : Minting items records)
        → AllStored st.queue.table (λ s. true) ms
        → ((mark_all items records message clock n ms st).1 ≡ ok tt)
          × AllStored
              (mark_all items records message clock n ms st).0.queue.table
              (same_status failed)
              ms
    unfolding mark_all mark_mint_as_failed
    mark_all-fails message clock n [] st all = (refl, tt)
    mark_all-fails message clock n (m ∷ ms) st ((i, here, _), rest) =
        let bad = failed_row i message (clock n) in
        let next = with_row st bad in
        let step : mark_all items records message clock n (m ∷ ms) st
            ≡ mark_all items records message clock (suc n) ms next =
          rw (here, mark_all) refl in
        let (fine, marked) =
          mark_all-fails message clock (suc n) ms next
            (All-saved st.queue.table (λ s. true) bad ms refl rest) in
        subst (λ r. (r.1 ≡ ok tt) × AllStored r.0.queue.table (same_status failed) (m ∷ ms))
          (sym step)
          (
            fine,
            (
              mark_all-Stored (same_status failed) refl message clock (suc n) ms next m.id (
                  saved-Stored st.queue.table (same_status failed) bad m.id refl
                    (items.find_one-id st.queue.table m.id i here)),
              marked,
            ),
          )
