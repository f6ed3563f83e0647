-- ===== src/BatchMinting/Batch.antt =====
-- `processBatchMint`: the first-time requests of a batch in one transaction, then the annual ones.
use alive_human.Base.{
  ℕ, suc, not, String, List, [], ◌∷◌, Option, none, some, map, filter, get_or, length, Fallible, ok,
  err,
}
use alive_human.Base.Texts.{str_append}
use alive_human.MintingQueue.{
  Items, ItemStatus, QueueError, request_not_found, cannot_cancel, signature_failed, Settled,
  resolved, rejected, pending, processing, completed, failed, cancelled,
}
use alive_human.MintingQueue.Requests.{cancel_minting_request, mark_mint_as_failed}
use alive_human.MintingQueue.Batches.{QueuedMintRequest, get_next_batch}
use alive_human.BatchMinting.{
  Records, MintingRecord, RecordType, first_time, annual, Sent, batch_first_time, batch_annual,
  Tokens, Config, State,
}

abbrev pub status_text : ItemStatus → String
status_text pending = "pending"
status_text processing = "processing"
status_text completed = "completed"
status_text failed = "failed"
status_text cancelled = "cancelled"

abbrev pub message_of : QueueError → String
message_of request_not_found = "Minting request not found"
message_of (cannot_cancel s) =
    str_append "Cannot cancel minting request with status " (status_text s)
message_of (signature_failed e) = e

abbrev pub addresses : List QueuedMintRequest → List String
addresses ms = map (λ m. m.wallet_address) ms

abbrev pub devices : List QueuedMintRequest → List String
devices ms = map (λ m. m.device_id) ms

abbrev pub new_record : String → RecordType → String → QueuedMintRequest → ℕ → MintingRecord
new_record id type hash m now = record {
  id = id;
  user_id = m.user_id;
  wallet_address = m.wallet_address;
  record_type = type;
  transaction_hash = hash;
  amount = "0.5";
  device_id = m.device_id;
  ip_address = m.ip_address;
  created_at = now;
}

module _ (items : Items) (records : Records) where
  abbrev pub Minting : Type 0
  Minting = State items.Table records.Table

  -- The loop after a transaction: a record for each request, which then leaves the queue. Ids of new
  -- records and readings of the clock are counted from n.
  unfoldable pub save_minted :
      RecordType
      → String
      → (ℕ → String)
      → (ℕ → ℕ)
      → ℕ
      → List QueuedMintRequest
      → Minting
      → Minting × Fallible String (Unit {0})
  save_minted type hash ids clock n [] st = (st, ok tt)
  save_minted type hash ids clock n (m ∷ ms) st =
      let noted : Minting = record st {
        records = records.save st.records (new_record (ids n) type hash m (clock n));
      } in
      elim (cancel_minting_request items st.queue m.id) [
        | err e ↦ (noted, err (message_of e))
        | ok (q, i) ↦ save_minted type hash ids clock (suc n) ms (record noted { queue = q })
      ]

  -- The loop of the `catch`.
  unfoldable pub mark_all :
      String → (ℕ → ℕ) → ℕ → List QueuedMintRequest → Minting → Minting × Fallible String (Unit {0})
  mark_all message clock n [] st = (st, ok tt)
  mark_all message clock n (m ∷ ms) st =
      elim (mark_mint_as_failed items st.queue m.id message (clock n)) [
        | err e ↦ (st, err (message_of e))
        | ok q ↦ mark_all message clock (suc n) ms (record st { queue = q })
      ]

  -- A transaction that may have been sent, and the loop after it.
  unfoldable pub mint_group :
      RecordType
      → Sent
      → Settled String
      → (ℕ → String)
      → (ℕ → ℕ)
      → ℕ
      → List QueuedMintRequest
      → Minting
      → Minting × Fallible String String
  mint_group type call answer ids clock n ms st =
      let called : Minting = record st { sent = call ∷ st.sent } in
      elim answer [
        | rejected message ↦ (called, err message)
        | resolved hash ↦
            let after = save_minted type hash ids clock n ms called in
            (after.0, elim after.1 [ err e ↦ err e | ok _ ↦ ok hash ])
      ]

  module _ (tokens : Tokens) where
    abbrev pub first_call : List QueuedMintRequest → Sent
    first_call ms =
        batch_first_time (addresses ms) (devices ms)
          (map (λ m. get_or (tokens.generate_proof m.wallet_address) []) ms)

    -- `Promise.all` of the signatures rejects as the first that rejects.
    unfoldable pub sign_all : List QueuedMintRequest → Settled (List String)
    sign_all [] = resolved []
    sign_all (m ∷ ms) = elim (tokens.sign m.wallet_address m.device_id) [
      | rejected message ↦ rejected message
      | resolved s ↦ elim (sign_all ms) [
        | rejected message ↦ rejected message
        | resolved ss ↦ resolved (s ∷ ss)
      ]
    ]

    -- `txHash` is the last transaction's.
    unfoldable pub mint_first_time :
        (ℕ → String) → (ℕ → ℕ) → List QueuedMintRequest → Minting → Minting × Fallible String String
    mint_first_time ids clock [] st = (st, ok "")
    mint_first_time ids clock (m ∷ ms) st =
        let call = first_call (m ∷ ms) in
        mint_group first_time call (tokens.send st.sent call) ids clock 0 (m ∷ ms) st

    unfoldable pub mint_annual :
        (ℕ → String)
        → (ℕ → ℕ)
        → ℕ
        → String
        → List QueuedMintRequest
        → Minting
        → Minting × Fallible String String
    mint_annual ids clock n hash [] st = (st, ok hash)
    mint_annual ids clock n hash (m ∷ ms) st = elim (sign_all (m ∷ ms)) [
      | rejected message ↦ (st, err message)
      | resolved signatures ↦
          let call = batch_annual (addresses (m ∷ ms)) (devices (m ∷ ms)) signatures in
          mint_group annual call (tokens.send st.sent call) ids clock n (m ∷ ms) st
    ]

    -- The body of the `try`.
    unfoldable pub mint_batch :
        (ℕ → String) → (ℕ → ℕ) → List QueuedMintRequest → Minting → Minting × Fallible String String
    mint_batch ids clock batch st =
        let firsts = filter (λ m. m.is_first_time) batch in
        let annuals = filter (λ m. not m.is_first_time) batch in
        let after = mint_first_time ids clock firsts st in
        elim after.1 [
          | err e ↦ (after.0, err e)
          | ok hash ↦ mint_annual ids clock (length firsts) hash annuals after.0
        ]

    -- What the batch settles with: the last transaction, or the error, once all its requests have been
    -- marked. `later` is the clock of the `catch`.
    unfoldable pub settle_batch :
        (ℕ → ℕ)
        → List QueuedMintRequest
        → Minting × Fallible String String
        → Minting × Fallible String (Option String)
    settle_batch later batch after = elim after.1 [
      | ok hash ↦ (after.0, ok (some hash))
      | err message ↦
          let marked = mark_all message later 0 batch after.0 in
          (marked.0, elim marked.1 [ err e ↦ err e | ok _ ↦ err message ])
    ]

    unfoldable pub process_taken :
        (ℕ → String)
        → (ℕ → ℕ)
        → (ℕ → ℕ)
        → List QueuedMintRequest
        → Minting
        → Minting × Fallible String (Option String)
    process_taken ids clock later [] st = (st, ok none)
    process_taken ids clock later (m ∷ ms) st =
        settle_batch later (m ∷ ms) (mint_batch ids clock (m ∷ ms) st)

    unfoldable pub process_batch_mint :
        Config
        → (ℕ → String)
        → (ℕ → ℕ)
        → (ℕ → ℕ)
        → Minting
        → Minting × Fallible String (Option String)
    process_batch_mint config ids clock later st =
        process_taken ids clock later (get_next_batch items st.queue config.batch_mint_max_size) st
