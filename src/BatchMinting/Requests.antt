-- ===== src/BatchMinting/Requests.antt =====
-- Requests for mintings, at once or by way of the queue, and their status.
use alive_human.Base.{
  ℕ, ◌+◌, ◌-◌, ◌*◌, ◌/◌, Bool, true, false, String, ◌∷◌, Option, none, some, ltb, leb, str_eq,
  if◌then◌else◌, head?, get_or, Fallible, ok, err,
}
use alive_human.Base.Texts.{str_append, after_prefix}
use alive_human.MintingQueue.{Items, resolved, rejected, same_status, failed as item_failed}
use alive_human.MintingQueue.Requests.{
  queue_mint_request, get_queue_item, get_pending_count, non_empty,
}
use alive_human.BatchMinting.{Records, Tokens, Config, Sent, first_time_mint, annual_mint}
use alive_human.BatchMinting.Batch.{Minting}

abbrev pub prefix : String
prefix = "pending-batch-"

pub data MintStatus : Type 0 where
  pending : MintStatus
  completed : Option String → MintStatus
  failed : String → MintStatus

abbrev pub minting_failed : String → String
minting_failed message = str_append "Minting failed: " message

-- `getNextBatchMintTime` rounds up to a multiple of the interval.
abbrev pub round_up : ℕ → ℕ → ℕ
round_up now interval = (now + interval - 1) / interval * interval

module _ (items : Items) (records : Records) where
  -- A request put into the queue: the reference that is returned, and whether the queue has reached
  -- the size of a batch, in which case a batch is started as well.
  unfoldable pub queue_for_batch :
      Config
      → String
      → String
      → String
      → String
      → String
      → Bool
      → ℕ
      → Minting items records
      → Minting items records × String × Bool
  queue_for_batch config id wallet agent ip device is_first now st =
      let (q, item) =
        queue_mint_request items st.queue id none wallet device is_first (some agent) (some ip)
          now in
      (
        record st { queue = q },
        str_append prefix item.id,
        leb config.batch_mint_max_size (get_pending_count items q),
      )

  module _ (tokens : Tokens) where
    -- The transaction of one request, and the users' service's record of it. A failed record fails
    -- the request, though the transaction has been sent.
    unfoldable pub send_one :
        Sent → String → Minting items records → Minting items records × Fallible String String
    send_one call wallet st =
        let called : Minting items records = record st { sent = call ∷ st.sent } in
        elim (tokens.send st.sent call) [
          | rejected message ↦ (called, err (minting_failed message))
          | resolved hash ↦ elim (tokens.record_token_minting wallet) [
            | rejected message ↦ (called, err (minting_failed message))
            | resolved _ ↦ (record called { recorded = wallet ∷ st.recorded }, ok hash)
          ]
        ]

    -- The last component says whether a batch is started.
    unfoldable pub process_first_time_mint :
        Config
        → String
        → String
        → String
        → String
        → String
        → ℕ
        → Minting items records
        → Minting items records × Fallible String String × Bool
    process_first_time_mint config id wallet agent ip device now st =
        let (queued, reference, full) =
          queue_for_batch config id wallet agent ip device true now st in
        if config.batch_minting_enabled
        then (queued, ok reference, full)
        else elim (tokens.generate_proof wallet) [
          | none ↦
              (st, err (minting_failed "Failed to generate merkle proof for verification"), false)
          | some proof ↦
              let (after, result) = send_one (first_time_mint wallet device proof) wallet st in
              (after, result, false)
        ]

    unfoldable pub process_annual_mint :
        Config
        → String
        → String
        → String
        → String
        → String
        → ℕ
        → Minting items records
        → Minting items records × Fallible String String × Bool
    process_annual_mint config id wallet agent ip device now st =
        let (queued, reference, full) =
          queue_for_batch config id wallet agent ip device false now st in
        if config.batch_minting_enabled
        then (queued, ok reference, full)
        else elim (tokens.sign wallet device) [
          | rejected message ↦ (st, err (minting_failed message), false)
          | resolved signature ↦
              let (after, result) = send_one (annual_mint wallet device signature) wallet st in
              (after, result, false)
        ]

    -- `processMintForNewUser` answers null when anything fails.
    unfoldable pub process_mint_for_new_user :
        String → Minting items records → Minting items records × Option String
    process_mint_for_new_user wallet st = elim (tokens.mint_for_new_user wallet) [
      | rejected _ ↦ (st, none)
      | resolved hash ↦ elim (non_empty hash) [
        | none ↦ (st, hash)
        | some _ ↦ elim (tokens.record_token_minting wallet) [
          | rejected _ ↦ (st, none)
          | resolved _ ↦ (record st { recorded = wallet ∷ st.recorded }, hash)
        ]
      ]
    ]

  unfoldable pub get_mint_status : Minting items records → String → MintStatus
  get_mint_status st reference = elim (after_prefix prefix reference) [
    | some id ↦ elim (get_queue_item items st.queue id) [
      | none ↦ completed none
      | some i ↦
          if same_status i.status item_failed
          then failed (get_or (non_empty i.error_message) "Unknown error during batch processing")
          else pending
    ]
    | none ↦
        elim (head? (
          records.find st.records (λ r. str_eq r.wallet_address reference)
            (λ a b. ltb b.created_at a.created_at) (some 1))) [
              | none ↦ pending
              | some r ↦ completed (some r.transaction_hash)
            ]
  ]

  unfoldable pub get_batch_queue_length : Config → Minting items records → ℕ
  get_batch_queue_length config st =
      if config.batch_minting_enabled then get_pending_count items st.queue else 0

  -- Batches run on an interval exactly when they are enabled.
  unfoldable pub get_next_batch_mint_time : Config → ℕ → Minting items records → Option ℕ
  get_next_batch_mint_time config now st =
      if config.batch_minting_enabled
      then (if leb config.batch_mint_max_size (get_batch_queue_length config st)
          then some now
          else some (round_up now config.batch_minting_interval_ms))
      else none
