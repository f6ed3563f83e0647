-- ===== src/MintingQueue/Batches.antt =====
-- `processPendingItems` and `getNextBatch`: the other two ways in which pending requests are taken.
use alive_human.Base.{
  ℕ, suc, ◌+◌, ◌*◌, ◌^◌, Bool, true, false, String, List, [], ◌∷◌, Option, none, some, ltb, str_eq,
  if◌then◌else◌, length, get_or, map,
}
use alive_human.MintingQueue.{
  Items, QueueItem, World, Settled, resolved, rejected, Services, MintCall, first_time_mint,
  annual_mint, admin_mint, ItemStatus, pending, completed, failed, first_time, annual, referral,
  other, admin, is_pending, minting_completed, minting_failed,
}
use alive_human.MintingQueue.Processing.{started, attempted, answer, by_priority}

-- A missing or empty text is false.
abbrev pub text_of : Option String → Option String
text_of none = none
text_of (some s) = if str_eq s "" then none else some s

abbrev pub metadata_amount : QueueItem → Option String
metadata_amount i = elim i.metadata [ none ↦ none | some m ↦ text_of m.amount ]

abbrev pub one_token : String
one_token = "1000000000000000000"

-- The call of `processPendingItems`: a request without a proof passes an empty one, and the amount of
-- an admin request is that of its metadata.
unfoldable pub pending_call_for : Services → QueueItem → Settled MintCall
pending_call_for services i = elim i.item_type [
  | first_time ↦ elim (text_of i.merkle_proof) [
    | none ↦ resolved (first_time_mint i.wallet_address i.device_id (some []))
    | some text ↦ elim (services.parse_proof (some text)) [
      | resolved proof ↦ resolved (first_time_mint i.wallet_address i.device_id proof)
      | rejected e ↦ rejected e
    ]
  ]
  | annual ↦ resolved (annual_mint i.wallet_address i.device_id i.signature)
  | admin ↦ resolved (admin_mint i.wallet_address (get_or (metadata_amount i) one_token))
  | referral ↦ rejected "Unsupported minting type: referral"
  | other ↦ rejected "Unsupported minting type: other"
]

abbrev pub finished : QueueItem → String → ℕ → QueueItem
finished i hash now = record i {
  status = completed;
  transaction_hash = some hash;
  completed_at = some now;
}

unfoldable pub retried : QueueItem → String → ℕ → QueueItem
retried i message now =
    let tried : QueueItem = record i {
      status = failed;
      error_message = some message;
      retry_count = i.retry_count + 1;
    } in
    if ltb tried.retry_count i.max_retries
    then record tried {
      status = pending;
      process_after = some (now + 2 ^ tried.retry_count * 30000);
    }
    else tried

pub record Outcome : Type 0 where
  pub processed : ℕ
  pub successful : ℕ
  pub failed : ℕ

-- By descending priority, then by age.
abbrev pub by_priority_down : QueueItem → QueueItem → Bool
by_priority_down a b =
    if ltb b.priority a.priority
    then true
    else (if ltb a.priority b.priority then false else ltb a.created_at b.created_at)

-- What `getNextBatch` returns of a row.
pub record QueuedMintRequest : Type 0 where
  pub id : String
  pub wallet_address : String
  pub device_id : String
  pub user_id : String
  pub is_first_time : Bool
  pub ip_address : Option String
  pub status : ItemStatus

unfoldable pub request_of : QueueItem → QueuedMintRequest
request_of i = record {
  id = i.id;
  wallet_address = i.wallet_address;
  device_id = get_or i.device_id "";
  user_id = i.user_id;
  is_first_time = elim i.item_type [ annual ↦ false | _ ↦ true ];
  ip_address = i.ip_address;
  status = i.status;
}

module _ (items : Items) where
  unfoldable pub get_next_batch : World items.Table → ℕ → List QueuedMintRequest
  get_next_batch w size =
      map request_of (items.find w.table (λ i. is_pending i.status) by_priority (some size))

  module _ (services : Services) where
    -- One round of the loop, and whether it succeeded.
    unfoldable pub process_pending_item :
        World items.Table → QueueItem → ℕ → ℕ → World items.Table × Bool
    process_pending_item w item now later =
        let begun = started item now in
        let call = pending_call_for services item in
        let table = items.save w.table begun in
        elim (answer services w.calls call) [
          | resolved hash ↦ (
            record w {
              table = items.save table (finished begun hash later);
              calls = attempted call w.calls;
              events = minting_completed item.id ∷ w.events;
            },
            true,
          )
          | rejected message ↦ (
            record w {
              table = items.save table (retried begun message later);
              calls = attempted call w.calls;
              events = minting_failed item.id ∷ w.events;
            },
            false,
          )
        ]

    unfoldable pub process_pending_each :
        World items.Table → List QueueItem → (ℕ → ℕ) → ℕ → ℕ → ℕ → World items.Table × ℕ × ℕ
    process_pending_each w [] clock n good bad = (w, good, bad)
    process_pending_each w (i ∷ is) clock n good bad =
        let (w', success) = process_pending_item w i (clock n) (clock (suc n)) in
        process_pending_each w' is clock (suc (suc n)) (if success then suc good else good)
          (if success then bad else suc bad)

    unfoldable pub process_pending_items :
        World items.Table → ℕ → (ℕ → ℕ) → World items.Table × Outcome
    process_pending_items w limit clock =
        let pending_items =
          items.find w.table (λ i. is_pending i.status) by_priority_down (some limit) in
        let (w', good, bad) = process_pending_each w pending_items clock 0 0 0 in
        (w', record { processed = length pending_items; successful = good; failed = bad })
