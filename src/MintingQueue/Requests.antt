-- ===== src/MintingQueue/Requests.antt =====
-- Putting requests into the minting queue, looking them up, cancelling them and marking them.
use alive_human.Base.{
  ℕ, ◌+◌, Bool, true, ◌&&◌, String, List, ◌∷◌, Option, none, some, ltb, str_eq, if◌then◌else◌,
  head?, length, get_or, ok, err,
}
use mathlib.Core.Option
use alive_human.MintingQueue.{
  Items, QueueItem, ItemType, Metadata, World, Result, Settled, resolved, rejected, Services,
  pending, processing, completed, failed, cancelled, first_time, annual, admin, blank, is_pending,
  same_type, same_status, minting_queued, request_not_found, cannot_cancel, signature_failed,
}

abbrev pub newest_first : QueueItem → QueueItem → Bool
newest_first a b = ltb b.created_at a.created_at

abbrev pub any_order : QueueItem → QueueItem → Bool
any_order a b = true

-- The duplicate that `queueFirstTimeMinting` and `queueAnnualMinting` look for.
abbrev pub is_duplicate : String → String → ItemType → QueueItem → Bool
is_duplicate user wallet type i =
    str_eq i.user_id user
    && str_eq i.wallet_address wallet
    && same_type i.item_type type
    && is_pending i.status

pub record Statistics : Type 0 where
  pub pending : ℕ
  pub processing : ℕ
  pub completed : ℕ
  pub failed : ℕ
  pub total : ℕ

abbrev pub non_empty : Option String → Option String
non_empty none = none
non_empty (some s) = if str_eq s "" then none else some s

module _ (items : Items) where
  -- `save`, then the event.
  abbrev pub put : World items.Table → QueueItem → World items.Table
  put w i = record w { table = items.save w.table i; events = minting_queued i.id ∷ w.events }

  unfoldable pub find_duplicate : World items.Table → String → String → ItemType → Option QueueItem
  find_duplicate w user wallet type =
      head? (items.find w.table (is_duplicate user wallet type) any_order (some 1))

  unfoldable pub queue_first_time_minting :
      Services
      → World items.Table
      → String
      → String
      → String
      → String
      → List String
      → Option String
      → ℕ
      → World items.Table × QueueItem
  queue_first_time_minting services w id user wallet device proof ip now =
      let item : QueueItem = record (blank id user wallet first_time now) {
        device_id = some device;
        merkle_proof = some (services.stringify_proof proof);
        ip_address = ip;
        priority = 10;
      } in
      elim (find_duplicate w user wallet first_time) [
        | some existing ↦ (w, existing)
        | none ↦ (put w item, item)
      ]

  -- `signature` is what `generateMintingSignature` settles with, if it is called.
  unfoldable pub queue_annual_minting :
      World items.Table
      → String
      → String
      → String
      → String
      → Option String
      → Settled String
      → ℕ
      → Result (World items.Table × QueueItem)
  queue_annual_minting w id user wallet device ip signature now =
      elim (find_duplicate w user wallet annual) [
        | some existing ↦ ok (w, existing)
        | none ↦ elim signature [
          | rejected e ↦ err (signature_failed e)
          | resolved s ↦
              let item : QueueItem = record (blank id user wallet annual now) {
                device_id = some device;
                signature = some s;
                ip_address = ip;
                priority = 5;
              } in
              ok (put w item, item)
        ]
      ]

  unfoldable pub queue_admin_minting :
      World items.Table → String → String → String → String → ℕ → World items.Table × QueueItem
  queue_admin_minting w id user wallet amount now =
      let item : QueueItem = record (blank id user wallet admin now) {
        amount = amount;
        priority = 1;
      } in
      (put w item, item)

  -- An empty proof text counts as none.
  unfoldable pub add_to_queue :
      Services
      → World items.Table
      → String
      → String
      → String
      → ItemType
      → Option String
      → Option String
      → Option String
      → Option Metadata
      → ℕ
      → World items.Table × QueueItem
  add_to_queue services w id user wallet type device proof signature metadata now =
      let item : QueueItem = record (blank id user wallet type now) {
        device_id = device;
        merkle_proof = Option.map services.stringify_text (non_empty proof);
        signature = signature;
        metadata = metadata;
      } in
      (put w item, item)

  -- `queueMintRequest`: the type is first-time or annual; no event is emitted.
  unfoldable pub queue_mint_request :
      World items.Table
      → String
      → Option String
      → String
      → String
      → Bool
      → Option String
      → Option String
      → ℕ
      → World items.Table × QueueItem
  queue_mint_request w id user wallet device is_first agent ip now =
      let type = if is_first then first_time else annual in
      let item : QueueItem = record (blank id (get_or (non_empty user) "system") wallet type now) {
        device_id = some device;
        ip_address = ip;
        metadata = some (record { amount = none; user_agent = agent });
        priority = if is_first then 10 else 5;
      } in
      (record w { table = items.save w.table item }, item)

  unfoldable pub get_queue_item : World items.Table → String → Option QueueItem
  get_queue_item w id = items.find_one w.table id

  unfoldable pub get_queue_items_by_user : World items.Table → String → List QueueItem
  get_queue_items_by_user w user = items.find w.table (λ i. str_eq i.user_id user) newest_first none

  unfoldable pub get_minting_history_by_wallet : World items.Table → String → List QueueItem
  get_minting_history_by_wallet w wallet =
      items.find w.table (λ i. str_eq i.wallet_address wallet) newest_first none

  unfoldable pub get_user_minting_history : World items.Table → String → ℕ → List QueueItem
  get_user_minting_history w user limit =
      items.find w.table (λ i. str_eq i.user_id user) newest_first (some limit)

  unfoldable pub cancel_minting_request :
      World items.Table → String → Result (World items.Table × QueueItem)
  cancel_minting_request w id = elim (items.find_one w.table id) [
    | none ↦ err request_not_found
    | some item ↦
        let stopped : QueueItem = record item { status = cancelled } in
        if is_pending item.status
        then ok (record w { table = items.save w.table stopped }, stopped)
        else err (cannot_cancel item.status)
  ]

  unfoldable pub mark_mint_as_failed :
      World items.Table → String → String → ℕ → Result (World items.Table)
  mark_mint_as_failed w id message now = elim (items.find_one w.table id) [
    | none ↦ err request_not_found
    | some item ↦ ok (record w {
      table =
          items.save w.table (record item {
            status = failed;
            error_message = some message;
            processed_at = some now;
          });
    })
  ]

  abbrev pub count_where : World items.Table → (QueueItem → Bool) → ℕ
  count_where w test = length (items.find w.table test any_order none)

  unfoldable pub get_pending_count : World items.Table → ℕ
  get_pending_count w = count_where w (λ i. is_pending i.status)

  -- `PENDING || PROCESSING` is `PENDING`.
  unfoldable pub has_active_request : World items.Table → String → Option ItemType → Bool
  has_active_request w user type = ltb 0 (
      count_where w (λ i.
        str_eq i.user_id user
        && is_pending i.status
        && elim type [ none ↦ true | some t ↦ same_type i.item_type t ]))

  -- `getQueueStatistics`: cancelled requests are not counted.
  unfoldable pub get_queue_statistics : World items.Table → Statistics
  get_queue_statistics w =
      let p = count_where w (λ i. same_status i.status pending) in
      let r = count_where w (λ i. same_status i.status processing) in
      let c = count_where w (λ i. same_status i.status completed) in
      let f = count_where w (λ i. same_status i.status failed) in
      record { pending = p; processing = r; completed = c; failed = f; total = p + r + c + f }
