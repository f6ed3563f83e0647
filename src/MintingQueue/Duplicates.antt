-- ===== src/MintingQueue/Duplicates.antt =====
-- Asking twice for the same minting.
use text.Mathlib.TextEquality.{eq_iff}
use alive_human.Base.{
  ℕ, ◌≡◌, ◌≢◌, refl, true, false, String, List, Option, some, str_eq, arith, inl, inr, Option-cases,
  head?, All-head?, nil_of_head?, ok, err,
}
use alive_human.MintingQueue.{
  Items, QueueItem, World, Services, first_time, pending, cancelled, blank, cannot_cancel,
}
use alive_human.MintingQueue.Requests.{
  is_duplicate, any_order, find_duplicate, queue_first_time_minting, cancel_minting_request,
}

module _ (items : Items) (services : Services) where
  -- The answer to a first-time request is always a pending first-time request of that user and
  -- wallet, stored under its id. If one was stored already, under any key, nothing is written: the
  -- world is as before; otherwise the one row is written, under the new id.
  pub queue_first_time_minting_lem :
      (w : World items.Table) (id user wallet device : String) (proof : List String)
      (ip : Option String) (now : ℕ)
      → let (w', i) =
          queue_first_time_minting items services w id user wallet device proof ip now in
        (is_duplicate user wallet first_time i ≡ true)
        × (items.find_one w'.table i.id ≡ some i)
        × ((key : String) (r : QueueItem)
            → items.find_one w.table key ≡ some r
            → is_duplicate user wallet first_time r ≡ true
            → w' ≡ w)
        × ((key : String)
            → str_eq id key ≡ false
            → items.find_one w'.table key ≡ items.find_one w.table key)
  unfolding queue_first_time_minting find_duplicate
  queue_first_time_minting_lem w id user wallet device proof ip now =
      let test = is_duplicate user wallet first_time in
      let rows = items.find w.table test any_order (some 1) in
      let item : QueueItem = record (blank id user wallet first_time now) {
        device_id = some device;
        merkle_proof = some (services.stringify_proof proof);
        ip_address = ip;
        priority = 10;
      } in
      elim (Option-cases (head? rows)) [
        | inr (old, hit) ↦
            let found = All-head? _ rows old (items.find-All w.table test any_order (some 1)) hit in
            rw (hit, queue_first_time_minting)
              (found.0, found.1, λ key r stored same. refl, λ key distinct. refl)
        | inl miss ↦
            rw (miss, queue_first_time_minting)
              (
                ground (arith, eq_iff user user, eq_iff wallet wallet),
                ground (arith, items.find_one-save w.table item id, eq_iff id id),
                λ key r stored same. cc (
                  items.find-empty w.table test any_order 0 key r (nil_of_head? rows miss) stored,
                  same,
                ),
                λ key distinct. ground (arith, items.find_one-save w.table item key),
              )
      ]

  -- A request is cancelled only while it is pending: then its row becomes cancelled, with all else
  -- kept, no other row changes, and it counts no longer as a duplicate. A second cancellation, as any
  -- of a request that is not pending, is refused with its status.
  pub cancel_minting_request_lem :
      (w : World items.Table) (id other : String) (i : QueueItem)
      → items.find_one w.table id ≡ some i
      → (i.status ≡ pending
          → (w' : World items.Table) × (c : QueueItem) × (cancel_minting_request items w id
              ≡ ok (w', c))
            × (c ≡ record i { status = cancelled })
            × (items.find_one w'.table id ≡ some c)
            × (str_eq id other ≡ false
                → items.find_one w'.table other ≡ items.find_one w.table other)
            × (is_duplicate c.user_id c.wallet_address c.item_type c ≡ false)
            × (cancel_minting_request items w' id ≡ err (cannot_cancel cancelled)))
        × (i.status ≢ pending → cancel_minting_request items w id ≡ err (cannot_cancel i.status))
  unfolding cancel_minting_request
  cancel_minting_request_lem w id other i stored =
      let c : QueueItem = record i { status = cancelled } in
      let w' : World items.Table = record w { table = items.save w.table c } in
      let same = items.find_one-id w.table id i stored in
      let saved = items.find_one-save w.table c id in
      (
        λ on. (
          w',
          c,
          ground arith,
          refl,
          ground (arith, saved, eq_iff i.id id),
          λ distinct.
              ground
                (arith, items.find_one-save w.table c other, eq_iff i.id other, eq_iff id other),
          ground arith,
          ground (arith, saved, eq_iff i.id id),
        ),
        λ off. ground arith,
      )
