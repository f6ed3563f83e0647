-- ===== src/MintingQueue/Attempts.antt =====
-- What attempts do to one request: how often it is minted, and how it ends.
use text.Mathlib.TextEquality.{eq_iff}
use mathlib.Core.Path.{subst}
use alive_human.Base.{
  Option, Bool, not, ◌&&◌, All, All-mono, map, sym, str_eq, ℕ, suc, ◌-◌, ◌≤◌, ◌<◌, ◌≡◌, ◌∙◌, true,
  false, String, List, [], ◌∷◌, none, some, if◌then◌else◌, arith, Bool-cases, inl, inr, ap,
}
use alive_human.MintingQueue.{Items, QueueItem, World, Services, MintCall, is_pending}
use alive_human.Repository.{Distinct}
use alive_human.Base.Texts.{is_in}
use alive_human.MintingQueue.Selection.{item-other, each-other}
use alive_human.MintingQueue.Processing.{
  process_each, process_queue, is_ready, by_priority, next_row, next_row-id,
  process_queue_item-table, started, after_failure, process_queue_item,
}

-- The calls that a request may still lead to: its retries left, while it is pending.
abbrev pub budget : QueueItem → ℕ
budget i = if is_pending i.status then i.max_retries - i.retry_count else 0

-- A pending request has a retry left.
abbrev pub HasRetry : QueueItem → Type 0
HasRetry i = is_pending i.status ≡ true → i.retry_count < i.max_retries

apart_from : (a b c : String) → str_eq a b ≡ false → a ≡ c → str_eq b c ≡ false
apart_from a b c apart same = elim (Bool-cases (str_eq b c)) [
  | inl equal ↦
      let there : b ≡ c = ground (arith, equal, eq_iff b c) in
      absurd (ground (arith, apart, eq_iff a b, same ∙ sym there))
  | inr distinct ↦ distinct
]

-- A key that is none of the rows'.
absent :
    (key : String) (is : List QueueItem)
    → is_in key (map (λ q. q.id) is) ≡ false
    → All (λ q. str_eq q.id key ≡ false) is
absent key [] away = tt
absent key (q ∷ is) away = (ground arith, absent key is (ground arith))

module _ (items : Items) (services : Services) where
  pub item-stored :
      (w : World items.Table) (i : QueueItem) (now later : ℕ)
      → items.find_one (process_queue_item items services w i now later).table i.id
        ≡ some (next_row services w.calls i now later)
  item-stored w i now later =
      let row = next_row services w.calls i now later in
      ground (
        arith,
        process_queue_item-table items services w i now later,
        items.find_one-save (items.save w.table (started i now)) row i.id,
        next_row-id services w.calls i now later,
        eq_iff i.id i.id,
      )

  next_row-budget :
      (calls : List MintCall) (i : QueueItem) (now later : ℕ)
      → is_pending i.status ≡ true
      → i.retry_count < i.max_retries
      → (suc (budget (next_row services calls i now later)) ≤ budget i)
        × HasRetry (next_row services calls i now later)
  unfolding next_row after_failure
  next_row-budget calls i now later h k = (ground arith, ground arith)

  -- The other rows of a batch are still as they were fetched after the first was processed.
  others_kept :
      (w : World items.Table) (i : QueueItem) (now later : ℕ) (is : List QueueItem)
      → All (λ q. str_eq i.id q.id ≡ false) is
      → All (λ q. items.find_one w.table q.id ≡ some q) is
      → All
          (λ q.
            items.find_one (process_queue_item items services w i now later).table q.id ≡ some q)
          is
  others_kept w i now later [] distinct stored = tt
  others_kept w i now later (q ∷ is) distinct stored = (
    item-other items services w i now later q.id distinct.0 ∙ stored.0,
    others_kept w i now later is distinct.1 stored.1,
  )

  -- A request that a batch has fetched is left as one attempt at it leaves it.
  each-here :
      (w : World items.Table) (is : List QueueItem) (clock : ℕ → ℕ) (n : ℕ) (i : QueueItem)
      → All (λ q. items.find_one w.table q.id ≡ some q) is
      → Distinct (λ q. q.id) is
      → is_in i.id (map (λ q. q.id) is) ≡ true
      → items.find_one w.table i.id ≡ some i
      → (calls : List MintCall) × (now : ℕ) × (later : ℕ) × (items.find_one
            (process_each items services w is clock n).table
            i.id
          ≡ some (next_row services calls i now later))
  unfolding process_each
  each-here w [] clock n i all distinct there stored = absurd (ground arith)
  each-here w (q ∷ is) clock n i all distinct there stored = elim (Bool-cases (str_eq q.id i.id)) [
    | inl here ↦
        let key : q.id ≡ i.id = ground (arith, here, eq_iff q.id i.id) in
        let same : some i ≡ some q =
          sym stored ∙ subst (λ k. items.find_one w.table k ≡ some q) key all.0 in
        let one = process_queue_item items services w q (clock n) (clock (suc n)) in
        let rest = each-other items services one is clock (suc (suc n)) i.id (
          All-mono (λ r. str_eq q.id r.id ≡ false) (λ r. str_eq r.id i.id ≡ false) is
            (λ r apart. apart_from q.id r.id i.id apart key) distinct.0) in
        (
          w.calls,
          clock n,
          clock (suc n),
          rest
              ∙ subst
                  (λ k.
                    items.find_one one.table k
                    ≡ some (next_row services w.calls q (clock n) (clock (suc n))))
                  key (item-stored w q (clock n) (clock (suc n)))
              ∙ ap
                  (λ o. elim o as (λ p. Option QueueItem) [
                    | none ↦ none
                    | some r ↦ some (next_row services w.calls r (clock n) (clock (suc n)))
                  ])
                  (sym same),
        )
    | inr other ↦
        each-here (process_queue_item items services w q (clock n) (clock (suc n))) is clock
          (suc (suc n)) i (others_kept w q (clock n) (clock (suc n)) is distinct.0 all.1) distinct.1
          (ground (arith, other))
          (item-other items services w q (clock n) (clock (suc n)) i.id other ∙ stored)
  ]

  -- Does the batch take the request?
  abbrev takes : World items.Table → ℕ → (ℕ → ℕ) → String → Bool
  takes w size clock key =
      not w.is_processing
      && is_in key (
          map (λ (q : QueueItem). q.id)
            (items.find w.table (is_ready (clock 0)) by_priority (some size)))

  -- How many of the scheduled batches, one after the other, make an attempt at the request.
  unfoldable pub attempts_at : World items.Table → List (ℕ × (ℕ → ℕ)) → String → ℕ
  attempts_at w [] key = 0
  attempts_at w ((size, clock) ∷ bs) key =
      let rest = attempts_at (process_queue items services w size clock) bs key in
      if takes w size clock key then suc rest else rest

  -- A fetched request has passed the test of the query.
  fetched-passes :
      (t : items.Table) (test : QueueItem → Bool) (is : List QueueItem) (i : QueueItem)
      → All (λ q. (test q ≡ true) × (items.find_one t q.id ≡ some q)) is
      → is_in i.id (map (λ q. q.id) is) ≡ true
      → items.find_one t i.id ≡ some i
      → test i ≡ true
  fetched-passes t test [] i all there stored = absurd (ground arith)
  fetched-passes t test (q ∷ is) i all there stored = elim (Bool-cases (str_eq q.id i.id)) [
    | inl here ↦
        let key : q.id ≡ i.id = ground (arith, here, eq_iff q.id i.id) in
        let same : some q ≡ some i =
          sym (subst (λ k. items.find_one t k ≡ some q) key all.0.1) ∙ stored in
        subst (λ (o : Option QueueItem). (elim o [ none ↦ true | some r ↦ test r ]) ≡ true) same
          all.0.0
    | inr other ↦ fetched-passes t test is i all.1 (ground (arith, other)) stored
  ]

  -- A batch that takes a request uses up one of its retries.
  taken_row :
      (w : World items.Table) (size : ℕ) (clock : ℕ → ℕ) (i : QueueItem)
      → items.find_one w.table i.id ≡ some i
      → HasRetry i
      → takes w size clock i.id ≡ true
      → (row : QueueItem) × (items.find_one (process_queue items services w size clock).table i.id
          ≡ some row)
        × (suc (budget row) ≤ budget i)
        × HasRetry row
  unfolding process_queue
  taken_row w size clock i stored has taken =
      let locked : World items.Table = record w { is_processing = true } in
      let all = items.find-All w.table (is_ready (clock 0)) by_priority (some size) in
      let ready = items.find w.table (is_ready (clock 0)) by_priority (some size) in
      let there : is_in i.id (map (λ (q : QueueItem). q.id) ready) ≡ true = ground arith in
      let idle : w.is_processing ≡ false = ground arith in
      let passed = fetched-passes w.table (is_ready (clock 0)) ready i all there stored in
      let pending_now : is_pending i.status ≡ true = ground (arith, passed) in
      let (calls, now, later, after) =
        each-here locked ready clock 1 i
          (All-mono (λ q. (is_ready (clock 0) q ≡ true) × (items.find_one w.table q.id ≡ some q))
            (λ q. items.find_one w.table q.id ≡ some q) ready (λ q both. both.1) all)
          (items.find-distinct w.table (is_ready (clock 0)) by_priority (some size)) there stored in
      let (less, again) = next_row-budget calls i now later pending_now (has pending_now) in
      (next_row services calls i now later, rw idle after, less, again)

  -- A batch that does not take a request leaves it.
  left_row :
      (w : World items.Table) (size : ℕ) (clock : ℕ → ℕ) (i : QueueItem)
      → items.find_one w.table i.id ≡ some i
      → takes w size clock i.id ≡ false
      → items.find_one (process_queue items services w size clock).table i.id ≡ some i
  unfolding process_queue
  left_row w size clock i stored left = elim (Bool-cases w.is_processing) [
    | inl busy ↦ rw busy stored
    | inr idle ↦
        let locked : World items.Table = record w { is_processing = true } in
        let ready = items.find w.table (is_ready (clock 0)) by_priority (some size) in
        let away : is_in i.id (map (λ (q : QueueItem). q.id) ready) ≡ false =
          ground (arith, idle) in
        rw idle
          (each-other items services locked ready clock 1 i.id (absent i.id ready away) ∙ stored)
  ]

  -- However many scheduled batches run one after the other, of any sizes, over any other requests and whatever
  -- the token service answers: a request that has a retry left while it is pending is taken and
  -- processed by them at most as often as it has retries left, and not at all if it is not pending.
  pub attempts_at-budget :
      (w : World items.Table) (bs : List (ℕ × (ℕ → ℕ))) (i : QueueItem)
      → items.find_one w.table i.id ≡ some i
      → HasRetry i
      → attempts_at w bs i.id ≤ budget i
  unfolding attempts_at
  attempts_at-budget w [] i stored has = omega arith
  attempts_at-budget w ((size, clock) ∷ bs) i stored has =
      elim (Bool-cases (takes w size clock i.id)) [
        | inl taken ↦
            let (row, after, less, again) = taken_row w size clock i stored has taken in
            let next = process_queue items services w size clock in
            let key : row.id ≡ i.id = items.find_one-id next.table i.id row after in
            let rest : attempts_at next bs row.id ≤ budget row =
              attempts_at-budget next bs row
                (subst (λ k. items.find_one next.table k ≡ some row) (sym key) after) again in
            let same : attempts_at next bs i.id ≤ budget row =
              subst (λ k. attempts_at next bs k ≤ budget row) key rest in
            rw taken (omega (arith, less, same))
        | inr left ↦ rw left (
            attempts_at-budget (process_queue items services w size clock) bs i
              (left_row w size clock i stored left) has)
      ]
