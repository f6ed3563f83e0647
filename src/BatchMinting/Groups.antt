-- ===== src/BatchMinting/Groups.antt =====
-- The rows of a group of requests, and what a transaction for it does to them.
use alive_human.Base.{
  ℕ, ◌≡◌, Bool, true, not, String, List, [], ◌∷◌, some, map, filter, arith, All, Bool-cases, inl,
  inr, Fallible-cases, ok,
}
use alive_human.MintingQueue.{
  Items, QueueItem, ItemStatus, World, is_pending, cancelled, same_status, Settled, resolved,
  rejected,
}
use alive_human.MintingQueue.Processing.{by_priority}
use alive_human.MintingQueue.Batches.{QueuedMintRequest, request_of, get_next_batch}
use alive_human.BatchMinting.{Records, RecordType, Sent}
use alive_human.BatchMinting.Batch.{Minting, save_minted, mint_group}
use alive_human.BatchMinting.Rows.{Stored, AllStored, save_minted-Stored, save_minted-cancels}

abbrev pub is_settled : ItemStatus → Bool
is_settled s = not (is_pending s)

module _ (items : Items) where
  pub AllStored-weaker :
      (table : items.Table) (p q : ItemStatus → Bool) (ms : List QueuedMintRequest)
      → ((s : ItemStatus) → p s ≡ true → q s ≡ true)
      → AllStored items table p ms
      → AllStored items table q ms
  AllStored-weaker table p q [] weaker all = tt
  AllStored-weaker table p q (m ∷ ms) weaker ((i, here, h), rest) =
      ((i, here, weaker i.status h), AllStored-weaker table p q ms weaker rest)

  pub filter-AllStored :
      (table : items.Table) (p : ItemStatus → Bool) (keep : QueuedMintRequest → Bool)
      (ms : List QueuedMintRequest)
      → AllStored items table p ms
      → AllStored items table p (filter keep ms)
  filter-AllStored table p keep [] all = tt
  filter-AllStored table p keep (m ∷ ms) all = elim (Bool-cases (keep m)) [
    | inl in_it ↦ rw in_it (all.0, filter-AllStored table p keep ms all.1)
    | inr out ↦ rw out (filter-AllStored table p keep ms all.1)
  ]

  -- Both groups together are the batch.
  pub AllStored-groups :
      (table : items.Table) (p : ItemStatus → Bool) (keep : QueuedMintRequest → Bool)
      (ms : List QueuedMintRequest)
      → AllStored items table p (filter keep ms)
      → AllStored items table p (filter (λ m. not (keep m)) ms)
      → AllStored items table p ms
  AllStored-groups table p keep [] kept others = tt
  AllStored-groups table p keep (m ∷ ms) kept others = elim (Bool-cases (keep m)) [
    | inl in_it ↦
        let k : AllStored items table p (m ∷ filter keep ms) = rw in_it at kept in
        let o : AllStored items table p (filter (λ m. not (keep m)) ms) = rw in_it at others in
        (k.0, AllStored-groups table p keep ms k.1 o)
    | inr out ↦
        let k : AllStored items table p (filter keep ms) = rw out at kept in
        let o : AllStored items table p (m ∷ filter (λ m. not (keep m)) ms) = rw out at others in
        (o.0, AllStored-groups table p keep ms k o.1)
  ]

  -- A batch is made of pending rows.
  pub get_next_batch-pending :
      (w : World items.Table) (size : ℕ)
      → AllStored items w.table is_pending (get_next_batch items w size)
  unfolding get_next_batch request_of
  get_next_batch-pending w size =
      requests (items.find w.table (λ i. is_pending i.status) by_priority (some size))
        (items.find-All w.table (λ i. is_pending i.status) by_priority (some size))
    where
      requests :
          (rows : List QueueItem)
          → All (λ r. (is_pending r.status ≡ true) × (items.find_one w.table r.id ≡ some r)) rows
          → AllStored items w.table is_pending (map request_of rows)
      requests [] all = tt
      requests (r ∷ rows) all = ((r, all.0.1, all.0.0), requests rows all.1)

  module _ (records : Records) where
    pub mint_group-Stored :
        (test : ItemStatus → Bool) (passes : test cancelled ≡ true) (type : RecordType)
        (call : Sent) (answer : Settled String) (ids : ℕ → String) (clock : ℕ → ℕ) (n : ℕ)
        (ms : List QueuedMintRequest) (st : Minting items records) (id : String)
        → Stored items st.queue.table test id
        → Stored items
            (mint_group items records type call answer ids clock n ms st).0.queue.table
            test
            id
    unfolding mint_group
    mint_group-Stored test passes type call (rejected e) ids clock n ms st id kept = kept
    mint_group-Stored test passes type call (resolved hash) ids clock n ms st id kept =
        save_minted-Stored items records test passes type hash ids clock n ms
          (record st { sent = call ∷ st.sent }) id kept

    pub mint_group-cancels :
        (type : RecordType) (call : Sent) (answer : Settled String) (ids : ℕ → String)
        (clock : ℕ → ℕ) (n : ℕ) (ms : List QueuedMintRequest) (st : Minting items records)
        (h : String)
        → (mint_group items records type call answer ids clock n ms st).1 ≡ ok h
        → AllStored items
            (mint_group items records type call answer ids clock n ms st).0.queue.table
            (same_status cancelled)
            ms
    unfolding mint_group
    mint_group-cancels type call (rejected e) ids clock n ms st h done = absurd (ground arith)
    mint_group-cancels type call (resolved hash) ids clock n ms st h done =
        let called : Minting items records = record st { sent = call ∷ st.sent } in
        save_minted-cancels items records type hash ids clock n ms called
          (elim (Fallible-cases (save_minted items records type hash ids clock n ms called).1) [
            | inl (e, wrong) ↦ absurd (ground arith)
            | inr (u, right) ↦ right
          ])
