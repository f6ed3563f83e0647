-- ===== src/BatchMinting/Runs.antt =====
-- A whole batch, and the statuses that it leaves.
use mathlib.Core.Path.{subst}
use alive_human.Base.{
  ℕ, ◌≡◌, refl, sym, ap, ◌∙◌, Bool, true, not, String, List, [], ◌∷◌, Option, filter, length, arith,
  inl, inr, Fallible, Fallible-cases, ok, err,
}
use alive_human.MintingQueue.{
  Items, ItemStatus, is_pending, pending, cancelled, failed, same_status, Settled-cases,
}
use alive_human.MintingQueue.Batches.{QueuedMintRequest, get_next_batch}
use alive_human.BatchMinting.{Records, Tokens, Config, first_time, annual, batch_annual}
use alive_human.BatchMinting.Batch.{
  Minting, mark_all, mint_group, mint_first_time, mint_annual, mint_batch, sign_all, first_call,
  addresses, devices, process_batch_mint, process_taken, settle_batch,
}
use alive_human.BatchMinting.Rows.{Stored, AllStored, mark_all-fails}
use alive_human.BatchMinting.Groups.{
  is_settled, AllStored-weaker, AllStored-groups, get_next_batch-pending, mint_group-Stored,
  mint_group-cancels,
}

cancelled-settled : (s : ItemStatus) → same_status cancelled s ≡ true → is_settled s ≡ true
cancelled-settled pending h = cc
cancelled-settled s h = ground arith

failed-settled : (s : ItemStatus) → same_status failed s ≡ true → is_settled s ≡ true
failed-settled pending h = cc
failed-settled s h = ground arith

module _ (items : Items) (records : Records) (tokens : Tokens) where
  module _ (test : ItemStatus → Bool) (passes : test cancelled ≡ true) where
    mint_first_time-Stored :
        (ids : ℕ → String) (clock : ℕ → ℕ) (ms : List QueuedMintRequest)
        (st : Minting items records) (id : String)
        → Stored items st.queue.table test id
        → Stored items (mint_first_time items records tokens ids clock ms st).0.queue.table test id
    unfolding mint_first_time
    mint_first_time-Stored ids clock [] st id kept = kept
    mint_first_time-Stored ids clock (m ∷ ms) st id kept =
        let call = first_call items records tokens (m ∷ ms) in
        mint_group-Stored items records test passes first_time call (tokens.send st.sent call) ids
          clock 0 (m ∷ ms) st id kept

    mint_annual-Stored :
        (ids : ℕ → String) (clock : ℕ → ℕ) (n : ℕ) (hash : String) (ms : List QueuedMintRequest)
        (st : Minting items records) (id : String)
        → Stored items st.queue.table test id
        → Stored items
            (mint_annual items records tokens ids clock n hash ms st).0.queue.table
            test
            id
    unfolding mint_annual
    mint_annual-Stored ids clock n hash [] st id kept = kept
    mint_annual-Stored ids clock n hash (m ∷ ms) st id kept =
        elim (Settled-cases (sign_all items records tokens (m ∷ ms))) [
          | inr (e, wrong) ↦ rw (wrong, mint_annual) kept
          | inl (signatures, right) ↦
              let call = batch_annual (addresses (m ∷ ms)) (devices (m ∷ ms)) signatures in
              rw (right, mint_annual)
                (mint_group-Stored items records test passes annual call (tokens.send st.sent call)
                  ids clock n (m ∷ ms) st id kept)
        ]

    pub mint_batch-Stored :
        (ids : ℕ → String) (clock : ℕ → ℕ) (batch : List QueuedMintRequest)
        (st : Minting items records) (id : String)
        → Stored items st.queue.table test id
        → Stored items (mint_batch items records tokens ids clock batch st).0.queue.table test id
    unfolding mint_batch
    mint_batch-Stored ids clock batch st id kept =
        let firsts = filter (λ m. m.is_first_time) batch in
        let annuals = filter (λ m. not m.is_first_time) batch in
        let after = mint_first_time items records tokens ids clock firsts st in
        let first_kept = mint_first_time-Stored ids clock firsts st id kept in
        elim (Fallible-cases after.1) [
          | inl (e, wrong) ↦ rw (wrong, mint_batch) first_kept
          | inr (hash, right) ↦
              rw (right, mint_batch)
                (mint_annual-Stored ids clock (length firsts) hash annuals after.0 id first_kept)
        ]

  AllStored-each :
      (table table' : items.Table) (test : ItemStatus → Bool) (ms : List QueuedMintRequest)
      → ((id : String) → Stored items table test id → Stored items table' test id)
      → AllStored items table test ms
      → AllStored items table' test ms
  AllStored-each table table' test [] step all = tt
  AllStored-each table table' test (m ∷ ms) step all =
      (step m.id all.0, AllStored-each table table' test ms step all.1)

  pub mint_batch-AllStored :
      (test : ItemStatus → Bool) (passes : test cancelled ≡ true) (ids : ℕ → String) (clock : ℕ → ℕ)
      (batch ms : List QueuedMintRequest) (st : Minting items records)
      → AllStored items st.queue.table test ms
      → AllStored items (mint_batch items records tokens ids clock batch st).0.queue.table test ms
  mint_batch-AllStored test passes ids clock batch ms st all =
      AllStored-each st.queue.table
        (mint_batch items records tokens ids clock batch st).0.queue.table test ms
        (mint_batch-Stored test passes ids clock batch st) all

  mint_first_time-cancels :
      (ids : ℕ → String) (clock : ℕ → ℕ) (ms : List QueuedMintRequest) (st : Minting items records)
      (h : String)
      → (mint_first_time items records tokens ids clock ms st).1 ≡ ok h
      → AllStored items
          (mint_first_time items records tokens ids clock ms st).0.queue.table
          (same_status cancelled)
          ms
  unfolding mint_first_time
  mint_first_time-cancels ids clock [] st h done = tt
  mint_first_time-cancels ids clock (m ∷ ms) st h done =
      let call = first_call items records tokens (m ∷ ms) in
      mint_group-cancels items records first_time call (tokens.send st.sent call) ids clock 0
        (m ∷ ms) st h done

  mint_annual-cancels :
      (ids : ℕ → String) (clock : ℕ → ℕ) (n : ℕ) (hash : String) (ms : List QueuedMintRequest)
      (st : Minting items records) (h : String)
      → (mint_annual items records tokens ids clock n hash ms st).1 ≡ ok h
      → AllStored items
          (mint_annual items records tokens ids clock n hash ms st).0.queue.table
          (same_status cancelled)
          ms
  unfolding mint_annual
  mint_annual-cancels ids clock n hash [] st h done = tt
  mint_annual-cancels ids clock n hash (m ∷ ms) st h done =
      elim (Settled-cases (sign_all items records tokens (m ∷ ms))) [
        | inr (e, wrong) ↦ absurd (ground arith)
        | inl (signatures, right) ↦
            let call = batch_annual (addresses (m ∷ ms)) (devices (m ∷ ms)) signatures in
            let group =
              mint_group items records annual call (tokens.send st.sent call) ids clock n (m ∷ ms)
                st in
            let step : mint_annual items records tokens ids clock n hash (m ∷ ms) st ≡ group =
              rw (right, mint_annual) refl in
            subst (λ r. AllStored items r.0.queue.table (same_status cancelled) (m ∷ ms)) (sym step)
              (mint_group-cancels items records annual call (tokens.send st.sent call) ids clock n
                (m ∷ ms) st h (ap (λ r. r.1) (sym step) ∙ done))
      ]

  pub mint_batch-cancels :
      (ids : ℕ → String) (clock : ℕ → ℕ) (batch : List QueuedMintRequest)
      (st : Minting items records) (h : String)
      → (mint_batch items records tokens ids clock batch st).1 ≡ ok h
      → AllStored items
          (mint_batch items records tokens ids clock batch st).0.queue.table
          (same_status cancelled)
          batch
  unfolding mint_batch
  mint_batch-cancels ids clock batch st h done =
      let firsts = filter (λ m. m.is_first_time) batch in
      let annuals = filter (λ m. not m.is_first_time) batch in
      let after = mint_first_time items records tokens ids clock firsts st in
      elim (Fallible-cases after.1) [
        | inl (e, wrong) ↦ absurd (ground arith)
        | inr (hash, right) ↦
            let last =
              mint_annual items records tokens ids clock (length firsts) hash annuals after.0 in
            rw (right, mint_batch)
              (AllStored-groups items last.0.queue.table (same_status cancelled)
                (λ m. m.is_first_time) batch
                (AllStored-each after.0.queue.table last.0.queue.table (same_status cancelled)
                  firsts
                  (mint_annual-Stored (same_status cancelled) refl ids clock (length firsts) hash
                    annuals after.0)
                  (mint_first_time-cancels ids clock firsts st hash right))
                (mint_annual-cancels ids clock (length firsts) hash annuals after.0 h
                  (rw (right, mint_batch) at done)))
      ]

  abbrev Settles :
      List QueuedMintRequest → Minting items records × Fallible String (Option String) → Type 0
  Settles batch after =
      AllStored items after.0.queue.table is_settled batch
      × ((hash : Option String)
          → after.1 ≡ ok hash
          → AllStored items after.0.queue.table (same_status cancelled) batch)
      × ((message : String)
          → after.1 ≡ err message
          → AllStored items after.0.queue.table (same_status failed) batch)

  settle_batch-Settles :
      (later : ℕ → ℕ) (batch : List QueuedMintRequest)
      (after : Minting items records × Fallible String String)
      → AllStored items after.0.queue.table (λ s. true) batch
      → ((h : String)
          → after.1 ≡ ok h
          → AllStored items after.0.queue.table (same_status cancelled) batch)
      → Settles batch (settle_batch items records tokens later batch after)
  unfolding settle_batch
  settle_batch-Settles later batch (st, ok h) there done =
      let off = done h refl in
      (
        AllStored-weaker items st.queue.table (same_status cancelled) is_settled batch
            (λ s same. cancelled-settled s same) off,
        λ hash e. off,
        λ message e. absurd (ground arith),
      )
  settle_batch-Settles later batch (st, err e) there done =
      let (fine, bad) = mark_all-fails items records e later 0 batch st there in
      (
        AllStored-weaker items (mark_all items records e later 0 batch st).0.queue.table
            (same_status failed) is_settled batch (λ s same. failed-settled s same) bad,
        λ hash ends. absurd (ground arith),
        λ message ends. bad,
      )

  process_taken-Settles :
      (ids : ℕ → String) (clock later : ℕ → ℕ) (batch : List QueuedMintRequest)
      (st : Minting items records)
      → AllStored items st.queue.table is_pending batch
      → Settles batch (process_taken items records tokens ids clock later batch st)
  unfolding process_taken
  process_taken-Settles ids clock later [] st on = (tt, λ hash e. tt, λ message e. tt)
  process_taken-Settles ids clock later (m ∷ ms) st on =
      let after = mint_batch items records tokens ids clock (m ∷ ms) st in
      settle_batch-Settles later (m ∷ ms) after
        (mint_batch-AllStored (λ s. true) refl ids clock (m ∷ ms) (m ∷ ms) st
          (AllStored-weaker items st.queue.table is_pending (λ s. true) (m ∷ ms) (λ s p. refl) on))
        (mint_batch-cancels ids clock (m ∷ ms) st)

  -- However a batch goes, every request that it takes is still stored afterwards and is not pending,
  -- so that no later batch takes it again: it is cancelled after a batch that succeeds, and failed
  -- after one that does not.
  pub process_batch_mint-settles :
      (config : Config) (ids : ℕ → String) (clock later : ℕ → ℕ) (st : Minting items records)
      → let batch = get_next_batch items st.queue config.batch_mint_max_size in
        let after = process_batch_mint items records tokens config ids clock later st in
        AllStored items after.0.queue.table is_settled batch
        × ((hash : Option String)
            → after.1 ≡ ok hash
            → AllStored items after.0.queue.table (same_status cancelled) batch)
        × ((message : String)
            → after.1 ≡ err message
            → AllStored items after.0.queue.table (same_status failed) batch)
  unfolding process_batch_mint
  process_batch_mint-settles config ids clock later st =
      process_taken-Settles ids clock later
        (get_next_batch items st.queue config.batch_mint_max_size) st
        (get_next_batch-pending items st.queue config.batch_mint_max_size)
