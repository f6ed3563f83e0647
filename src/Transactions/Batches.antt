-- ===== src/Transactions/Batches.antt =====
-- Batches of transactions.
use alive_human.Base.{
  ◌∙◌, ◌==◌, Fallible, err, ok, ◌+◌, ◌≡◌, arith, inl, inr, String, List, [], ◌∷◌, ◌++◌, length,
  refl, Fallible-cases, length-append,
}
use alive_human.Base.Texts.{to_upper}
use alive_human.Transactions.{
  Request, Receipt, prepare, provider_of, TransactionOptions, Chains, Config, BatchResult,
  send_transaction, send_each, send_batch_transactions,
}

-- The results of one batch after those of another.
abbrev pub joined : BatchResult → BatchResult → BatchResult
joined a b = record {
  successful = a.successful ++ b.successful;
  failed = a.failed ++ b.failed;
  total_processed = a.total_processed + b.total_processed;
  success_count = a.success_count + b.success_count;
  failure_count = a.failure_count + b.failure_count;
}

-- What is reported of one transaction that was sent: its receipt, or the chain's error.
abbrev pub reported : TransactionOptions → Fallible String Receipt → BatchResult
reported o (err e) = record {
  successful = [];
  failed = (o, e) ∷ [];
  total_processed = 1;
  success_count = 0;
  failure_count = 1;
}
reported o (ok r) = record {
  successful =
      record {
        transaction_hash = r.transaction_hash;
        block_number = r.block_number;
        status = r.status == 1;
        gas_used = r.gas_used;
        effective_gas_price = r.effective_gas_price;
        from = r.from;
        to = r.to;
      }
      ∷ [];
  failed = [];
  total_processed = 1;
  success_count = 1;
  failure_count = 0;
}

module _ {S : Type 0} (chains : Chains S) (config : Config) (network : String) where
  send_each-append :
      (first second : List TransactionOptions) (s : S)
      → send_each chains config network (first ++ second) s ≡ (
          let one = send_each chains config network first s in
          let two = send_each chains config network second one.0 in
          (two.0, (one.1.0 ++ two.1.0, one.1.1 ++ two.1.1)))
  unfolding send_each
  send_each-append [] second s = refl
  send_each-append (o ∷ os) second s =
      let rest = send_each-append os second (send_transaction chains config network o s).0 in
      elim (Fallible-cases (send_transaction chains config network o s).1) [
        | inl (e, failing) ↦ ground (arith, failing, rest)
        | inr (sent, works) ↦ ground (arith, works, rest)
      ]

  send_each-counts :
      (os : List TransactionOptions) (s : S)
      → length (send_each chains config network os s).1.0
          + length (send_each chains config network os s).1.1
        ≡ length os
  unfolding send_each
  send_each-counts [] s = refl
  send_each-counts (o ∷ os) s =
      let rest = send_each-counts os (send_transaction chains config network o s).0 in
      elim (Fallible-cases (send_transaction chains config network o s).1) [
        | inl (e, failing) ↦ ground (arith, failing, rest)
        | inr (sent, works) ↦ ground (arith, works, rest)
      ]

  pub send_batch-append :
      (first second : List TransactionOptions) (s : S)
      → (send_batch_transactions chains config (first ++ second) network s ≡ (
          let one = send_batch_transactions chains config first network s in
          let two = send_batch_transactions chains config second network one.0 in
          (two.0, joined one.1 two.1)))
        × ((send_batch_transactions chains config first network s).1.success_count
              + (send_batch_transactions chains config first network s).1.failure_count
            ≡ (send_batch_transactions chains config first network s).1.total_processed)
  unfolding send_batch_transactions
  send_batch-append first second s =
      let one = send_each chains config network first s in
      let two = send_each chains config network second one.0 in
      (
        ground (
          arith,
          send_each-append first second s,
          length-append first second,
          length-append one.1.0 two.1.0,
          length-append one.1.1 two.1.1,
        ),
        send_each-counts first s,
      )

  -- A batch of `first`, a transaction and `second`, where the transaction can be prepared in the state that the
  -- batch `first` leaves: whatever failed in `first`, its request is sent on its network's provider with
  -- its key, in that state; it is reported once, between the reports of `first` and of `second`, with its
  -- receipt or with the error of the chain; and `second` is sent in the state that the sending left.
  pub send_batch-at :
      (first second : List TransactionOptions) (o : TransactionOptions) (s after : S)
      (request : Request) (result : Fallible String Receipt)
      → prepare chains config
          (to_upper network)
          o
          (send_batch_transactions chains config first network s).0
        ≡ ok request
      → chains.send
          (provider_of (to_upper network))
          o.from
          request
          (send_batch_transactions chains config first network s).0
        ≡ (after, result)
      → send_batch_transactions chains config (first ++ o ∷ second) network s ≡ (
          let one = send_batch_transactions chains config first network s in
          let two = send_batch_transactions chains config second network after in
          (two.0, joined one.1 (joined (reported o result) two.1)))
  unfolding send_batch_transactions send_each send_transaction
  send_batch-at first second o s after request (err e) prepared sent =
      (send_batch-append first (o ∷ second) s).0 ∙ ground (arith, prepared, sent)
  send_batch-at first second o s after request (ok receipt) prepared sent =
      (send_batch-append first (o ∷ second) s).0 ∙ ground (arith, prepared, sent)
