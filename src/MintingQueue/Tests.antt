-- ===== src/MintingQueue/Tests.antt =====
-- The theorems of the minting queue on a table of two requests.
use alive_human.Base.{ℕ, ◌+◌, ◌≤◌, ◌≡◌, refl, false, List, [], ◌∷◌, none, some, arith}
use alive_human.Repository.Table.{table_repository}
use alive_human.MintingQueue.{
  Items, QueueItem, World, Services, MintCall, resolved, rejected, first_time, annual, completed,
  blank, first_time_mint,
}
use alive_human.MintingQueue.Requests.{queue_first_time_minting, find_duplicate}
use alive_human.MintingQueue.Processing.{call_for}
use alive_human.MintingQueue.Selection.{
  scheduled, pending_batch, run_batches, run_scheduled, run_batches-settled, run_scheduled-fresh,
}
use alive_human.MintingQueue.Attempts.{budget, attempts_at, attempts_at-budget}

abbrev items : Items
items = table_repository (λ i. i.id)

-- A token service that always sends the transaction, and one that is always down.
abbrev up : Services
up = record {
  mint = λ calls call. resolved "0xbeef";
  parse_proof = λ text. resolved none;
  stringify_proof = λ proof. "[]";
  stringify_text = λ text. text;
}

abbrev down : Services
down = record up { mint = λ calls call. rejected "timeout" }

abbrev ann : QueueItem
ann = record (blank "r1" "ann" "0xa" first_time 5) { device_id = some "d1"; priority = 10 }

abbrev bob : QueueItem
bob = record (blank "r2" "bob" "0xb" annual 6) { status = completed; process_after = some 1 }

abbrev world : World items.Table
unfolding table_repository
world = record {
  table = (ann ∷ bob ∷ [], (refl, (refl, tt)));
  calls = [];
  events = [];
  is_processing = false;
}

abbrev clock : ℕ → ℕ
clock n = 100 + n

run_batches-settled_example :
    items.find_one
      (run_batches items up world (scheduled 5 clock ∷ pending_batch 10 clock ∷ [])).table
      "r2"
    ≡ some bob
unfolding table_repository
run_batches-settled_example =
    run_batches-settled items up world (scheduled 5 clock ∷ pending_batch 10 clock ∷ []) "r2" bob
      refl refl

run_scheduled-fresh_example :
    items.find_one (run_scheduled items up world ((5, clock) ∷ (5, clock) ∷ [])).table "r1"
    ≡ some ann
unfolding table_repository
run_scheduled-fresh_example =
    run_scheduled-fresh items up world ((5, clock) ∷ (5, clock) ∷ []) "r1" ann refl refl

-- A first request that is due.
abbrev due : QueueItem
due = record ann { process_after = some 1 }

abbrev due_world : World items.Table
unfolding table_repository
due_world = record {
  table = (due ∷ bob ∷ [], (refl, (refl, tt)));
  calls = [];
  events = [];
  is_processing = false;
}

abbrev five_batches : List (ℕ × (ℕ → ℕ))
five_batches = (5, clock) ∷ (5, clock) ∷ (5, clock) ∷ (5, clock) ∷ (5, clock) ∷ []

attempts_at-budget_example : attempts_at items down due_world five_batches "r1" ≤ budget due
unfolding table_repository
attempts_at-budget_example =
    attempts_at-budget items down due_world five_batches due refl (λ on. omega arith)

abbrev ann_call : MintCall
ann_call = first_time_mint "0xa" (some "d1") none

call_for-ann : call_for up ann ≡ resolved ann_call
unfolding call_for
call_for-ann = refl

abbrev asked : World items.Table × QueueItem
asked = queue_first_time_minting items up world "r3" "ann" "0xa" "d2" [] none 50

-- The request that is already there is returned.
asked_again : asked ≡ (world, ann)
unfolding table_repository queue_first_time_minting find_duplicate
asked_again = refl
