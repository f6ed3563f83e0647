-- ===== src/Transactions/Tests.antt =====
-- Tests of the transactions, and their theorems at concrete inputs.
use alive_human.Base.{
  ℕ, suc, ◌≡◌, true, String, refl, List, [], ◌∷◌, ◌++◌, none, some, err, ok, str_eq, if◌then◌else◌,
}
use alive_human.Base.Dict.{lookup}
use alive_human.Base.Texts.{to_upper, char_of}
use alive_human.Transactions.{
  legacy, Request, Receipt, TransactionOptions, Chains, Config, GasSettings, send_transaction,
  send_each, send_batch_transactions, provider_of, prepare, gas_limit_of, fees_of,
}
use alive_human.Transactions.Batches.{joined, reported, send_batch-at}
use alive_human.Transactions.Gas.{default_limit-unused}
use alive_human.Transactions.Tokens.{transfer_token}

-- Chains that count what is sent, and refuse what goes to "0xdead".
abbrev counting : Chains ℕ
counting = record {
  parse_ether = λ amount. ok 1000;
  hexlify = λ limit. ok limit;
  is_key = λ key. ok true;
  fee_data = λ provider s. ok (some "30", (some "2", none));
  fetch_price = λ provider s. ok "5";
  send = λ provider key request s. (
    suc s,
    if str_eq request.to "0xdead"
        then err "refused"
        else ok (record {
          transaction_hash = "0xf";
          block_number = s;
          status = 1;
          gas_used = 21000;
          effective_gas_price = 5;
          from = "0x1";
          to = request.to;
        }),
  );
  parse_units = λ amount decimals. ok 7;
  transfer = λ provider key contract receiver amount overrides s. (suc s, err "out of gas");
  estimate_gas = λ provider sender receiver value data_ s. ok "21000";
}

abbrev no_gas : GasSettings
no_gas = record {
  gas_limit = none;
  gas_price = none;
  max_fee_per_gas = none;
  max_priority_fee_per_gas = none;
}

abbrev payment : String → TransactionOptions
payment to = record { from = "key"; to = to; amount = "1"; gas_settings = no_gas }

abbrev dead : List TransactionOptions
dead = payment "0xdead" ∷ []

abbrev living : List TransactionOptions
living = payment "0xa" ∷ []

-- A batch goes on after a failure, and the failed transaction has counted for the chain.
goes_on : (send_batch_transactions counting none (dead ++ living) "bnb" 0).0 ≡ 2
unfolding send_batch_transactions send_each send_transaction prepare gas_limit_of fees_of
    provider_of to_upper char_of
goes_on = refl

abbrev request : Request
request = record { to = "0xa"; value = 1000; gas_limit = none; fees = legacy (some "5") }

abbrev paid : Receipt
paid = record {
  transaction_hash = "0xf";
  block_number = 1;
  status = 1;
  gas_used = 21000;
  effective_gas_price = 5;
  from = "0x1";
  to = "0xa";
}

send_batch-at_example :
    send_batch_transactions counting none (dead ++ payment "0xa" ∷ living) "bnb" 0 ≡ (
      let one = send_batch_transactions counting none dead "bnb" 0 in
      let two = send_batch_transactions counting none living "bnb" 2 in
      (two.0, joined one.1 (joined (reported (payment "0xa") (ok paid)) two.1)))
unfolding send_batch_transactions send_each send_transaction prepare gas_limit_of fees_of
    provider_of to_upper char_of
send_batch-at_example =
    send_batch-at counting none "bnb" dead living (payment "0xa") 0 2 request (ok paid) refl refl

abbrev limits : Config
limits = some (("BNB", "90000") ∷ [])

default_limit-unused_example :
    send_transaction counting limits "bnb" (payment "0xa") 3
    ≡ send_transaction counting none "bnb" (payment "0xa") 3
default_limit-unused_example = default_limit-unused counting limits none "bnb" (payment "0xa") 3

unsupported :
    (transfer_token counting []
      (record { from = "key"; to = "0xa"; amount = "1"; token_symbol = "X"; gas_settings = no_gas })
      0)
    ≡ (0, err "Unsupported token: X")
unfolding transfer_token lookup
unsupported = refl
