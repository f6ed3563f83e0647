-- ===== src/Transactions.antt =====
-- packages/backend/src/blockchain/hotwallet/services/TransactionService.ts: how a transaction is prepared
-- and sent, and batches. The chains are a state that each sending may change; ethers and the chains are the
-- record Chains. Settings of the gas are texts.
pub mod Batches
pub mod Gas
pub mod Tokens
mod Tests
use alive_human.Base.{
  ℕ, Bool, true, false, ◌||◌, String, List, [], ◌∷◌, Option, none, some, str_eq, truthy, ◌==◌,
  length, if◌then◌else◌, Fallible, err, ok, ◌>>=◌,
}
use alive_human.Base.Dict.{Dict, lookup}
use alive_human.Base.Texts.{to_upper}

-- `GasSettings`.
pub record GasSettings : Type 0 where
  pub gas_limit : Option String
  pub gas_price : Option String
  pub max_fee_per_gas : Option String
  pub max_priority_fee_per_gas : Option String

pub data Provider : Type 0 where
  matic bnb eth : Provider

-- The fees of a transaction of type 2, and of one without a type.
pub data Fees : Type 0 where
  fee_market : Option String → Option String → Fees
  legacy : Option String → Fees

-- `TransactionRequest`.
pub record Request : Type 0 where
  pub to : String
  pub value : ℕ
  pub gas_limit : Option String
  pub fees : Fees

pub record TransactionOptions : Type 0 where
  pub from : String
  pub to : String
  pub amount : String
  pub gas_settings : GasSettings

pub record Receipt : Type 0 where
  pub transaction_hash : String
  pub block_number : ℕ
  pub status : ℕ
  pub gas_used : ℕ
  pub effective_gas_price : ℕ
  pub from : String
  pub to : String

-- What is returned of a receipt; numbers that are printed there are numbers here.
pub record Sent : Type 0 where
  pub transaction_hash : String
  pub block_number : ℕ
  pub status : Bool
  pub gas_used : ℕ
  pub effective_gas_price : ℕ
  pub from : String
  pub to : String

-- The overrides of a token transfer.
pub record Overrides : Type 0 where
  pub gas_limit : Option String
  pub fees : Fees

-- A handler of a token, among those of the chains.
pub record TokenConfig : Type 0 where
  pub network : String
  pub address : String
  pub decimals : ℕ

pub record TokenTransferOptions : Type 0 where
  pub from : String
  pub to : String
  pub amount : String
  pub token_symbol : String
  pub gas_settings : GasSettings

-- ethers and the chains, over the state `S` of the chains. `fee_data` has the maximal fee,
-- the priority fee and the price. `hexlify` is of a gas limit;
-- `transfer` takes the key, the contract, the receiver and the amount; `estimate_gas` the sender, the
-- receiver, the value and the data.
pub record Chains (S : Type 0) : Type 0 where
  pub parse_ether : String → Fallible String ℕ
  pub hexlify : String → Fallible String String
  pub is_key : String → Fallible String Bool
  pub fee_data : Provider → S → Fallible String (Option String × (Option String × Option String))
  pub fetch_price : Provider → S → Fallible String String
  pub send : Provider → String → Request → S → S × Fallible String Receipt
  pub parse_units : String → ℕ → Fallible String ℕ
  pub transfer :
      Provider → String → String → String → ℕ → Overrides → S → S × Fallible String Receipt
  pub estimate_gas : Provider → String → String → ℕ → String → S → Fallible String String

-- `defaultGasLimit` of the configuration.
abbrev pub Config : Type 0
Config = Option (Dict String)

unfoldable pub provider_of : String → Provider
provider_of network =
    if str_eq network "MATIC" then matic else (if str_eq network "BNB" then bnb else eth)

-- `a || b` of two texts that may be missing.
abbrev pub either : Option String → Option String → Option String
either a b = elim (truthy a) [ some text ↦ some text | none ↦ b ]

abbrev pub default_limit : Config → String → Option String
default_limit none network = none
default_limit (some limits) network = lookup network limits

-- The text that `BigNumber.from` reads.
unfoldable pub limit_text : Config → String → Option String → String
limit_text config network given = elim (either given (either (default_limit config network) none)) [
  | some text ↦ text
  | none ↦ "21000"
]

-- What `sendBatchTransactions` returns.
pub record BatchResult : Type 0 where
  pub successful : List Sent
  pub failed : List (TransactionOptions × String)
  pub total_processed : ℕ
  pub success_count : ℕ
  pub failure_count : ℕ

module _ {S : Type 0} (chains : Chains S) where
  unfoldable pub gas_limit_of : Config → String → GasSettings → Fallible String (Option String)
  gas_limit_of config network gas = elim (truthy gas.gas_limit) [
    | none ↦ ok none
    | some given ↦ elim (chains.hexlify (limit_text config network gas.gas_limit)) [
      | err e ↦ err e
      | ok limit ↦ ok (some limit)
    ]
  ]

  unfoldable pub fees_of : String → GasSettings → S → Fallible String Fees
  fees_of network gas s =
      if str_eq network "ETH" || str_eq network "MATIC"
      then elim (chains.fee_data (provider_of network) s) [
        | err e ↦ err e
        | ok data_ ↦ ok (
            fee_market (either gas.max_fee_per_gas data_.0)
              (either gas.max_priority_fee_per_gas data_.1.0))
      ]
      else elim (truthy gas.gas_price) [
        | some price ↦ ok (legacy (some price))
        | none ↦ elim (chains.fetch_price (provider_of network) s) [
          | err e ↦ err e
          | ok price ↦ ok (legacy (some price))
        ]
      ]

  -- The request that is sent, or the first error on the way to it.
  unfoldable pub prepare : Config → String → TransactionOptions → S → Fallible String Request
  prepare config network o s = do
    valid ← chains.is_key o.from
    value ← chains.parse_ether o.amount
    limit ← gas_limit_of config network o.gas_settings
    fees ← fees_of network o.gas_settings s
    ok (record { to = o.to; value = value; gas_limit = limit; fees = fees })

  abbrev pub sent_of : Receipt → Sent
  sent_of r = record {
    transaction_hash = r.transaction_hash;
    block_number = r.block_number;
    status = r.status == 1;
    gas_used = r.gas_used;
    effective_gas_price = r.effective_gas_price;
    from = r.from;
    to = r.to;
  }

  unfoldable pub send_transaction :
      Config → String → TransactionOptions → S → S × Fallible String Sent
  send_transaction config network o s = elim (prepare config (to_upper network) o s) [
    | err e ↦ (s, err e)
    | ok request ↦
        let (after, result) = chains.send (provider_of (to_upper network)) o.from request s in
        (after, elim result [ err e ↦ err e | ok receipt ↦ ok (sent_of receipt) ])
  ]

  -- The loop of `sendBatchTransactions`: the results, and the transactions that failed with their errors.
  unfoldable pub send_each :
      Config
      → String
      → List TransactionOptions
      → S
      → S × (List Sent × List (TransactionOptions × String))
  send_each config network [] s = (s, ([], []))
  send_each config network (o ∷ os) s =
      let (after, result) = send_transaction config network o s in
      let rest = send_each config network os after in
      elim result [
        | err e ↦ (rest.0, (rest.1.0, (o, e) ∷ rest.1.1))
        | ok sent ↦ (rest.0, (sent ∷ rest.1.0, rest.1.1))
      ]

  unfoldable pub send_batch_transactions :
      Config → List TransactionOptions → String → S → S × BatchResult
  send_batch_transactions config os network s =
      let (after, results) = send_each config network os s in
      (
        after,
        record {
          successful = results.0;
          failed = results.1;
          total_processed = length os;
          success_count = length results.0;
          failure_count = length results.1;
        },
      )
