-- ===== src/Transactions/Tokens.antt =====
-- transferToken and estimateGas of TransactionService.
use alive_human.Base.{ℕ, String, Option, none, some, truthy, Fallible, err, ok, ◌>>=◌, or_error}
use alive_human.Base.Dict.{Dict, lookup}
use alive_human.Base.Texts.{to_upper, str_append}
use alive_human.Transactions.{
  Chains, Provider, Overrides, TokenConfig, TokenTransferOptions, GasSettings, Sent, provider_of,
  fees_of, sent_of,
}

-- What is returned of a transfer: `to` is the contract there.
pub record TokenSent : Type 0 where
  pub sent : Sent
  pub token_recipient : String
  pub token_amount : String
  pub token_symbol : String

module _ {S : Type 0} (chains : Chains S) where
  -- The limit of `gasLimit || '200000'`, which is read only if there is a limit.
  unfoldable pub token_gas_limit : GasSettings → Fallible String (Option String)
  token_gas_limit gas = elim (truthy gas.gas_limit) [
    | none ↦ ok none
    | some given ↦ elim (chains.hexlify given) [ err e ↦ err e | ok limit ↦ ok (some limit) ]
  ]

  -- What a transfer needs: the amount in the token's units, and the overrides.
  unfoldable pub prepare_transfer :
      TokenConfig → TokenTransferOptions → S → Fallible String (ℕ × Overrides)
  prepare_transfer token o s = do
    valid ← chains.is_key o.from
    amount ← chains.parse_units o.amount token.decimals
    limit ← token_gas_limit o.gas_settings
    fees ← fees_of chains token.network o.gas_settings s
    ok (amount, record { gas_limit = limit; fees = fees })

  unfoldable pub transfer_token :
      Dict TokenConfig → TokenTransferOptions → S → S × Fallible String TokenSent
  transfer_token handlers o s = elim (lookup o.token_symbol handlers) [
    | none ↦ (s, err (str_append "Unsupported token: " o.token_symbol))
    | some token ↦ elim (prepare_transfer token o s) [
      | err e ↦ (s, err e)
      | ok ready ↦
          let (after, result) =
            chains.transfer (provider_of token.network) o.from token.address o.to ready.0 ready.1
              s in
          (
            after,
            elim result [
              | err e ↦ err e
              | ok receipt ↦ ok (record {
                sent = record (sent_of chains receipt) { to = token.address };
                token_recipient = o.to;
                token_amount = o.amount;
                token_symbol = o.token_symbol;
              })
            ],
          )
    ]
  ]

  abbrev estimation_failed {ℓ} : {A : Type ℓ} → Fallible String A → Fallible String A
  estimation_failed (err e) = err (str_append "Gas estimation failed: " e)
  estimation_failed (ok a) = ok a

  -- The limit, the two fees and the price; `providers` has no entry for a network that is not configured.
  unfoldable pub estimate_gas_of :
      Dict Provider
      → String
      → String
      → String
      → String
      → String
      → S
      → Fallible String (String × (Option String × (Option String × Option String)))
  estimate_gas_of providers network from to amount data_ s = estimation_failed (do
    value ← chains.parse_ether amount
    provider ← or_error (lookup (to_upper network) providers) "Cannot read properties of undefined"
    limit ← chains.estimate_gas provider from to value data_ s
    fees ← chains.fee_data provider s
    ok (limit, fees))
