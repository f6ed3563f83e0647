-- ===== src/Transactions/Gas.antt =====
-- The limit of gas of a transaction.
use alive_human.Base.{◌≡◌, arith, inl, inr, String, Option-cases, truthy}
use alive_human.Base.Texts.{to_upper}
use alive_human.Transactions.{
  TransactionOptions, GasSettings, Chains, Config, limit_text, gas_limit_of, prepare,
  send_transaction,
}

module _ {S : Type 0} (chains : Chains S) (first second : Config) where
  limit-same :
      (network : String) (gas : GasSettings)
      → gas_limit_of chains first network gas ≡ gas_limit_of chains second network gas
  unfolding gas_limit_of limit_text
  limit-same network gas = elim (Option-cases (truthy gas.gas_limit)) [
    | inl missing ↦ ground (arith, missing)
    | inr (limit, given) ↦ ground (arith, given)
  ]

  -- A transaction is sent, or fails, in the same way whatever default limits of gas are configured.
  pub default_limit-unused :
      (network : String) (o : TransactionOptions) (s : S)
      → send_transaction chains first network o s ≡ send_transaction chains second network o s
  unfolding send_transaction prepare
  default_limit-unused network o s = ground (arith, limit-same (to_upper network) o.gas_settings)
