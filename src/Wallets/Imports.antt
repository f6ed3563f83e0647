-- ===== src/Wallets/Imports.antt =====
-- Imported wallets, whose keys are encrypted by the import and once more by the store.
use text.Mathlib.TextEquality.{eq_iff}
use alive_human.Base.{ℕ, false, ◌≡◌, String, none, some, arith, str_eq, truthy, Fallible, ok}
use alive_human.Base.Texts.{to_upper}
use alive_human.Wallets.{plain_text, cipher, Crypto, Wallet, WalletManager, active_key}
use alive_human.Wallets.Manager.{
  safe_wallet, store, add_wallet, read_wallet, get_wallet, Handlers, imported, keep_imported,
  import_from_mnemonic,
}
use alive_human.Wallets.Reading.{
  Documented, find_wallet-store, store-config, open_wallet-safe, active_key-key,
}

-- For a crypto library as `Documented` says, and whose ciphers are no JSON: where keys
-- are encrypted, a wallet that `import_from_mnemonic` makes for a network in upper case is read again
-- not with the key that the chain's handler gave, but with its cipher.
pub get_wallet-import :
    (crypto : Crypto) (handlers : Handlers) (ivs : ℕ → String)
    (mnemonic network address private key : String)
    (import_mnemonic : String → Fallible String (String × String)) (m : WalletManager)
    → Documented crypto
    → crypto.parse_json (cipher crypto (ivs 0) key private) ≡ none
    → active_key m.config ≡ some key
    → handlers network ≡ some import_mnemonic
    → import_mnemonic mnemonic ≡ ok (address, private)
    → to_upper network ≡ network
    → str_eq network "" ≡ false
    → str_eq address "" ≡ false
    → str_eq private "" ≡ false
    → (after : WalletManager) × (w : Wallet String) × (import_from_mnemonic crypto handlers ivs
          mnemonic network m
        ≡ ok (after, w))
      × (get_wallet crypto network address after
          ≡ ok (
              some (record {
                address = address;
                network = network;
                private_key = plain_text (cipher crypto (ivs 0) key private);
                path = none;
                mnemonic = truthy (some mnemonic);
                encrypted = false;
              })))
unfolding import_from_mnemonic keep_imported add_wallet get_wallet read_wallet
get_wallet-import crypto handlers ivs mnemonic network address private key import_mnemonic m inverse
      no_json active handler answer upper has_network has_address has_key =
    let w = imported network mnemonic address (cipher crypto (ivs 0) key private) in
    let safe = safe_wallet crypto m.config network address w (ivs 1) in
    (
      store network address safe m,
      w,
      ground (
        arith,
        handler,
        answer,
        active,
        active_key-key m.config key active,
        has_address,
        has_key,
      ),
      ground (
        arith,
        find_wallet-store network address network address safe m,
        store-config network address safe m,
        open_wallet-safe crypto m.config network address w (ivs 1) inverse no_json,
        eq_iff network (to_upper network),
        eq_iff address address,
        upper,
        has_network,
        has_address,
      ),
    )
