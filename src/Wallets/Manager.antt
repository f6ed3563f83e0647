-- ===== src/Wallets/Manager.antt =====
-- The operations of the wallet manager.
use alive_human.Base.{
  truthy, ℕ, Bool, true, false, ◌&&◌, ◌||◌, String, [], ◌∷◌, Option, none, some, str_eq,
  if◌then◌else◌, get_or, Fallible, ok, err,
}
use alive_human.Base.Dict.{Dict, lookup, insert, delete}
use alive_human.Base.Texts.{to_upper}
use alive_human.Wallets.{
  cipher, Plain, plain_text, Crypto, WalletError, no_wallet_data, no_key, unsupported_network,
  invalid_wallet, invalid_keys, handler_failed, encrypt, decrypt, Wallet, Config, WalletManager,
  active_key, with_key,
}

-- The two ways of calling `addWallet`: with an address and a wallet, which may be missing, or a wallet.
pub data Given : Type 0 where
  by_address : String → Option (Wallet String) → Given
  by_wallet : Wallet String → Given

-- The copy that is stored.
abbrev pub safe_wallet : Crypto → Config → String → String → Wallet String → String → Wallet String
safe_wallet crypto config network address w iv = record {
  address = address;
  network = to_upper network;
  private_key = elim (active_key config) [
    | none ↦ w.private_key
    | some key ↦ cipher crypto iv key w.private_key
  ];
  path = truthy w.path;
  mnemonic = truthy w.mnemonic;
  encrypted = elim (active_key config) [ none ↦ false | some key ↦ true ];
}

-- The wallet is put under the network as it is spelled.
unfoldable pub store : String → String → Wallet String → WalletManager → WalletManager
store network address w m =
    let held = get_or (lookup network m.wallets) [] in
    record m { wallets = insert network (insert address w held) m.wallets }

unfoldable pub add_wallet :
    Crypto
    → String
    → Given
    → String
    → WalletManager
    → Fallible WalletError (WalletManager × Wallet String)
add_wallet crypto network (by_address address none) iv m = err no_wallet_data
add_wallet crypto network (by_address address (some w)) iv m =
    let safe = safe_wallet crypto m.config network address w iv in
    ok (store network address safe m, safe)
add_wallet crypto network (by_wallet w) iv m =
    let safe = safe_wallet crypto m.config network w.address w iv in
    ok (store network w.address safe m, safe)

-- The wallet under the network in upper case.
unfoldable pub find_wallet : String → String → WalletManager → Option (Wallet String)
find_wallet network address m = elim (lookup (to_upper network) m.wallets) [
  | none ↦ none
  | some held ↦ lookup address held
]

-- A stored wallet as it is handed out.
unfoldable pub open_wallet :
    Crypto → Option String → Wallet String → Fallible WalletError (Wallet Plain)
open_wallet crypto key w = elim w.encrypted [
  | false ↦ ok (with_key w (plain_text w.private_key) w.encrypted)
  | true ↦ elim key [
    | none ↦ ok (with_key w (plain_text w.private_key) w.encrypted)
    | some k ↦ elim (decrypt crypto w.private_key k) [
      | err e ↦ err e
      | ok plain ↦ ok (with_key w plain false)
    ]
  ]
]

unfoldable pub read_wallet :
    Crypto → Option String → Option (Wallet String) → Fallible WalletError (Option (Wallet Plain))
read_wallet crypto key none = ok none
read_wallet crypto key (some w) = elim (open_wallet crypto key w) [
  | err e ↦ err e
  | ok o ↦ ok (some o)
]

unfoldable pub get_wallet :
    Crypto → String → String → WalletManager → Fallible WalletError (Option (Wallet Plain))
get_wallet crypto network address m =
    if str_eq network "" || str_eq address ""
    then ok none
    else read_wallet crypto (truthy m.config.encryption_key) (find_wallet network address m)

unfoldable pub remove_wallet : String → String → WalletManager → WalletManager × Bool
remove_wallet network address m =
    if str_eq network "" || str_eq address ""
    then (m, false)
    else elim (find_wallet network address m) [
      | none ↦ (m, false)
      | some w ↦
          let held = get_or (lookup (to_upper network) m.wallets) [] in
          elim (delete address held) [
            | [] ↦ (record m { wallets = delete (to_upper network) m.wallets }, true)
            | e ∷ rest ↦
                (record m { wallets = insert (to_upper network) (e ∷ rest) m.wallets }, true)
          ]
    ]

unfoldable pub clear_wallets : WalletManager → WalletManager
clear_wallets m = record m { wallets = [] }

-- One wallet under a new key, with the vector drawn for it; an empty key is left as it is.
unfoldable pub rotate_wallet :
    Crypto → String → String → String → Wallet String → Fallible WalletError (Wallet String)
rotate_wallet crypto old new iv w =
    if w.encrypted && (if str_eq w.private_key "" then false else true)
    then elim (decrypt crypto w.private_key old) [
      | err e ↦ err e
      | ok plain ↦ elim (encrypt crypto iv plain new) [
        | err e ↦ err e
        | ok key ↦ ok (record w { private_key = key })
      ]
    ]
    else ok w

unfoldable pub rotate_network :
    Crypto
    → String
    → String
    → (String → String)
    → Dict (Wallet String)
    → Fallible WalletError (Dict (Wallet String))
rotate_network crypto old new iv [] = ok []
rotate_network crypto old new iv (e ∷ held) = elim (rotate_wallet crypto old new (iv e.0) e.1) [
  | err e' ↦ err e'
  | ok w ↦ elim (rotate_network crypto old new iv held) [
    | err e' ↦ err e'
    | ok rest ↦ ok ((e.0, w) ∷ rest)
  ]
]

unfoldable pub rotate_networks :
    Crypto
    → String
    → String
    → (String → String → String)
    → Dict (Dict (Wallet String))
    → Fallible WalletError (Dict (Dict (Wallet String)))
rotate_networks crypto old new iv [] = ok []
rotate_networks crypto old new iv (e ∷ all) = elim (rotate_network crypto old new (iv e.0) e.1) [
  | err e' ↦ err e'
  | ok held ↦ elim (rotate_networks crypto old new iv all) [
    | err e' ↦ err e'
    | ok rest ↦ ok ((e.0, held) ∷ rest)
  ]
]

-- The function of encryption.ts, which refuses an empty key and the same one.
unfoldable pub rotate_all :
    Crypto
    → String
    → String
    → (String → String → String)
    → Dict (Dict (Wallet String))
    → Fallible WalletError (Dict (Dict (Wallet String)))
rotate_all crypto old new iv wallets =
    if str_eq old "" || str_eq new "" || str_eq old new
    then err invalid_keys
    else rotate_networks crypto old new iv wallets

-- The method: what fails leaves the manager as it was.
unfoldable pub rotate_encryption_key :
    Crypto → String → (String → String → String) → WalletManager → WalletManager × Bool
rotate_encryption_key crypto new iv m = elim (active_key m.config) [
  | none ↦ (m, false)
  | some old ↦ elim (rotate_all crypto old new iv m.wallets) [
    | err e ↦ (m, false)
    | ok wallets ↦
        (record { config = record m.config { encryption_key = some new }; wallets = wallets }, true)
  ]
]

-- A chain's handler: its import of a mnemonic, if it has one, which throws or gives an address and a
-- key.
abbrev pub Handlers : Type 0
Handlers = String → Option (String → Fallible String (String × String))

abbrev pub imported : String → String → String → String → Wallet String
imported network mnemonic address key = record {
  address = address;
  network = network;
  private_key = key;
  path = none;
  mnemonic = some mnemonic;
  encrypted = false;
}

-- The wallet of the handler's answer: encrypted here, if so configured, and stored.
unfoldable pub keep_imported :
    Crypto
    → (ℕ → String)
    → String
    → String
    → String × String
    → WalletManager
    → Fallible WalletError (WalletManager × Wallet String)
keep_imported crypto ivs mnemonic network (address, key) m =
    let put = λ (w : Wallet String).
      elim (add_wallet crypto network (by_address address (some w)) (ivs 1) m)
        as (λ r. Fallible WalletError (WalletManager × Wallet String)) [
          | err e ↦ err e
          | ok (after, safe) ↦ ok (after, w)
        ] in
    if str_eq address "" || str_eq key ""
    then err invalid_wallet
    else (if m.config.encrypt_private_keys
        then elim (truthy m.config.encryption_key) [
          | none ↦ err no_key
          | some k ↦ put (imported network mnemonic address (cipher crypto (ivs 0) k key))
        ]
        else put (imported network mnemonic address key))

-- `importFromMnemonic`, outside of a test environment.
unfoldable pub import_from_mnemonic :
    Crypto
    → Handlers
    → (ℕ → String)
    → String
    → String
    → WalletManager
    → Fallible WalletError (WalletManager × Wallet String)
import_from_mnemonic crypto handlers ivs mnemonic network m = elim (handlers network) [
  | none ↦ err unsupported_network
  | some import_mnemonic ↦ elim (import_mnemonic mnemonic) [
    | err message ↦ err (handler_failed message)
    | ok result ↦ keep_imported crypto ivs mnemonic network result m
  ]
]

-- `generateWallet`, with the mnemonic that bip39 draws.
unfoldable pub generate_wallet :
    Crypto
    → Handlers
    → (ℕ → String)
    → String
    → String
    → WalletManager
    → Fallible WalletError (WalletManager × Wallet String)
generate_wallet crypto handlers ivs drawn network m =
    import_from_mnemonic crypto handlers ivs drawn network m

-- A handler's import of a mnemonic along a path.
abbrev pub PathHandlers : Type 0
PathHandlers = String → Option (String → String → Fallible String (String × String))

-- `importFromMnemonicWithPath`: here the key is encrypted if there is one.
unfoldable pub import_from_mnemonic_with_path :
    Crypto
    → PathHandlers
    → (ℕ → String)
    → String
    → String
    → String
    → WalletManager
    → Fallible WalletError (WalletManager × Wallet String)
import_from_mnemonic_with_path crypto handlers ivs mnemonic network path m =
    elim (handlers network) [
      | none ↦ err unsupported_network
      | some import_mnemonic ↦ elim (import_mnemonic mnemonic path) [
        | err message ↦ err (handler_failed message)
        | ok (address, key) ↦
            let w : Wallet String = record {
              address = address;
              network = network;
              private_key = elim (active_key m.config) [
                | none ↦ key
                | some k ↦ cipher crypto (ivs 0) k key
              ];
              path = some path;
              mnemonic = none;
              encrypted = false;
            } in
            elim (add_wallet crypto network (by_wallet w) (ivs 1) m) [
              | err e ↦ err e
              | ok (after, safe) ↦ ok (after, w)
            ]
      ]
    ]
