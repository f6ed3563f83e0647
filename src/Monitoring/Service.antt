-- ===== src/Monitoring/Service.antt =====
-- The operations of MonitoringService on its map of connections.
use alive_human.Base.{
  Fallible, err, ok, ℕ, Bool, true, false, ◌&&◌, String, List, [], ◌∷◌, ◌++◌, Option, none, some,
  ◌==◌, str_eq, filter, not, if◌then◌else◌,
}
use alive_human.Base.Dict.{Dict, lookup, insert}
use alive_human.Base.Texts.{is_in}
use alive_human.Monitoring.{
  Socket, Opening, Reconnect, new_socket, attempt_reconnect, connect_web_socket, on_close,
}
use alive_human.Monitoring.Listening.{
  Registered, logs, register, subscribe_to_address_activity, remove_all_listeners,
  remove_log_listeners,
}

-- `wsProviders`, and the listeners on the providers.
pub record Monitoring : Type 0 where
  pub sockets : Dict Socket
  pub listeners : List Registered

-- What `setupWebSocket` settles with. After an error the connection it made stays outside of the map,
-- with what `attemptReconnect` did for it.
pub data SetUp : Type 0 where
  set_up : Option ℕ → SetUp
  not_connected : String → Socket → Reconnect → SetUp

unfoldable pub setup_web_socket : Opening → String → ℕ → String → Monitoring → Monitoring × SetUp
setup_web_socket opening url chain_id network_name m = elim (lookup url m.sockets) [
  | some ws ↦ (m, set_up ws.provider)
  | none ↦
      let (ws, result) = connect_web_socket opening (new_socket url chain_id network_name) in
      elim result [
        | err e ↦ (m, not_connected e.0 ws e.1)
        | ok _ ↦ (record m { sockets = insert url ws m.sockets }, set_up ws.provider)
      ]
]

-- The loop that subscribes again; an address whose balance cannot be read ends it.
unfoldable pub subscribe_all :
    (ℕ → String → Fallible String ℕ) → ℕ → Socket → List String → List Registered
subscribe_all balance p ws [] = []
subscribe_all balance p ws (address ∷ rest) =
    elim (subscribe_to_address_activity balance address p ws) [
      | err e ↦ []
      | ok added ↦ added ++ subscribe_all balance p ws rest
    ]

-- The timer of `attemptReconnect`: the connection, the listeners added, and what comes next.
unfoldable pub reconnect :
    (ℕ → String → Fallible String ℕ)
    → Opening
    → Socket
    → Socket × (List Registered × Option Reconnect)
reconnect balance opening ws =
    let (after, result) = connect_web_socket opening ws in
    elim result [
      | err e ↦ (after, ([], some e.1))
      | ok _ ↦ elim after.provider [
        | none ↦ (after, ([], none))
        | some p ↦ (after, (subscribe_all balance p after after.watched_addresses, none))
      ]
    ]

-- The first connection of a chain that passes the test.
unfoldable pub find_socket : (Socket → Bool) → Dict Socket → Option (String × Socket)
find_socket test [] = none
find_socket test (e ∷ es) = let rest = find_socket test es in if test e.1 then some e else rest

abbrev pub is_connected : Option ℕ → Bool
is_connected none = false
is_connected (some p) = true

-- `parseInt` of a network; what is no number equals no chain's.
abbrev pub is_chain : Option ℕ → Socket → Bool
is_chain none ws = false
is_chain (some chain_id) ws = ws.chain_id == chain_id

abbrev add : String → List String → List String
add x xs = if is_in x xs then xs else xs ++ x ∷ []

-- `subscribeToAddress` and `monitorAddress`: the new state, or the error with nothing changed.
unfoldable pub subscribe_to_address :
    (ℕ → String → Fallible String ℕ) → String → Option ℕ → Monitoring → Fallible String Monitoring
subscribe_to_address balance address chain_id m =
    elim (find_socket (λ ws. is_chain chain_id ws && is_connected ws.provider) m.sockets) [
      | none ↦ err "No WebSocket provider available"
      | some e ↦ elim e.1.provider [
        | none ↦ err "No WebSocket provider available"
        | some p ↦ elim (subscribe_to_address_activity balance address p e.1) [
          | err thrown ↦ err thrown
          | ok added ↦ ok (record {
            sockets =
                insert e.0 (record e.1 { watched_addresses = add address e.1.watched_addresses })
                  m.sockets;
            listeners = m.listeners ++ added;
          })
        ]
      ]
    ]

-- No listener of a provider, where there is one.
abbrev pub silence : Option ℕ → List Registered → List Registered
silence none rs = rs
silence (some p) rs = remove_all_listeners p rs

unfoldable pub stop_monitoring : Option ℕ → String → Monitoring → Monitoring
stop_monitoring chain_id address m = elim (find_socket (is_chain chain_id) m.sockets) [
  | none ↦ m
  | some e ↦
      if is_in address e.1.watched_addresses
      then record {
        sockets =
            insert e.0
              (record e.1 {
                watched_addresses = filter (λ a. not (str_eq a address)) e.1.watched_addresses;
              })
              m.sockets;
        listeners = silence e.1.provider m.listeners;
      }
      else m
]

unfoldable pub monitor_nft_transfers : Option ℕ → String → Monitoring → Fallible String Monitoring
monitor_nft_transfers chain_id address m = elim (find_socket (is_chain chain_id) m.sockets) [
  | none ↦ err "No WebSocket provider available"
  | some e ↦ elim e.1.provider [
    | none ↦ err "No WebSocket provider available"
    | some p ↦ ok (record m { listeners = m.listeners ++ register p e.1 (logs address) ∷ [] })
  ]
]

unfoldable pub stop_monitoring_nfts : Option ℕ → Monitoring → Monitoring
stop_monitoring_nfts chain_id m = elim (find_socket (is_chain chain_id) m.sockets) [
  | none ↦ m
  | some e ↦ elim e.1.provider [
    | none ↦ m
    | some p ↦ record m { listeners = remove_log_listeners p m.listeners }
  ]
]

-- What a check of a connection finds: how an opening would settle, whether the socket is open, and
-- whether the ping is answered in time.
pub record Probe : Type 0 where
  pub opening : Opening
  pub socket_open : Bool
  pub answers : Bool

unfoldable pub check_socket : Probe → Socket → Socket × Option Reconnect
check_socket probe ws = elim ws.provider [
  | none ↦
      let (after, result) = connect_web_socket probe.opening ws in
      (after, elim result [ err e ↦ some e.1 | ok _ ↦ none ])
  | some p ↦
      if probe.socket_open && probe.answers
      then (ws, none)
      else (record ws { provider = none }, some (attempt_reconnect ws))
]

-- `checkConnectionHealth` over the map, with the timers and critical errors of its connections.
unfoldable pub check_connection_health :
    (String → Probe) → Dict Socket → Dict Socket × List (Option Reconnect)
check_connection_health probe [] = ([], [])
check_connection_health probe (e ∷ es) =
    let (ws, next) = check_socket (probe e.0) e.1 in
    let (rest, others) = check_connection_health probe es in ((e.0, ws) ∷ rest, next ∷ others)

-- The providers that `cleanup` closes; the connections stay in the map.
unfoldable pub cleanup : Dict Socket → List ℕ
cleanup [] = []
cleanup (e ∷ es) = elim e.1.provider [ none ↦ cleanup es | some p ↦ p ∷ cleanup es ]

-- The close event of a provider, at every connection of the map.
unfoldable pub close_event : ℕ → Dict Socket → Dict Socket × List (Option Reconnect)
close_event p [] = ([], [])
close_event p (e ∷ es) =
    let (ws, next) = on_close p e.1 in
    let (rest, others) = close_event p es in ((e.0, ws) ∷ rest, next ∷ others)
