-- ===== src/Monitoring/Resubscribing.antt =====
-- A connection that is made again, and the watched addresses.
use alive_human.Base.{
  ℕ, ◌≡◌, arith, false, String, refl, List, [], ◌∷◌, some, ok, ◌==◌, if◌then◌else◌,
}
use alive_human.Base.Texts.{to_lower}
use alive_human.Monitoring.{
  Socket, opened, connect_web_socket, finish_connecting, start_connecting, on_open,
}
use alive_human.Monitoring.Listening.{
  Emitted, balance_change, on_block, emit, subscribe_to_address_activity, register,
}
use alive_human.Monitoring.Service.{reconnect, subscribe_all}

-- The changes between two readings of the balances, for each watched address.
abbrev pub changes : ℕ → String → (String → ℕ) → (String → ℕ) → ℕ → List String → List Emitted
changes chain_id name before after number [] = []
changes chain_id name before after number (a ∷ rest) =
    let others = changes chain_id name before after number rest in
    if before a == after a
    then others
    else balance_change chain_id name (to_lower a) (before a) (after a) number ∷ others

emit-subscribe_all :
    (before after : String → ℕ) (p number : ℕ) (ws : Socket) (addresses : List String)
    → emit
        (on_block (λ q a. ok (after a)) number)
        p
        (subscribe_all (λ q a. ok (before a)) p ws addresses)
      ≡ changes ws.chain_id ws.network_name before after number addresses
unfolding emit on_block subscribe_all subscribe_to_address_activity register
emit-subscribe_all before after p number ws [] = refl
emit-subscribe_all before after p number ws (a ∷ rest) =
    ground (arith, emit-subscribe_all before after p number ws rest)

-- After a timer whose opening gives the provider `p`, where the balances can be read, the listeners it added to
-- `p` emit at a block of `p` a change for each watched address whose balance is then another than when the
-- connection opened, and nothing else.
pub reconnect-reports :
    (before after : String → ℕ) (p now number : ℕ) (ws : Socket)
    → ws.is_connecting ≡ false
    → emit
        (on_block (λ q a. ok (after a)) number)
        p
        (reconnect (λ q a. ok (before a)) (opened p now) ws).1.0
      ≡ changes ws.chain_id ws.network_name before after number ws.watched_addresses
unfolding reconnect connect_web_socket finish_connecting start_connecting on_open
reconnect-reports before after p now number ws idle = rw idle (
    emit-subscribe_all before after p number
      (record ws {
        provider = some p;
        last_connected = some now;
        connection_attempts = 0;
        is_connecting = false;
      })
      ws.watched_addresses)
