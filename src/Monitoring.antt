-- ===== src/Monitoring.antt =====
-- packages/backend/src/blockchain/hotwallet/services/MonitoringService.ts: the connections to the chains
-- and how they are made again, the listeners on their providers and what these emit. A provider is a
-- number; what opening a connection, a balance or a ping settles with is an argument.
pub mod Listening
pub mod Service
pub mod Delays
pub mod Failures
pub mod Resubscribing
pub mod Stopping
mod Tests
use alive_human.Base.{
  Fallible, err, ok, ℕ, zero, suc, Bool, true, false, String, List, [], ◌∷◌, ◌++◌, Option, none,
  some, ◌*◌, ◌^◌, ltb, leb, ◌==◌, ◌+◌, if◌then◌else◌,
}

-- `WebSocketState`.
pub record Socket : Type 0 where
  pub provider : Option ℕ
  pub url : String
  pub chain_id : ℕ
  pub network_name : String
  pub last_connected : Option ℕ
  pub connection_attempts : ℕ
  pub is_connecting : Bool
  pub watched_addresses : List String

unfoldable pub new_socket : String → ℕ → String → Socket
new_socket url chain_id network_name = record {
  provider = none;
  url = url;
  chain_id = chain_id;
  network_name = network_name;
  last_connected = none;
  connection_attempts = 0;
  is_connecting = false;
  watched_addresses = [];
}

-- What the race of an opening and its timeout settles with: a provider and the time, or an error.
pub data Opening : Type 0 where
  opened : ℕ → ℕ → Opening
  failed : String → Opening

-- A positive fraction, by its numerator and its denominator.
pub record Fraction : Type 0 where
  pub top : ℕ
  pub bottom : ℕ

abbrev pub max_reconnect_attempts : ℕ
max_reconnect_attempts = 10

abbrev pub initial_reconnect_delay : ℕ
initial_reconnect_delay = 1000

abbrev pub max_reconnect_delay : ℕ
max_reconnect_delay = 60000

-- The initial delay times 1.5 to the power of the attempts less one, which may be -1, and its maximum.
unfoldable pub backoff_delay : ℕ → Fraction
backoff_delay zero = record { top = initial_reconnect_delay * 2; bottom = 3 }
backoff_delay (suc n) =
    if ltb (max_reconnect_delay * 2 ^ n) (initial_reconnect_delay * 3 ^ n)
    then record { top = max_reconnect_delay; bottom = 1 }
    else record { top = initial_reconnect_delay * 3 ^ n; bottom = 2 ^ n }

-- The delay b + (r * 0.2 b * 2 - 0.2 b), which is b (4 + 2 r) / 5, for the random fraction r.
unfoldable pub jittered : Fraction → Fraction → Fraction
jittered random b = record {
  top = b.top * (4 * random.bottom + 2 * random.top);
  bottom = b.bottom * (5 * random.bottom);
}

-- A timer for the next attempt, with the delay before its jitter, or the critical error.
pub data Reconnect : Type 0 where
  scheduled : Fraction → Reconnect
  critical_error : String → ℕ → Reconnect

unfoldable pub attempt_reconnect : Socket → Reconnect
attempt_reconnect ws =
    if ltb max_reconnect_attempts ws.connection_attempts
    then critical_error ws.network_name ws.chain_id
    else scheduled (backoff_delay ws.connection_attempts)

-- The beginning of `connectWebSocket`, when no attempt is under way.
unfoldable pub start_connecting : Socket → Socket
start_connecting ws = record ws {
  is_connecting = true;
  connection_attempts = suc ws.connection_attempts;
}

-- The handler of an open connection.
unfoldable pub on_open : ℕ → Socket → Socket
on_open now ws = record ws {
  last_connected = some now;
  connection_attempts = 0;
  is_connecting = false;
}

-- The end of `connectWebSocket`.
unfoldable pub finish_connecting :
    Opening → Socket → Socket × Fallible (String × Reconnect) (Unit {0})
finish_connecting (opened p now) ws =
    (record (on_open now ws) { provider = some p; is_connecting = false }, ok tt)
finish_connecting (failed e) ws =
    let idle = record ws { is_connecting = false } in (idle, err (e, attempt_reconnect idle))

-- `connectWebSocket` when nothing comes between its beginning and its end. While another attempt is under
-- way it returns at once, as if it had connected.
unfoldable pub connect_web_socket :
    Opening → Socket → Socket × Fallible (String × Reconnect) (Unit {0})
connect_web_socket opening ws =
    if ws.is_connecting then (ws, ok tt) else finish_connecting opening (start_connecting ws)

-- Is the provider this one?
abbrev pub holds : ℕ → Option ℕ → Bool
holds p none = false
holds p (some q) = q == p

-- The handler of a connection that closes; only of the provider in use is another made.
unfoldable pub on_close : ℕ → Socket → Socket × Option Reconnect
on_close p ws =
    if holds p ws.provider
    then (record ws { provider = none }, some (attempt_reconnect ws))
    else (ws, none)
