-- ===== src/Monitoring/Tests.antt =====
-- Tests of the monitoring service, and its theorems at concrete inputs.
use alive_human.Base.{
  ℕ, ◌+◌, ◌*◌, ◌≤◌, ◌≡◌, arith, false, String, refl, List, [], ◌∷◌, some, Fallible, ok,
  if◌then◌else◌,
}
use alive_human.Base.Dict.{insert, lookup}
use alive_human.Base.Texts.{is_in, to_lower}
use alive_human.Monitoring.{
  Socket, new_socket, opened, failed, scheduled, critical_error, backoff_delay, attempt_reconnect,
  jittered, connect_web_socket, start_connecting, finish_connecting, on_open, on_close,
}
use alive_human.Monitoring.Listening.{emit, on_block, balance_change}
use alive_human.Monitoring.Service.{
  Monitoring, reconnect, set_up, not_connected, setup_web_socket, find_socket, stop_monitoring,
  close_event, cleanup,
}
use alive_human.Monitoring.Delays.{attempt_reconnect-bounds}
use alive_human.Monitoring.Failures.{retries, failures-give_up}
use alive_human.Monitoring.Resubscribing.{changes, reconnect-reports}
use alive_human.Monitoring.Stopping.{stop_monitoring-silences}

abbrev main_net : Socket
main_net = record {
  provider = some 7;
  url = "wss://a";
  chain_id = 1;
  network_name = "ethereum";
  last_connected = some 5;
  connection_attempts = 0;
  is_connecting = false;
  watched_addresses = "0xA" ∷ "0xB" ∷ [];
}

abbrev nothing : Monitoring
nothing = record { sockets = []; listeners = [] }

abbrev old : String → ℕ
old a = 5

abbrev new : String → ℕ
new a = if is_in a ("0xA" ∷ []) then 5 else 9

abbrev reading : (String → ℕ) → ℕ → String → Fallible String ℕ
reading balance p a = ok (balance a)

set_up_twice :
    (setup_web_socket
      (opened 8 6)
      "wss://a"
      1
      "ethereum"
      (setup_web_socket (opened 7 5) "wss://a" 1 "ethereum" nothing).0).1
    ≡ set_up (some 7)
unfolding setup_web_socket connect_web_socket start_connecting finish_connecting on_open new_socket
    lookup insert
set_up_twice = refl

-- The service that failed to connect has no connection, and a timer for one.
orphan : setup_web_socket (failed "down") "wss://a" 1 "ethereum" nothing ≡ (
  nothing,
  not_connected "down"
      (record (new_socket "wss://a" 1 "ethereum") { connection_attempts = 1 })
      (scheduled (record { top = 1000; bottom = 1 })),
)
unfolding setup_web_socket connect_web_socket start_connecting finish_connecting new_socket lookup
    attempt_reconnect backoff_delay
orphan = refl

-- The connection that `cleanup` closes is made again.
closed_by_cleanup :
    (cleanup (("wss://a", main_net) ∷ []) ≡ 7 ∷ [])
    × ((close_event 7 (("wss://a", main_net) ∷ [])).1
        ≡ some (scheduled (record { top = 2000; bottom = 3 })) ∷ [])
unfolding cleanup close_event on_close attempt_reconnect backoff_delay
closed_by_cleanup = (refl, refl)

-- A balance that changed once is reported at every block.
reported_again :
    (number : ℕ)
    → emit (on_block (reading new) number) 7 (reconnect (reading old) (opened 7 5) main_net).1.0
      ≡ changes 1 "ethereum" old new number ("0xA" ∷ "0xB" ∷ [])
reported_again number = reconnect-reports old new 7 5 number main_net refl

reconnect-reports_example :
    emit (on_block (reading new) 100) 7 (reconnect (reading old) (opened 7 5) main_net).1.0
    ≡ balance_change 1 "ethereum" (to_lower "0xB") 5 9 100 ∷ []
reconnect-reports_example = reconnect-reports old new 7 5 100 main_net refl

attempt_reconnect-bounds_example :
    (jittered (record { top = 1; bottom = 2 }) (record { top = 2000; bottom = 3 })).top
    ≤ 46133 * (jittered (record { top = 1; bottom = 2 }) (record { top = 2000; bottom = 3 })).bottom
unfolding attempt_reconnect backoff_delay
attempt_reconnect-bounds_example =
    attempt_reconnect-bounds main_net (record { top = 1; bottom = 2 })
      (record { top = 2000; bottom = 3 }) (omega arith) refl

abbrev errors : List String
errors = "down" ∷ "down" ∷ "down" ∷ []

failures-give_up_example :
    (9 + (retries (reading old) errors (record main_net { connection_attempts = 9 })).1.0 ≡ 11)
    × ((retries (reading old) errors (record main_net { connection_attempts = 9 })).1.1
        ≡ some (critical_error "ethereum" 1))
failures-give_up_example =
    failures-give_up (reading old) errors (record main_net { connection_attempts = 9 }) refl
      (omega arith) (omega arith)

abbrev watching : Monitoring
watching = record {
  sockets = ("wss://a", main_net) ∷ [];
  listeners = (reconnect (reading old) (opened 7 5) main_net).1.0;
}

stop_monitoring-silences_example :
    emit (on_block (reading new) 100) 7 (stop_monitoring (some 1) "0xA" watching).listeners ≡ []
unfolding find_socket
stop_monitoring-silences_example =
    stop_monitoring-silences (on_block (reading new) 100) (some 1) "0xA" "wss://a" main_net 7 7
      watching refl refl refl
