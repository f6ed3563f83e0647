-- ===== src/Monitoring/Stopping.antt =====
-- `stopMonitoring` of one address, and the listeners for the others.
use alive_human.Base.{ℕ, ◌≡◌, arith, true, String, List, [], ◌∷◌, Option, some, ◌==◌, if◌then◌else◌}
use alive_human.Base.Texts.{is_in}
use alive_human.Monitoring.{Socket}
use alive_human.Monitoring.Listening.{Emitted, emit, Registered, remove_all_listeners}
use alive_human.Monitoring.Service.{Monitoring, find_socket, is_chain, stop_monitoring}

emit-remove_all_listeners :
    (handler : Registered → List Emitted) (p q : ℕ) (rs : List Registered)
    → emit handler q (remove_all_listeners p rs) ≡ (if p == q then [] else emit handler q rs)
unfolding emit remove_all_listeners
emit-remove_all_listeners handler p q [] = ground arith
emit-remove_all_listeners handler p q (r ∷ rs) =
    ground (arith, emit-remove_all_listeners handler p q rs)

-- When the first connection of a chain watches the address and has the provider `p`: after `stop_monitoring` of
-- that address no event of `p` emits anything, for no address that it watches, and an event of any other
-- provider emits what it did before.
pub stop_monitoring-silences :
    (handler : Registered → List Emitted) (chain_id : Option ℕ) (address url : String) (ws : Socket)
    (p q : ℕ) (m : Monitoring)
    → find_socket (is_chain chain_id) m.sockets ≡ some (url, ws)
    → is_in address ws.watched_addresses ≡ true
    → ws.provider ≡ some p
    → emit handler q (stop_monitoring chain_id address m).listeners
      ≡ (if p == q then [] else emit handler q m.listeners)
unfolding stop_monitoring
stop_monitoring-silences handler chain_id address url ws p q m found watched connected =
    ground (arith, found, watched, connected, emit-remove_all_listeners handler p q m.listeners)
