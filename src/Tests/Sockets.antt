-- ===== src/Tests/Sockets.antt =====
-- CSocket, CGameSession and CNetworkMonitor of Source/Core/Network at concrete inputs.
use mmorpg_server.Base.{[], ℕ, arith, ◌≡◌, ◌<◌, some, true, none, false, ◌&&◌, ◌≢◌, ◌∷◌, refl}
use mmorpg_server.Common.Types.{SessionState, send_batch_size, max_send_queue_size_lod1}
use mmorpg_server.Common.MpscQueue.Refine.{contents}
use mmorpg_server.Network.Monitor.{initial_monitor, on_disconnect, update_monitor}
use mmorpg_server.Network.Monitor.Limits.{start, update_monitor_window}
use mmorpg_server.Network.World.{World, Task, process_send_queue}
use mmorpg_server.Network.Drain.{release_all}
use mmorpg_server.Network.Socket.{is_connected, close, send, process_send_queue_now, gather}
use mmorpg_server.Network.Socket.Closing.{close-release_all}
use mmorpg_server.Network.Socket.Sending.{send_lem, process_send_queue_lem}
use mmorpg_server.Network.Session.{on_socket_disconnected, bind_socket}
use mmorpg_server.Network.Session.Disconnect.{on_socket_disconnected_lem, bind_socket_lem}
use mmorpg_server.Tests.Server.{server, thread_0, queue, queue-IsValid, pool, session}

connected : is_connected (server.sockets 0) ≡ true
unfolding is_connected
connected = refl

close-release_all_example :
    let w' = close thread_0 server 0 in
    (w'.pool
      ≡ release_all (release_all pool 0 (gather (λ _. none) 0 send_batch_size)) 0 (0 ∷ 1 ∷ []))
    × (contents (w'.sockets 0).send_queue ≡ [])
    × ((i : ℕ) → i < send_batch_size → (w'.sockets 0).send_batch i ≡ none)
    × ((w'.sockets 0).is_open ≡ false)
    × (w'.monitor ≡ on_disconnect initial_monitor)
close-release_all_example =
    close-release_all thread_0 server 0 connected queue-IsValid (omega arith)

send_example :
    let (accepted, w') = send thread_0 server 0 (some 1) in
    let k' = w'.sockets 0 in
    (accepted ≡ (is_connected (server.sockets 0) && true))
    × (accepted ≡ true
        → (contents k'.send_queue ≡ 0 ∷ 1 ∷ 1 ∷ [])
          × (k'.is_sending ≡ true)
          × (w'.tasks ≡ process_send_queue 0 ∷ []))
    × (accepted ≡ false → w' ≡ close thread_0 server 0)
send_example = send_lem thread_0 server 0 1 queue-IsValid (omega arith) start

process_send_queue_example :
    let w' = process_send_queue_now thread_0 server 0 in
    let k' = w'.sockets 0 in
    (contents k'.send_queue ≡ [])
    × (contents queue ≢ [] → w'.tasks ≡ Task.async_write 0 (0 ∷ 1 ∷ []) ∷ [])
    × (contents queue ≡ [] → (k'.is_sending ≡ false) × (w'.tasks ≡ []))
process_send_queue_example = process_send_queue_lem thread_0 server 0 queue-IsValid connected refl

update_monitor_example :
    let m' = update_monitor initial_monitor 10000 in
    (m'.current_limit ≡ 4000)
    × (m'.current_limit ≢ max_send_queue_size_lod1)
    × (m'.disconnect_count ≡ 0)
    × (m'.elapsed_ms ≡ 0)
update_monitor_example = update_monitor_window initial_monitor 10000 (omega arith) (omega arith)

-- The session in a fight, with socket 0
abbrev playing : World
playing = record server {
  sessions = λ _. record session { state = SessionState.active; socket = some 0 };
}

on_socket_disconnected_example :
    let w' = on_socket_disconnected thread_0 playing 0 in
    ((w'.sessions 0).socket ≡ none)
    × ((w'.sockets 0).session ≡ none)
    × (w'.tasks ≡ Task.destroy_socket 0 ∷ [])
    × ((w'.sessions 0).reconnect_token ≡ session.reconnect_token)
    × ((w'.sessions 0).incoming_queue ≡ session.incoming_queue)
    × ((w'.sessions 0).state ≡ SessionState.temp_disconnect)
on_socket_disconnected_example = on_socket_disconnected_lem thread_0 playing 0 0 refl

bind_socket_example :
    let (done, w') = bind_socket thread_0 server 0 0 in
    ((done ≡ true)
      → ((w'.sessions 0).socket ≡ some 0)
        × ((w'.sockets 0).session ≡ some 0)
        × ((w'.sockets 0).session_id ≡ (w'.sessions 0).owner_session_id)
        × ((w'.sessions 0).disconnect_time ≡ 0))
    × ((done ≡ false) → (w' ≡ server) × (session.socket ≢ none))
bind_socket_example = bind_socket_lem thread_0 server 0 0
