-- ===== src/Network/Session.antt =====
-- CGameSession of Source/Core/Network/Session.h and Session.cpp. A pointer to a session or to a
-- socket is its number, as in `World`.
pub mod Compose
pub mod Disconnect
use mmorpg_server.Base.{
  ℕ, arith, none, ◌+◌, Bool, if◌then◌else◌, Option, List, some, ◌==◌, not, false, copy_to, true,
  leb, ◌||◌, u16, ltb, ◌*◌, length, sub64, update,
}
use mmorpg_server.Common.Types.{
  SessionState, is_active, is_temp_disconnect, ReconnectToken, generate_reconnect_token,
  packet_header_size, max_packet_size, reconnect_timeout_sec, is_same_state,
}
use mmorpg_server.Common.SpscQueue
use mmorpg_server.Common.PacketPool.{PacketBuffer, PacketPool, release, acquire}
use mmorpg_server.Common.Protocol.{header_to_bytes}
use mmorpg_server.Network.World.{
  Session, World, Env, Task, incoming_queue_capacity, set_session, set_socket, post, release_packet,
}
use mmorpg_server.Network.Drain.{drain}
use mmorpg_server.Network.Socket

-- `pSocket->UnbindSession(); pSocket = nullptr;` if there is a socket
unfoldable pub unbind_socket : World → ℕ → World
unbind_socket w p = elim (w.sessions p).socket [
  | none ↦ w
  | some s ↦ set_session (Socket.unbind_session w s) p (record (w.sessions p) { socket = none })
]

unfoldable pub initialize : Env → World → ℕ → ℕ → ℕ → World
initialize e w p id owner_thread_id =
    let (token, counters) = generate_reconnect_token w.counters in
    record (set_session w p (record (w.sessions p) {
      owner_session_id = id;
      owner_thread_id = owner_thread_id;
      owner_account_id = 0;
      owner_map_id = 0;
      socket = none;
      disconnect_time = 0;
      last_active_time = e.now;
      reconnect_token = record { token = token; timestamp = e.now };
      state = SessionState.connecting;
    })) { counters = counters }

-- The loop that empties `IncomingQueue`
unfoldable pub drain_incoming : Env → World → ℕ → World
drain_incoming e w p =
    let g = w.sessions p in
    let (queue, pool) =
      drain (SpscQueue.pop {A = ℕ} {capacity = incoming_queue_capacity}) e.thread
        (incoming_queue_capacity + 1) g.incoming_queue w.pool in
    record (set_session w p (record g { incoming_queue = queue })) { pool = pool }

unfoldable pub reset : Env → World → ℕ → World
reset e w p =
    let w' = drain_incoming e (unbind_socket w p) p in
    set_session w' p (record (w'.sessions p) {
      owner_session_id = 0;
      owner_account_id = 0;
      owner_thread_id = 0;
      owner_map_id = 0;
      disconnect_time = 0;
      last_active_time = 0;
      reconnect_token = record { token = 0; timestamp = 0 };
      state = SessionState.initial;
    })

-- The socket is bound before the two times are set; it reads only the session's id.
unfoldable pub bind_socket : Env → World → ℕ → ℕ → Bool × World
bind_socket e w p s = elim (w.sessions p).socket [
  | some _ ↦ (false, w)
  | none ↦
      let w' =
        Socket.bind_session (set_session w p (record (w.sessions p) { socket = some s })) s p in
      (
        true,
        set_session w' p (record (w'.sessions p) { disconnect_time = 0; last_active_time = e.now }),
      )
]

unfoldable pub validate_reconnect_token : Session → ℕ → Bool
validate_reconnect_token g token = g.reconnect_token.token == token

unfoldable pub start_disconnect_timer : Env → Session → Session
start_disconnect_timer e g = record g {
  disconnect_time = e.now;
  state = SessionState.temp_disconnect;
}

unfoldable pub is_disconnect_timer_expired : Env → Session → Bool
is_disconnect_timer_expired e g =
    if g.disconnect_time == 0
    then false
    else leb (reconnect_timeout_sec * 1000) (sub64 e.now g.disconnect_time)

unfoldable pub on_packet_received : Env → World → ℕ → ℕ → World
on_packet_received e w p packet =
    let g = w.sessions p in
    if not (is_active g.state)
    then release_packet e w packet
    else let (done, queue) = SpscQueue.push g.incoming_queue packet in
      let w' = set_session w p (record g { incoming_queue = queue; last_active_time = e.now }) in
      if done then w' else release_packet e w' packet

-- The socket is unbound, and its destruction posted.
unfoldable pub abandon_socket : World → ℕ → World
abandon_socket w p = elim (w.sessions p).socket [
  | none ↦ unbind_socket w p
  | some s ↦ post (unbind_socket w p) (Task.destroy_socket s)
]

unfoldable pub on_socket_disconnected : Env → World → ℕ → World
on_socket_disconnected e w p =
    let w' = abandon_socket w p in
    let g = w'.sessions p in
    set_session w' p (
      if is_active g.state || is_temp_disconnect g.state
      then start_disconnect_timer e g
      else record g { state = SessionState.closed })

unfoldable pub pop_incoming_packet : World → ℕ → Option ℕ × World
pop_incoming_packet w p =
    let g = w.sessions p in
    let (out, queue) = SpscQueue.pop g.incoming_queue in
    (out, set_session w p (record g { incoming_queue = queue }))

-- `Send(FPacketBuffer*)`: the packet of a send that fails is released.
unfoldable pub send : Env → World → ℕ → ℕ → Bool × World
send e w p packet = elim (w.sessions p).socket [
  | none ↦ (false, release_packet e w packet)
  | some s ↦
      if not (Socket.is_connected (w.sockets s))
      then (false, release_packet e w packet)
      else let (sent, w') = Socket.send e w s (some packet) in
        if sent then (true, w') else (false, release_packet e w' packet)
]

-- The buffer of a message: its bytes with the first four, the header, written over.
unfoldable pub compose : PacketBuffer → ℕ → List ℕ → ℕ → PacketBuffer
compose b protocol_id bytes session_id = record b {
  data_ =
      copy_to (copy_to b.data_ 0 bytes) 0
        (header_to_bytes (record { size = u16 (length bytes); protocol_id = protocol_id }));
  size = u16 (length bytes);
  protocol_id = protocol_id;
  session_id = session_id;
}

-- `Send(ProtocolId, const void* data, size_t size)`
unfoldable pub send_message : Env → World → ℕ → ℕ → List ℕ → Bool × World
send_message e w p protocol_id bytes = elim (w.sessions p).socket [
  | none ↦ (false, w)
  | some s ↦
      if ltb max_packet_size (length bytes)
      then (false, w)
      else let (out, pool) = acquire w.pool e.thread in
        let g = w.sessions p in
        elim out [
          | none ↦ (false, record w { pool = pool })
          | some packet ↦
              let buffer = compose (pool.buffers packet) protocol_id bytes g.owner_session_id in
              let (sent, w') =
                Socket.send e
                  (record w { pool = record pool { buffers = update pool.buffers packet buffer } })
                  s (some packet) in
              if sent then (true, w') else (false, release_packet e w' packet)
        ]
]

unfoldable pub set_state : World → ℕ → SessionState → World
set_state w p state = set_session w p (record (w.sessions p) { state = state })

-- `compare_exchange_strong` of the state
unfoldable pub transition_state : World → ℕ → SessionState → SessionState → Bool × World
transition_state w p expected new_state =
    if is_same_state (w.sessions p).state expected
    then (true, set_state w p new_state)
    else (false, w)

unfoldable pub update_last_active_time : Env → World → ℕ → World
update_last_active_time e w p = set_session w p (record (w.sessions p) { last_active_time = e.now })
