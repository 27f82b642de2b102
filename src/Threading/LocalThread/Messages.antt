-- ===== src/Threading/LocalThread/Messages.antt =====
-- The packets that CLocalThread handles: `HandlePacket` with its login, and `HandleBroadcast`.
-- `rand n` is what the `n`-th call of `rand()` returns.
pub mod Broadcast
pub mod Login
use mmorpg_server.Base.{
  [], ℕ, none, some, arith, Bool, slice, suc, Option, List, if◌then◌else◌, update, leb, true, ◌||◌,
  ltb, ◌==◌, add64, ◌%◌, false, ◌&&◌, ◌+◌, not, zero,
}
use mmorpg_server.Common.Types.{is_active, is_temp_disconnect, max_broadcast_targets, SessionState}
use mmorpg_server.Common.PacketPool.{PacketPool, acquire, copy_from}
use mmorpg_server.Common.Protocol.{
  pkt_move, pkt_login_req, pkt_login_res, login_packet_size, LoginPacket, LoginResponsePacket,
  read_login, login_response_to_bytes,
}
use mmorpg_server.Network.World.{Session, World, Env, Task, set_session, post, release_packet}
use mmorpg_server.Network.Session
use mmorpg_server.Network.Socket
use mmorpg_server.Network.Registry.{find_session_by_usn}
use mmorpg_server.Threading.LocalThread.{LocalThread, post_remove_session}

-- Who a broadcast is for
unfoldable pub is_target : Session → ℕ → ℕ → Bool
is_target g map_id exclude_session_id =
    g.owner_map_id == map_id && not (g.owner_session_id == exclude_session_id) && is_active g.state

-- A copy of the packet for one session, and the count of those sent
unfoldable pub send_copy : Env → World → ℕ → ℕ → ℕ → ℕ × World
send_copy e w packet p send_count =
    let (out, pool) = acquire w.pool e.thread in
    elim out [
      | none ↦ (send_count, record w { pool = pool })
      | some copy ↦
          let b = pool.buffers packet in
          let buffer =
            copy_from (pool.buffers copy) (slice b.data_ 0 b.size) b.protocol_id
              (w.sessions p).owner_session_id in
          let (sent, w') =
            Session.send e
              (record w { pool = record pool { buffers = update pool.buffers copy buffer } }) p
              copy in
          (if sent then add64 send_count 1 else send_count, w')
    ]

-- The loop of `HandleBroadcast` for `n` indices from `start_index + k` on, round the active sessions
unfoldable pub broadcast_from : Env → LocalThread → World → ℕ → ℕ → ℕ → ℕ → ℕ → ℕ → ℕ → ℕ × World
broadcast_from e t w map_id packet exclude_session_id start_index k send_count zero =
    (send_count, w)
broadcast_from e t w map_id packet exclude_session_id start_index k send_count (suc n) =
    elim (leb max_broadcast_targets send_count) [
      | true ↦ (send_count, w)
      | false ↦ elim (t.active_sessions ((start_index + k) % t.active_session_count)) [
        | none ↦
            broadcast_from e t w map_id packet exclude_session_id start_index (k + 1) send_count n
        | some p ↦
            let (send_count', w') =
              if is_target (w.sessions p) map_id exclude_session_id
              then send_copy e w packet p send_count
              else (send_count, w) in
            broadcast_from e t w' map_id packet exclude_session_id start_index (k + 1) send_count' n
      ]
    ]

unfoldable pub handle_broadcast :
    (ℕ → ℕ) → Env → LocalThread → World → ℕ → Option ℕ → ℕ → LocalThread × World
handle_broadcast rand e t w map_id none exclude_session_id = (t, w)
handle_broadcast rand e t w map_id (some packet) exclude_session_id =
    if t.active_session_count == 0
    then (t, w)
    else let (send_count, w') =
        broadcast_from e t w map_id packet exclude_session_id
          (rand t.rand_calls % t.active_session_count) 0 0 t.active_session_count in
      (
        record t { packets_sent = add64 t.packets_sent send_count; rand_calls = t.rand_calls + 1 },
        release_packet e w' packet,
      )

abbrev pub same_socket : Option ℕ → Option ℕ → Bool
same_socket none none = true
same_socket (some a) (some b) = a == b
same_socket _ _ = false

-- An old session that is not waiting loses its socket, if that is not the socket of the login.
unfoldable pub take_socket_from : Env → World → ℕ → ℕ → World
take_socket_from e w p old = elim (w.sessions old).socket [
  | none ↦ w
  | some s ↦
      if is_temp_disconnect (w.sessions old).state || same_socket (some s) (w.sessions p).socket
      then w
      else Socket.close e (post (Session.unbind_socket w old) (Task.destroy_socket s)) s
]

-- The response of a login; its header stays zero until `Send` writes it.
abbrev pub login_response : Session → List ℕ
login_response g = login_response_to_bytes (record {
  header = record { size = 0; protocol_id = 0 };
  session_id = g.owner_session_id;
  token = g.reconnect_token.token;
  success = true;
})

-- Case A: the socket `s` of the login moves to the old session, which becomes active again.
unfoldable pub restore_session : Env → World → ℕ → ℕ → ℕ → World
restore_session e w p old s =
    let w1 = Session.unbind_socket w p in
    let (_, w2) = Session.bind_socket e w1 old s in
    let w3 = Session.set_state w2 old SessionState.active in
    (Session.send_message e w3 old pkt_login_res (login_response (w3.sessions old))).1

-- Case B: the session of the login becomes the player's.
unfoldable pub accept_login : Env → World → ℕ → ℕ → World
accept_login e w p usn =
    let w' = set_session w p (record (w.sessions p) { usn = usn; owner_account_id = usn }) in
    (Session.send_message e w' p pkt_login_res (login_response (w'.sessions p))).1

-- Both cases, before the packet is released
unfoldable pub answer_login : Env → LocalThread → World → ℕ → Option ℕ → ℕ → LocalThread × World
answer_login e t w p none usn = (t, accept_login e w p usn)
answer_login e t w p (some old) usn = elim (w.sessions p).socket [
  | none ↦ (t, w)
  | some s ↦
      let w' = restore_session e w p old s in
      ((post_remove_session t (w'.sessions p).owner_session_id).1, w')
]

unfoldable pub handle_login : Env → LocalThread → World → ℕ → ℕ → LocalThread × World
handle_login e t w p packet =
    let b = w.pool.buffers packet in
    if ltb b.size login_packet_size
    then (t, release_packet e w packet)
    else let request = read_login (slice b.data_ 0 login_packet_size) in
      let (old, w1) =
        if ltb 0 request.token
        then find_session_by_usn e w request.usn request.token true
        else (none, w) in
      let w2 : World = elim old [ none ↦ w1 | some q ↦ take_socket_from e w1 p q ] in
      let (t', w3) = answer_login e t w2 p old request.usn in (t', release_packet e w3 packet)

unfoldable pub handle_packet : (ℕ → ℕ) → Env → LocalThread → World → ℕ → ℕ → LocalThread × World
handle_packet rand e t w p packet =
    let protocol_id = (w.pool.buffers packet).protocol_id in
    let g = w.sessions p in
    if protocol_id == pkt_move
    then handle_broadcast rand e t w g.owner_map_id (some packet) g.owner_session_id
    else if protocol_id == pkt_login_req
    then handle_login e t w p packet
    else (t, release_packet e w packet)
