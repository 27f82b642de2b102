-- ===== src/Threading/LocalThread/Messages/Login.antt =====
-- What a login does to the sessions.
use mmorpg_server.Base.{
  ℕ, none, some, arith, true, ◌≡◌, List, ap, ◌∙◌, Option-cases, inl, inr, update, refl, ◌≢◌,
  ==_refl, update_self, update-ne, sym,
}
use mmorpg_server.Common.Types.{SessionState, is_temp_disconnect}
use mmorpg_server.Common.Protocol.{pkt_login_res}
use mmorpg_server.Network.World.{Session, World, Env}
use mmorpg_server.Network.Session as SessionModule
use mmorpg_server.Network.Socket as SocketModule
use mmorpg_server.Network.Registry.{find_session_by_usn}
use mmorpg_server.Network.Registry.Reconnect.{find_session_by_usn-MayReconnect}
use mmorpg_server.Common.MpscQueue
use mmorpg_server.Common.PacketPool.{acquire}
use mmorpg_server.Network.World.{set_socket}
use mmorpg_server.Threading.LocalThread.Messages.{take_socket_from, restore_session, login_response}

-- A session that `FindSessionByUsn` returns keeps its socket: the branch of the login that takes it
-- away is never reached.
pub take_socket_from-find_session_by_usn :
    (e : Env) (w : World) (usn token p old : ℕ)
    → (find_session_by_usn e w usn token true).0 ≡ some old
    → let w' = (find_session_by_usn e w usn token true).1 in take_socket_from e w' p old ≡ w'
unfolding take_socket_from
take_socket_from-find_session_by_usn e w usn token p old h =
    let (_, may, kept) = find_session_by_usn-MayReconnect e w usn token old true h in
    let waiting : is_temp_disconnect
          (((find_session_by_usn e w usn token true).1.sessions old).state)
        ≡ true =
      ap (λ sessions. is_temp_disconnect (sessions old).state) kept ∙ may.waiting in
    ground (arith, waiting)

close_sessions : (e : Env) (w : World) (s : ℕ) → (SocketModule.close e w s).sessions ≡ w.sessions
unfolding SocketModule.close SocketModule.shut_down SocketModule.drain_send_queue
close_sessions e w s = ground arith

socket_send_sessions :
    (e : Env) (w : World) (s packet : ℕ)
    → (SocketModule.send e w s (some packet)).1.sessions ≡ w.sessions
unfolding SocketModule.send SocketModule.wake
socket_send_sessions e w s packet = ground (
  arith,
  close_sessions e w s,
  close_sessions e
      (set_socket w s
        (record (w.sockets s) { send_queue = (MpscQueue.push (w.sockets s).send_queue packet).1 }))
      s,
)

send_message_sessions :
    (e : Env) (w : World) (p protocol_id : ℕ) (bytes : List ℕ)
    → (SessionModule.send_message e w p protocol_id bytes).1.sessions ≡ w.sessions
unfolding SessionModule.send_message
send_message_sessions e w p protocol_id bytes = elim (Option-cases (w.sessions p).socket) [
  | inl unbound ↦ rw (SessionModule.send_message, unbound) refl
  | inr (s, bound) ↦ elim (Option-cases (acquire w.pool e.thread).0) [
    | inl dry ↦ ground (arith, bound, dry)
    | inr (packet, got) ↦
        let pool = (acquire w.pool e.thread).1 in
        let buffer =
          SessionModule.compose (pool.buffers packet) protocol_id bytes
            (w.sessions p).owner_session_id in
        let kept =
          socket_send_sessions e
            (record w { pool = record pool { buffers = update pool.buffers packet buffer } }) s
            packet in
        ground (arith, bound, got, kept)
  ]
]

unbind_others :
    (w : World) (p q : ℕ) → p ≢ q → (SessionModule.unbind_socket w p).sessions q ≡ w.sessions q
unfolding SessionModule.unbind_socket SocketModule.unbind_session
unbind_others w p q other = ground (arith, other)

unbind_itself :
    (w : World) (p s : ℕ)
    → (w.sessions p).socket ≡ some s
    → (SessionModule.unbind_socket w p).sessions p ≡ record (w.sessions p) { socket = none }
unfolding SessionModule.unbind_socket SocketModule.unbind_session
unbind_itself w p s bound = simp (SessionModule.unbind_socket, bound, ==_refl p) refl

bind_itself :
    (e : Env) (w : World) (p s : ℕ)
    → (w.sessions p).socket ≡ none
    → (SessionModule.bind_socket e w p s).1.sessions p
      ≡ record (w.sessions p) { socket = some s; disconnect_time = 0; last_active_time = e.now }
unfolding SessionModule.bind_socket SocketModule.bind_session
bind_itself e w p s free = simp (SessionModule.bind_socket, free, ==_refl p) refl

bind_others :
    (e : Env) (w : World) (p q s : ℕ)
    → p ≢ q
    → (SessionModule.bind_socket e w p s).1.sessions q ≡ w.sessions q
unfolding SessionModule.bind_socket SocketModule.bind_session
bind_others e w p q s other = ground (arith, other)

-- A reconnect: the socket of the session that logged in moves to the old session, another one
-- that has no socket. The old session is active, its timer is stopped, it has been active now,
-- and nothing else of it changes; the other session only loses its socket.
pub restore_session_lem :
    (e : Env) (w : World) (p old s : ℕ)
    → p ≢ old
    → (w.sessions p).socket ≡ some s
    → (w.sessions old).socket ≡ none
    → let w' = restore_session e w p old s in
      (w'.sessions old ≡ record (w.sessions old) {
        socket = some s;
        state = SessionState.active;
        disconnect_time = 0;
        last_active_time = e.now;
      })
      × (w'.sessions p ≡ record (w.sessions p) { socket = none })
unfolding restore_session SessionModule.set_state
restore_session_lem e w p old s other bound free =
    let w1 = SessionModule.unbind_socket w p in
    let w2 = (SessionModule.bind_socket e w1 old s).1 in
    let w3 = SessionModule.set_state w2 old SessionState.active in
    let sent = send_message_sessions e w3 old pkt_login_res (login_response (w3.sessions old)) in
    let kept = unbind_others w p old other in
    let active : w3.sessions old ≡ record (w2.sessions old) { state = SessionState.active } =
      update_self w2.sessions old (record (w2.sessions old) { state = SessionState.active }) in
    let aside : w3.sessions p ≡ w2.sessions p =
      update-ne w2.sessions old p (record (w2.sessions old) { state = SessionState.active })
        (λ same. other (sym same)) in
    (
      ap (λ g. g old) sent
          ∙ active
          ∙ ap {A = Session} {B = Session} (λ g. record g { state = SessionState.active })
              (bind_itself e w1 old s (ap (λ g. g.socket) kept ∙ free)
                ∙ ap {A = Session} {B = Session}
                    (λ g. record g {
                      socket = some s;
                      disconnect_time = 0;
                      last_active_time = e.now;
                    })
                    kept),
      ap (λ g. g p) sent
          ∙ aside
          ∙ bind_others e w1 old p s (λ same. other (sym same))
          ∙ unbind_itself w p s bound,
    )
