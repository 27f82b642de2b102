-- ===== src/Network/Session/Disconnect.antt =====
-- What the loss of a connection does to a session, and the time a session then waits.
use mmorpg_server.Base.{
  ℕ, arith, ◌<◌, ◌≡◌, ◌≤◌, some, true, ◌^◌, none, false, leb, ◌++◌, ◌≢◌, ◌∷◌, ◌+◌, [],
  if◌then◌else◌, ◌||◌,
}
use mmorpg_server.Common.Types.{SessionState, is_active, is_temp_disconnect}
use mmorpg_server.Network.World.{Session, World, Env, Task}
use mmorpg_server.Network.Session.{
  start_disconnect_timer, is_disconnect_timer_expired, on_socket_disconnected, abandon_socket,
  unbind_socket, reset, initialize, drain_incoming, bind_socket,
}
use mmorpg_server.Network.Socket.{unbind_session, bind_session}

-- A session whose timer is started at a time other than 0 is expired at a later time, below 2 ^
-- 64, exactly if ten seconds or more have passed.
pub disconnect_timer_lem :
    (start later : Env) (g : Session)
    → 0 < start.now
    → start.now ≤ later.now
    → later.now < 2 ^ 64
    → is_disconnect_timer_expired later (start_disconnect_timer start g)
      ≡ leb (start.now + 10000) later.now
unfolding is_disconnect_timer_expired start_disconnect_timer
disconnect_timer_lem start later g positive order small = ground arith

-- When the socket of a session is lost, session and socket forget each other, the destruction
-- of the socket is posted, the session keeps its token and its packets, and it waits for a
-- reconnect if it was active or waiting, and is closed otherwise.
pub on_socket_disconnected_lem :
    (e : Env) (w : World) (p s : ℕ)
    → (w.sessions p).socket ≡ some s
    → let w' = on_socket_disconnected e w p in
      ((w'.sessions p).socket ≡ none)
      × ((w'.sockets s).session ≡ none)
      × (w'.tasks ≡ w.tasks ++ Task.destroy_socket s ∷ [])
      × ((w'.sessions p).reconnect_token ≡ (w.sessions p).reconnect_token)
      × ((w'.sessions p).incoming_queue ≡ (w.sessions p).incoming_queue)
      × ((w'.sessions p).state ≡ (
          if is_active (w.sessions p).state || is_temp_disconnect (w.sessions p).state
          then SessionState.temp_disconnect
          else SessionState.closed))
unfolding on_socket_disconnected abandon_socket unbind_socket unbind_session start_disconnect_timer
on_socket_disconnected_lem e w p s bound = ground (arith, bound)

-- A bound session takes no second socket; a session without a socket takes it, and the socket then
-- carries the session and its id.
pub bind_socket_lem :
    (e : Env) (w : World) (p s : ℕ)
    → let (done, w') = bind_socket e w p s in
      ((done ≡ true)
        → ((w'.sessions p).socket ≡ some s)
          × ((w'.sockets s).session ≡ some p)
          × ((w'.sockets s).session_id ≡ (w'.sessions p).owner_session_id)
          × ((w'.sessions p).disconnect_time ≡ 0))
      × ((done ≡ false) → (w' ≡ w) × ((w.sessions p).socket ≢ none))
unfolding bind_socket bind_session
bind_socket_lem e w p s = ground arith

-- A session that is reset and initialised for the next player still has the account number
-- (USN) of the last one.
pub initialize-reset_usn :
    (e : Env) (w : World) (p id thread : ℕ)
    → ((initialize e (reset e w p) p id thread).sessions p).usn ≡ (w.sessions p).usn
unfolding initialize reset unbind_socket drain_incoming unbind_session
initialize-reset_usn e w p id thread = ground arith
