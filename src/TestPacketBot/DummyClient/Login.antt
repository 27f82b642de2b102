-- ===== src/TestPacketBot/DummyClient/Login.antt =====
-- The login of a bot: what it sends, and what it takes from the server's answer.
use mmorpg_server.Base.{
  [], refl, ℕ, arith, ◌≡◌, List, false, ◌<◌, ◌++◌, ◌^◌, true, ◌∷◌, Bool, add64, ◌≢◌, ◌%◌, ap, ◌∙◌,
  append_assoc, sym, append-nil, ◌⊎◌, if◌then◌else◌,
}
use mmorpg_server.Common.Protocol.{
  LoginPacket, initialize_login, login_to_bytes, read_login, initialize_login_response,
  login_response_to_bytes, login_response_packet_size,
}
use mmorpg_server.Common.Protocol.RoundTrip.{
  read_login-initialize_login, read_login_response-login_response_to_bytes,
}
use mmorpg_server.TestPacketBot.DummyClient.Unchanged.{send_login-frame, do_read-frame}
use mmorpg_server.TestPacketBot.DummyClient.{
  Bot, Shared, login, playing, unstarted, connecting, rolling_disconnect, mass_dropping,
  zombie_dead, BotState, wait_latency, connected, is_connected, is_reconnect_state, token_to_send,
  on_connect, send_login_packet, do_write, do_read, async_read, async_write, on_login_response,
  count_login, on_latency,
}

-- The request that the state of a bot calls for: in `None` it asks for a new session, and in the
-- states in which it comes back for its old one, with the token that it was given, if any.
pub record IsRequest (b : Bot) (p : LoginPacket) : Type 0 where
  pub header : p.header ≡ record { size = 21; protocol_id = 100 }
  pub usn : p.usn ≡ b.my_usn
  pub new_session : b.bot_state ≡ unstarted → (p.is_reconnect ≡ false) × (p.token ≡ 0)
  pub old_session :
      (b.bot_state ≡ connecting)
        ⊎ ((b.bot_state ≡ rolling_disconnect) ⊎ (b.bot_state ≡ mass_dropping))
      → (p.is_reconnect ≡ true)
        × (b.has_login_info ≡ true → p.token ≡ b.reconnect_token)
        × (b.has_login_info ≡ false → p.token ≡ 0)

login_of : Bool → Bot → LoginPacket
login_of r b = initialize_login b.my_usn (token_to_send r b) r

-- The state decides on the flag.
is_reconnect_lem :
    (state : BotState)
    → (state ≡ unstarted → is_reconnect_state state ≡ false)
      × ((state ≡ connecting) ⊎ ((state ≡ rolling_disconnect) ⊎ (state ≡ mass_dropping))
          → is_reconnect_state state ≡ true)
is_reconnect_lem unstarted = (λ _. refl, λ h. ground (arith, h))
is_reconnect_lem connecting = (λ h. cc, λ _. refl)
is_reconnect_lem login = (λ h. cc, λ h. ground (arith, h))
is_reconnect_lem playing = (λ h. cc, λ h. ground (arith, h))
is_reconnect_lem rolling_disconnect = (λ h. cc, λ _. refl)
is_reconnect_lem mass_dropping = (λ h. cc, λ _. refl)
is_reconnect_lem zombie_dead = (λ h. cc, λ h. ground (arith, h))

login_of-IsRequest :
    (b : Bot) (p : LoginPacket)
    → p ≡ record {
      header = record { size = 21; protocol_id = 100 };
      usn = b.my_usn;
      token = token_to_send (is_reconnect_state b.bot_state) b;
      is_reconnect = is_reconnect_state b.bot_state;
    }
    → IsRequest b p
unfolding token_to_send
login_of-IsRequest b p e =
    let (fresh, back) = is_reconnect_lem b.bot_state in
    rw e (record {
      header = refl;
      usn = refl;
      new_session = λ h. ground (arith, fresh h);
      old_session = λ h. ground (arith, back h);
    })

-- The bytes of a request stand in the buffer when nothing waits to be sent, and they go out at
-- once or after the timer.
send_login_tasks :
    (is_reconnect : Bool) (b : Bot)
    → b.send_size ≡ 0
    → is_connected b.connection_state ≡ true
    → let bytes = login_to_bytes (login_of is_reconnect b) in
      let b' = send_login_packet is_reconnect b in
      (b'.tasks
        ≡ b.tasks ++ (if b.enable_artificial_latency then wait_latency else async_write bytes) ∷ [])
      × (b'.send_buffer ≡ bytes)
unfolding send_login_packet do_write login_of
send_login_tasks true b free up = rw (free, up) (ground arith)
send_login_tasks false b free up = rw (free, up) (ground arith)

pub do_read_tasks :
    (b : Bot)
    → is_connected b.connection_state ≡ true
    → (do_read b).tasks ≡ b.tasks ++ async_read ∷ []
unfolding do_read
do_read_tasks b up = rw up refl

do_read-send_buffer : (b : Bot) → (do_read b).send_buffer ≡ b.send_buffer
unfolding do_read
do_read-send_buffer b = ground arith

on_latency_tasks :
    (b : Bot)
    → is_connected b.connection_state ≡ true
    → (on_latency false b).tasks ≡ b.tasks ++ async_write b.send_buffer ∷ []
unfolding on_latency
on_latency_tasks b up = rw up refl

-- A bot whose connect succeeds, with nothing unsent and a USN and a token below 2 ^ 64, waits
-- for its login and has started a read, and a write or, with artificial latency, the timer
-- whose handler starts the write. The bytes of the write are read by the server as a login with
-- the bot's USN: in the state None the bot asks for a new session with the token 0; in
-- Connecting, RollingDisconnect and MassDropping it asks for its old session, with its token if
-- it has been given one and 0 if not.
pub on_connect-read_login :
    (random now : ℕ) (b : Bot) (sh : Shared)
    → b.send_size ≡ 0
    → b.my_usn < 2 ^ 64
    → b.reconnect_token < 2 ^ 64
    → let b' = (on_connect false random now b sh).0 in
      (b'.bot_state ≡ login)
      × ((bytes : List ℕ) × (b'.tasks
            ≡ b.tasks
              ++ (if b.enable_artificial_latency then wait_latency else async_write bytes)
                ∷ async_read
                ∷ [])
          × ((on_latency false b').tasks ≡ b'.tasks ++ async_write bytes ∷ [])
          × IsRequest b (read_login bytes))
unfolding on_connect token_to_send login_of
on_connect-read_login random now b sh free usn64 token64 =
    let online = record b {
      connection_state = connected;
      connect_start_time = now;
      last_send_time = now;
      next_send_time = add64 (add64 now b.send_interval_ms) (random % b.send_interval_ms);
    } in
    let r = is_reconnect_state b.bot_state in
    let sent = send_login_packet r online in
    let waiting = record sent { bot_state = login } in
    let bytes = login_to_bytes (login_of r b) in
    let first = if b.enable_artificial_latency then wait_latency else async_write bytes in
    let up = send_login-frame r online in
    let (posted, stored) = send_login_tasks r online free refl in
    let token : token_to_send r b < 2 ^ 64 = ground (arith, token64) in
    (
      (do_read-frame waiting).1,
      (
        bytes,
        do_read_tasks waiting (ap is_connected up)
            ∙ ap (λ ts. ts ++ async_read ∷ []) posted
            ∙ append_assoc b.tasks (first ∷ []) (async_read ∷ []),
        on_latency_tasks (do_read waiting) (ap is_connected ((do_read-frame waiting).0 ∙ up))
            ∙ ap (λ bs. (do_read waiting).tasks ++ async_write bs ∷ [])
                (do_read-send_buffer waiting ∙ stored),
        login_of-IsRequest b (read_login bytes) (
            ap read_login (sym (append-nil bytes))
            ∙ (read_login-initialize_login b.my_usn (token_to_send r b) r [] usn64 token).2),
      ),
    )

-- What the bot makes of an answer that it has been let in
pub record IsLoggedIn (b : Bot) (session_id token : ℕ) (b' : Bot) : Type 0 where
  pub plays : b'.bot_state ≡ playing
  pub session : b'.server_session_id ≡ session_id
  pub token_kept : b'.reconnect_token ≡ token
  pub informed : b'.has_login_info ≡ true
  pub restored :
      b.just_restored ≡ true
      → b.reconnect_token ≡ token
      → b.reconnect_token ≢ 0
      → (b'.stats.success_reconnect_count ≡ add64 b.stats.success_reconnect_count 1)
        × (b'.stats.new_login_count ≡ b.stats.new_login_count)
  pub replaced :
      b.just_restored ≡ true
      → b.reconnect_token ≢ token
      → (b'.stats.success_reconnect_count ≡ b.stats.success_reconnect_count)
        × (b'.stats.new_login_count ≡ add64 b.stats.new_login_count 1)

-- A bot that gets a login response that lets it in, with a 64-bit session id and token,
-- whatever follows in the buffer, plays with that session id and token; of a bot that came back
-- it counts a restored session if the token is the one it had (and not 0), and a new login if
-- it is another.
pub on_login_response_lem :
    (b : Bot) (session_id token : ℕ) (rest : List ℕ)
    → session_id < 2 ^ 64
    → token < 2 ^ 64
    → IsLoggedIn b session_id token (
        on_login_response
          (login_response_to_bytes (initialize_login_response session_id token true) ++ rest)
          login_response_packet_size
          b)
unfolding on_login_response initialize_login_response count_login
on_login_response_lem b session_id token rest small small' =
    rw (read_login_response-login_response_to_bytes session_id token true rest small small')
      (record {
        plays = refl;
        session = refl;
        token_kept = refl;
        informed = refl;
        restored = λ r same some_token. (ground (arith, r), ground (arith, r));
        replaced = λ r other. (ground (arith, r), ground (arith, r));
      })
