-- ===== src/TestPacketBot/DummyClient/Updating.antt =====
-- `CDummyClient::Update` of Source/Etc/TestPacketBot/DummyClient.cpp, and the events that a bot sees.
use mmorpg_server.Base.{ℕ, Bool, if◌then◌else◌, true, ltb, not, false, sub64, leb, ◌%◌, add64, ◌*◌}
use mmorpg_server.Common.Types.{reconnect_timeout_sec}
use mmorpg_server.TestPacketBot.DummyClient.{
  BotState, unstarted, connecting, login, playing, rolling_disconnect, mass_dropping, zombie_dead,
  ConnectionState, in_progress, closing, is_connected, Bot, Shared, connect, connect_to_server,
  disconnect, set_test_mode, on_latency, on_write_done, Move, send_move_packet, on_connect,
  on_read_done,
}

-- The results of the two calls of `rand()`, of the generator of positions, and of the resolver
pub record Draws : Type 0 where
  pub first_rand : ℕ
  pub second_rand : ℕ
  pub move : Move
  pub resolves : Bool

-- The state `Closing`
abbrev pub is_closing : ConnectionState → Bool
is_closing closing = true
is_closing _ = false

abbrev pub is_in_progress : ConnectionState → Bool
is_in_progress in_progress = true
is_in_progress _ = false

unfoldable pub update_login : ℕ → Bot → Shared → Bot × Shared
update_login now b sh =
    let (b', sh') = disconnect b sh in
    if ltb 3000 (sub64 now b.connect_start_time)
    then (
      record b' { bot_state = mass_dropping },
      record sh' { global_mass_drop_wakeup_time = add64 now 100 },
    )
    else (b, sh)

unfoldable pub update_rolling : Draws → ℕ → Bot → Shared → Bot × Shared
update_rolling d now b sh =
    let (tried, b') = connect_to_server d.resolves now b in
    if ltb (sub64 now b.disconnect_time) b.wait_duration
    then (b, sh)
    else if is_closing b.connection_state
    then (record b { disconnect_time = add64 (sub64 now b.wait_duration) 100 }, sh)
    else if tried
    then (record b' { bot_state = connecting }, sh)
    else (record b' { wait_duration = add64 b'.wait_duration 1000 }, sh)

unfoldable pub update_mass_dropping : Draws → ℕ → Bot → Shared → Bot × Shared
update_mass_dropping d now b sh =
    let (tried, b') = connect_to_server d.resolves now b in
    if is_in_progress b.connection_state
    then if ltb 2000 (sub64 now b.connect_start_time) then disconnect b sh else (b, sh)
    else if ltb now sh.global_mass_drop_wakeup_time
    then (b, sh)
    else if tried
    then (record b' { bot_state = connecting }, sh)
    else (b', record sh { global_mass_drop_wakeup_time = add64 now 100 })

-- The part of `Update` behind the state machine, for a bot that is playing
unfoldable pub update_move : Draws → ℕ → ℕ → Bot → Shared → Bot
update_move d now current_time_ms b sh =
    if not sh.allow_broadcast
    then b
    else if not (is_connected b.connection_state)
    then b
    else if leb b.next_send_time current_time_ms
    then record (send_move_packet d.move now b) {
      next_send_time = add64 current_time_ms b.send_interval_ms;
    }
    else b

-- A bot that plays is cut off at random when rolling is on.
unfoldable pub update_playing : Draws → ℕ → ℕ → Bot → Shared → Bot × Shared
update_playing d now current_time_ms b sh =
    let (b', sh') = disconnect b sh in
    let moved : Bot × Shared = (update_move d now current_time_ms b sh, sh) in
    if not sh.enable_random_rolling
    then moved
    else if not b.has_login_info
    then (b, sh)
    else if ltb (d.first_rand % 5000) 1
    then (
      record b' {
        bot_state = rolling_disconnect;
        disconnect_time = now;
        wait_duration = d.second_rand % (reconnect_timeout_sec * 2) * 1000;
      },
      sh',
    )
    else moved

unfoldable pub update_in : BotState → Draws → ℕ → ℕ → Bot → Shared → Bot × Shared
update_in login d now current_time_ms b sh = update_login now b sh
update_in playing d now current_time_ms b sh = update_playing d now current_time_ms b sh
update_in rolling_disconnect d now current_time_ms b sh = update_rolling d now b sh
update_in mass_dropping d now current_time_ms b sh = update_mass_dropping d now b sh
update_in zombie_dead d now current_time_ms b sh = (b, sh)
update_in unstarted d now current_time_ms b sh = (b, sh)
update_in connecting d now current_time_ms b sh = (b, sh)

unfoldable pub update_bot : Draws → ℕ → ℕ → Bot → Shared → Bot × Shared
update_bot d now current_time_ms b sh = update_in b.bot_state d now current_time_ms b sh

-- What happens to a bot, with the answers of asio: a call of its manager, or a handler
pub data Event : Type 0 where
  connects : Bool → Event
  updates : Draws → ℕ → Event
  sets_mode : BotState → Event
  connect_done : Bool → ℕ → Event
  read_done write_done : Bool → ℕ → Event
  latency_done : Bool → Event

unfoldable pub react : Event → ℕ → Bot → Shared → Bot × Shared
react (connects resolves) now b sh = (connect resolves b, sh)
react (updates d current_time_ms) now b sh = update_bot d now current_time_ms b sh
react (sets_mode mode) now b sh = set_test_mode mode now b sh
react (connect_done error random) now b sh = on_connect error random now b sh
react (read_done error bytes) now b sh = on_read_done error bytes b sh
react (write_done error bytes) now b sh = on_write_done error bytes b sh
react (latency_done error) now b sh = (on_latency error b, sh)
