-- ===== src/Common/Types.antt =====
-- Source/Core/Common/Types.h: the limits, the packet header, the session states, the reconnect
-- token and the two id generators.
use mmorpg_server.Base.{ℕ, ◌*◌, ◌/◌, max, Bool, true, false, add64, ◌==◌}

abbrev pub max_sim_players : ℕ
max_sim_players = 10000

abbrev pub max_local_threads : ℕ
max_local_threads = 4

abbrev pub max_io_threads : ℕ
max_io_threads = 8

abbrev pub max_sessions_per_thread : ℕ
max_sessions_per_thread = max 2000 (max_sim_players * 20 / 10 / max_local_threads)

abbrev pub max_total_sessions : ℕ
max_total_sessions = max_local_threads * max_sessions_per_thread

abbrev pub recv_buffer_size : ℕ
recv_buffer_size = 8192

abbrev pub send_buffer_size : ℕ
send_buffer_size = 65536

abbrev pub max_packet_size : ℕ
max_packet_size = 2048

abbrev pub packet_header_size : ℕ
packet_header_size = 4

abbrev pub send_batch_size : ℕ
send_batch_size = 32

abbrev pub send_queue_capacity : ℕ
send_queue_capacity = 8192

abbrev pub max_send_queue_size_lod0 : ℕ
max_send_queue_size_lod0 = 4000

abbrev pub max_send_queue_size_lod1 : ℕ
max_send_queue_size_lod1 = 2000

abbrev pub max_send_queue_size_lod2 : ℕ
max_send_queue_size_lod2 = 600

abbrev pub buffer_pool_init_size : ℕ
buffer_pool_init_size = max 10000 (max_sim_players * 30)

abbrev pub buffer_pool_expand_size : ℕ
buffer_pool_expand_size = max 10000 (max_sim_players * 10)

abbrev pub max_broadcast_targets : ℕ
max_broadcast_targets = 30

abbrev pub reconnect_timeout_sec : ℕ
reconnect_timeout_sec = 10

-- `FPacketHeader`, two uint16_t
pub record PacketHeader : Type 0 where
  pub size : ℕ
  pub protocol_id : ℕ

-- `ESessionState`, with the constructor for `None` named after its comment, the initial state
pub data SessionState : Type 0 where
  initial connecting active temp_disconnect disconnecting closed : SessionState

-- The comparisons `state == ESessionState::Active` and so on.
abbrev pub is_active : SessionState → Bool
is_active SessionState.active = true
is_active _ = false

abbrev pub is_connecting : SessionState → Bool
is_connecting SessionState.connecting = true
is_connecting _ = false

abbrev pub is_temp_disconnect : SessionState → Bool
is_temp_disconnect SessionState.temp_disconnect = true
is_temp_disconnect _ = false

-- The value of an `ESessionState`
abbrev pub state_value : SessionState → ℕ
state_value SessionState.initial = 0
state_value SessionState.connecting = 1
state_value SessionState.active = 2
state_value SessionState.temp_disconnect = 3
state_value SessionState.disconnecting = 4
state_value SessionState.closed = 5

abbrev pub is_same_state : SessionState → SessionState → Bool
is_same_state s s' = state_value s == state_value s'

-- `FReconnectToken`, two uint64_t
pub record ReconnectToken : Type 0 where
  pub token : ℕ
  pub timestamp : ℕ

-- The two static counters, each from 1; `fetch_add` returns the old value.
pub record Counters : Type 0 where
  pub session_counter : ℕ
  pub token_counter : ℕ

abbrev pub initial_counters : Counters
initial_counters = record { session_counter = 1; token_counter = 1 }

unfoldable pub generate_session_id : Counters → ℕ × Counters
generate_session_id c =
    (c.session_counter, record c { session_counter = add64 c.session_counter 1 })

unfoldable pub generate_reconnect_token : Counters → ℕ × Counters
generate_reconnect_token c = (c.token_counter, record c { token_counter = add64 c.token_counter 1 })
