-- ===== src/Network/World.antt =====
-- The objects of the server and where they live: CSocket (Source/Core/Network/Socket.h),
-- CGameSession and CSessionManager (Source/Core/Network/Session.h), and the singletons they use.
-- A pointer is the number of its object, the null pointer `none`. Sessions stand in the pools of
-- the local threads: session `t * MAX_SESSIONS_PER_THREAD + i` is `SessionPool[i]` of thread `t`.
use mmorpg_server.Base.{ℕ, Option, List, Bool, update, ◌++◌, ◌∷◌, []}
use mmorpg_server.Common.Types.{SessionState, ReconnectToken, Counters, send_queue_capacity}
use mmorpg_server.Common.RecvBuffer.{RecvBuffer}
use mmorpg_server.Common.MpscQueue.{MpscQueue}
use mmorpg_server.Common.SpscQueue.{SpscQueue}
use mmorpg_server.Common.PacketPool.{PacketPool, release}
use mmorpg_server.Network.Monitor.{Monitor}

-- `CSocket::EState`, with the constructor for `None` named `unstarted`
pub data SocketState : Type 0 where
  unstarted connected sending closing shut : SocketState

-- The queue holds pointers that are never null, `send_batch` may hold null pointers.
-- `is_open` is the state of the operating system's socket.
pub record Socket : Type 0 where
  pub state : SocketState
  pub recv_buffer : RecvBuffer
  pub send_queue : MpscQueue ℕ send_queue_capacity
  pub send_batch : ℕ → Option ℕ
  pub current_batch_size : ℕ
  pub current_send_index : ℕ
  pub session : Option ℕ
  pub session_id : ℕ
  pub is_sending : Bool
  pub is_open : Bool

abbrev pub incoming_queue_capacity : ℕ
incoming_queue_capacity = 512

pub record Session : Type 0 where
  pub owner_session_id : ℕ
  pub owner_account_id : ℕ
  pub owner_thread_id : ℕ
  pub owner_map_id : ℕ
  pub usn : ℕ
  pub state : SessionState
  pub socket : Option ℕ
  pub reconnect_token : ReconnectToken
  pub disconnect_time : ℕ
  pub incoming_queue : SpscQueue ℕ incoming_queue_capacity
  pub last_active_time : ℕ

-- `SessionTable_`, `SlotUsed_` and the counters
pub record Registry : Type 0 where
  pub session_table : ℕ → Option ℕ
  pub slot_used : ℕ → Bool
  pub active_count : ℕ
  pub rec_success : ℕ
  pub rec_fail_not_found : ℕ
  pub rec_fail_invalid_state : ℕ
  pub rec_fail_token_mismatch : ℕ
  pub rec_fail_expired : ℕ

-- What has been handed to asio and has not run yet.
pub data Task : Type 0 where
  process_send_queue destroy_socket async_read : ℕ → Task
  async_write : ℕ → List ℕ → Task  -- the socket and the buffers of the gather list

pub record World : Type 0 where
  pub pool : PacketPool
  pub monitor : Monitor
  pub sockets : ℕ → Socket
  pub sessions : ℕ → Session
  pub registry : Registry
  pub counters : Counters
  pub network_stall_test : Bool
  pub tasks : List Task

-- Who runs an operation, and when: the thread (for its cache) and `GetCurrentTimeMs()`.
pub record Env : Type 0 where
  pub thread : ℕ
  pub now : ℕ

abbrev pub socket_of : World → ℕ → Socket
socket_of w s = w.sockets s

abbrev pub set_socket : World → ℕ → Socket → World
set_socket w s k = record w { sockets = update w.sockets s k }

abbrev pub set_session : World → ℕ → Session → World
set_session w p s = record w { sessions = update w.sessions p s }

-- `asio::post`
abbrev pub post : World → Task → World
post w t = record w { tasks = w.tasks ++ t ∷ [] }

abbrev pub release_packet : Env → World → ℕ → World
release_packet e w packet = record w { pool = release w.pool e.thread packet }
