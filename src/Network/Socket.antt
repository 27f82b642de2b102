-- ===== src/Network/Socket.antt =====
-- CSocket of Source/Core/Network/Socket.h and Socket.cpp, but for the handlers that call into the
-- session (`Receive`). One call runs without interruption.
pub mod Closing
pub mod Sending
use mmorpg_server.Base.{
  ℕ, arith, Bool, none, some, Option, false, ◌-◌, if◌then◌else◌, true, suc, not, List, leb, ◌+◌, [],
  ◌∷◌, length, ltb, update, ◌==◌, zero,
}
use mmorpg_server.Common.Types.{
  send_batch_size, send_queue_capacity, recv_buffer_size, max_packet_size,
}
use mmorpg_server.Common.MpscQueue
use mmorpg_server.Common.RecvBuffer.{new_recv_buffer, free_size, clean}
use mmorpg_server.Common.PacketPool.{PacketPool, release}
use mmorpg_server.Network.Monitor.{on_disconnect, get_current_send_queue_limit}
use mmorpg_server.Network.World.{
  SocketState, unstarted, connected, sending, closing, shut, Socket, Session, World, Env, Task,
  process_send_queue, set_socket, post, release_packet,
}
use mmorpg_server.Network.Drain.{drain}

unfoldable pub is_connected : Socket → Bool
is_connected k = elim k.state [
  | connected ↦ true
  | sending ↦ true
  | unstarted ↦ false
  | closing ↦ false
  | shut ↦ false
]

-- The constructor; nothing sets `CurrentBatchSize` and the queue's array to other than 0.
unfoldable pub create_socket : (ℕ → ℕ) → Socket
create_socket garbage = record {
  state = unstarted;
  recv_buffer = new_recv_buffer garbage recv_buffer_size;
  send_queue = MpscQueue.new_mpsc_queue send_queue_capacity 0;
  send_batch = λ _. none;
  current_batch_size = 0;
  current_send_index = 0;
  session = none;
  session_id = 0;
  is_sending = false;
  is_open = true;
}

unfoldable pub bind_session : World → ℕ → ℕ → World
bind_session w s p =
    set_socket w s
      (record (w.sockets s) { session = some p; session_id = (w.sessions p).owner_session_id })

unfoldable pub unbind_session : World → ℕ → World
unbind_session w s = set_socket w s (record (w.sockets s) { session = none; session_id = 0 })

-- The loop that releases `SendBatch[i]` for `count` indices from `i` on, and sets them to null.
unfoldable pub release_batch :
    Env → (ℕ → Option ℕ) → PacketPool → ℕ → ℕ → (ℕ → Option ℕ) × PacketPool
release_batch e batch pool i zero = (batch, pool)
release_batch e batch pool i (suc count) = elim (batch i) [
  | none ↦ release_batch e batch pool (i + 1) count
  | some packet ↦ release_batch e (update batch i none) (release pool e.thread packet) (i + 1) count
]

-- `while (SendQueue.Pop(packet)) Release(packet)`
unfoldable pub drain_send_queue : Env → World → ℕ → World
drain_send_queue e w s =
    let k = w.sockets s in
    let (queue, pool) =
      drain (MpscQueue.pop {A = ℕ} {capacity = send_queue_capacity}) e.thread
        (send_queue_capacity + 1) k.send_queue w.pool in
    record (set_socket w s (record k { send_queue = queue })) { pool = pool }

-- What `Close` does once it has moved the state to `Closing`.
unfoldable pub shut_down : Env → World → ℕ → World
shut_down e w s =
    let k = w.sockets s in
    let (batch, pool) = release_batch e k.send_batch w.pool 0 send_batch_size in
    let w' =
      drain_send_queue e
        (record (set_socket w s (record k { send_batch = batch; state = closing })) { pool = pool })
        s in
    record (set_socket w' s (record (w'.sockets s) { is_open = false; state = shut })) {
      monitor = on_disconnect w'.monitor;
    }

-- The two compare-exchanges succeed in the states `Connected` and `Sending`.
unfoldable pub close : Env → World → ℕ → World
close e w s = elim (w.sockets s).state [
  | connected ↦ shut_down e w s
  | sending ↦ shut_down e w s
  | unstarted ↦ w
  | closing ↦ w
  | shut ↦ w
]

-- The destructor: `Close`, then what it left in `SendBatch` and in the queue.
unfoldable pub destroy_socket_now : Env → World → ℕ → World
destroy_socket_now e w s =
    let w' = close e w s in
    let k = w'.sockets s in
    let (batch, pool) =
      release_batch e k.send_batch w'.pool k.current_send_index
        (k.current_batch_size - k.current_send_index) in
    drain_send_queue e (record (set_socket w' s (record k { send_batch = batch })) { pool = pool })
      s

-- `compare_exchange_strong(false, true)` on `bIsSending`, and the post.
unfoldable pub wake : World → ℕ → World
wake w s =
    let k = w.sockets s in
    if k.is_sending
    then w
    else post (set_socket w s (record k { is_sending = true })) (process_send_queue s)

unfoldable pub send : Env → World → ℕ → Option ℕ → Bool × World
send e w s none = (false, w)
send e w s (some packet) =
    let k = w.sockets s in
    if not (is_connected k)
    then (false, w)
    else if leb (get_current_send_queue_limit w.monitor) (MpscQueue.approximate_size k.send_queue)
    then (false, close e w s)
    else let (done, queue) = MpscQueue.push k.send_queue packet in
      let w' = set_socket w s (record k { send_queue = queue }) in
      if done then (true, wake w' s) else (false, close e w' s)

-- The packets of `GatherList`: those of `count` indices of `SendBatch` from `i` on, but null.
unfoldable pub gather : (ℕ → Option ℕ) → ℕ → ℕ → List ℕ
gather batch i zero = []
gather batch i (suc count) = elim (batch i) [
  | none ↦ gather batch (i + 1) count
  | some packet ↦ packet ∷ gather batch (i + 1) count
]

-- `PopBatch` writes the packets to the front of `SendBatch`.
unfoldable pub fill_batch : (ℕ → Option ℕ) → ℕ → List ℕ → ℕ → Option ℕ
fill_batch batch i [] = batch
fill_batch batch i (packet ∷ rest) = update (fill_batch batch (i + 1) rest) i (some packet)

-- `ProcessSendQueue` and `DoWrite`, which call each other. `DoWrite` comes back only when it
-- gathers nothing; what `PopBatch` delivers is never null, so `ProcessSendQueue` starts a write at
-- once, or ends.
unfoldable pub process_send_queue_now : Env → World → ℕ → World
process_send_queue_now e w s =
    let k = w.sockets s in
    if not (is_connected k)
    then (let w' = drain_send_queue e w s in
        set_socket w' s (record (w'.sockets s) { is_sending = false }))
    else if w.network_stall_test
    then w
    else let (packets, queue) = MpscQueue.pop_batch send_batch_size k.send_queue in
      let k' = record k {
        send_queue = queue;
        send_batch = fill_batch k.send_batch 0 packets;
        current_batch_size = length packets;
        current_send_index = 0;
      } in
      if length packets == 0
      then (let w' = set_socket w s (record k' { is_sending = false }) in
          if not (MpscQueue.is_empty queue) then wake w' s else w')
      else post (set_socket w s k') (Task.async_write s (gather k'.send_batch 0 (length packets)))

unfoldable pub do_write : Env → World → ℕ → World
do_write e w s =
    let k = w.sockets s in
    if leb k.current_batch_size k.current_send_index
    then process_send_queue_now e w s
    else elim (gather k.send_batch k.current_send_index
        (k.current_batch_size - k.current_send_index)) [
          | [] ↦
              process_send_queue_now e
                (set_socket w s (record k { current_send_index = k.current_batch_size })) s
          | packet ∷ rest ↦ post w (Task.async_write s (packet ∷ rest))
        ]

unfoldable pub do_read : World → ℕ → World
do_read w s =
    let k = w.sockets s in
    if not (is_connected k)
    then w
    else let buffer =
        if ltb (free_size k.recv_buffer) max_packet_size
        then clean k.recv_buffer
        else k.recv_buffer in
      post (set_socket w s (record k { recv_buffer = buffer })) (Task.async_read s)

unfoldable pub start : World → ℕ → World
start w s = do_read (set_socket w s (record (w.sockets s) { state = connected })) s
