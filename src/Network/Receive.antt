-- ===== src/Network/Receive.antt =====
-- The handlers of CSocket that call into the session: `HandlePacket`, `HandleDisconnect`,
-- `OnReadComplete` and `OnWriteComplete` of Source/Core/Network/Socket.cpp.
pub mod Frames
pub mod Framing
pub mod Room
use mmorpg_server.Base.{
  none, some, ℕ, arith, List, suc, Bool, slice, if◌then◌else◌, ◌-◌, ltb, ◌/◌, false, ◌||◌, ◌+◌,
  zero, update,
}
use mmorpg_server.Common.Types.{packet_header_size, max_packet_size, PacketHeader}
use mmorpg_server.Common.RecvBuffer.{RecvBuffer, data_size, on_write, on_read}
use mmorpg_server.Common.PacketPool.{PacketPool, acquire, copy_from}
use mmorpg_server.Common.Protocol.{read_header}
use mmorpg_server.Network.World.{Session, World, Env, set_socket, Socket}
use mmorpg_server.Network.Session
use mmorpg_server.Network.Socket

-- The `n` bytes from `GetReadPos()` on
unfoldable pub readable : RecvBuffer → ℕ → List ℕ
readable b n = slice b.data_ b.read_pos n

-- What happens to the bytes of one packet: a copy of it goes to the session, if the socket has
-- one and the pool has a buffer.
unfoldable pub deliver : Env → World → ℕ → PacketHeader → List ℕ → World
deliver e w s header bytes = elim (w.sockets s).session [
  | none ↦ w
  | some p ↦
      let (out, pool) = acquire w.pool e.thread in
      elim out [
        | none ↦ record w { pool = pool }
        | some packet ↦
            let buffer =
              copy_from (pool.buffers packet) bytes header.protocol_id (w.sockets s).session_id in
            Session.on_packet_received e
              (record w { pool = record pool { buffers = update pool.buffers packet buffer } }) p
              packet
      ]
]

-- The tests of a round of `HandlePacket`, in order: how the loop goes on.
pub data Frame : Type 0 where
  stop : Frame  -- the loop ends, or breaks
  invalid : Frame  -- the header's size is out of range
  packet_of : PacketHeader → Frame

unfoldable pub next_frame : RecvBuffer → Frame
unfolding readable
next_frame b =
    let header = read_header (readable b packet_header_size) in
    if ltb (data_size b) packet_header_size
    then stop
    else if ltb max_packet_size header.size || ltb header.size packet_header_size
    then invalid
    else if ltb (data_size b) header.size
    then stop
    else packet_of header

-- `RecvBuffer.OnRead(n)`
unfoldable pub consume : World → ℕ → ℕ → World
consume w s n =
    let k = w.sockets s in set_socket w s (record k { recv_buffer = (on_read k.recv_buffer n).1 })

-- The loop of `HandlePacket`, for a number of rounds. A round takes at least a header's four
-- bytes, so `data_size / 4 + 1` rounds are enough.
unfoldable pub handle_packet : ℕ → Env → World → ℕ → World
handle_packet zero e w s = w
handle_packet (suc rounds) e w s =
    let b = (w.sockets s).recv_buffer in
    elim (next_frame b) [
      | stop ↦ w
      | invalid ↦ Socket.close e w s
      | packet_of header ↦
          handle_packet rounds e
            (consume (deliver e w s header (readable b header.size)) s header.size) s
    ]

unfoldable pub handle_disconnect : Env → World → ℕ → World
handle_disconnect e w s = elim (w.sockets s).session [
  | none ↦ Socket.close e w s
  | some p ↦ Socket.close e (Session.on_socket_disconnected e w p) s
]

-- `error` is `ec`, and the bytes that were read stand in the buffer already.
unfoldable pub on_read_complete : Env → World → ℕ → Bool → ℕ → World
on_read_complete e w s error bytes_transferred =
    if error
    then handle_disconnect e w s
    else let k = w.sockets s in
      let (done, buffer) = on_write k.recv_buffer bytes_transferred in
      if done
      then Socket.do_read
          (handle_packet (data_size buffer / packet_header_size + 1) e
            (set_socket w s (record k { recv_buffer = buffer })) s)
          s
      else Socket.close e w s

unfoldable pub on_write_complete : Env → World → ℕ → Bool → World
on_write_complete e w s error =
    let k = w.sockets s in
    let (batch, pool) =
      Socket.release_batch e k.send_batch w.pool k.current_send_index
        (k.current_batch_size - k.current_send_index) in
    let w' = record (set_socket w s (record k { send_batch = batch })) { pool = pool } in
    if error
    then handle_disconnect e (set_socket w' s (record (w'.sockets s) { is_sending = false })) s
    else Socket.do_write e
        (set_socket w' s (record (w'.sockets s) { current_send_index = k.current_batch_size })) s
