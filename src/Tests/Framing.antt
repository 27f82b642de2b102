-- ===== src/Tests/Framing.antt =====
-- The framing of Source/Core/Network/Socket.cpp at concrete inputs.
use mmorpg_server.Base.{[], arith, ◌≡◌, ◌∷◌, flatten, ◌≤◌, refl, if◌then◌else◌, ◌++◌, true, slice}
use mmorpg_server.Common.Types.{max_packet_size}
use mmorpg_server.Common.Protocol.{header_to_bytes, read_header}
use mmorpg_server.Common.RecvBuffer.{free_size, data_size, on_read}
use mmorpg_server.Common.RecvBuffer.Laws as RecvLaws
use mmorpg_server.Network.Session.{compose}
use mmorpg_server.Network.Session.Compose.{compose-IsMessage}
use mmorpg_server.Network.Socket.{close, is_connected, do_read}
use mmorpg_server.Network.Receive.{stop, handle_packet, next_frame, deliver, consume, readable}
use mmorpg_server.Network.Receive.Frames.{frame_of, split_frames, IsMessage, no_more, one_more}
use mmorpg_server.Network.Receive.Room.{do_read-handle_packet}
use mmorpg_server.Network.Receive.Framing.{
  handle_packet-flatten, deliver_all, handle_packet-split_frames,
}
use mmorpg_server.Tests.Server.{message, received, received-IsValid, server, thread_0, pool}

handle_packet-split_frames_example :
    let split = split_frames 2 (RecvLaws.contents received) in
    let w' = deliver_all thread_0 server 0 split.frames in
    (handle_packet 2 thread_0 server 0 ≡ (if split.is_broken then close thread_0 w' 0 else w'))
    × (RecvLaws.contents (w'.sockets 0).recv_buffer ≡ split.leftover)
    × RecvLaws.IsValid (w'.sockets 0).recv_buffer
handle_packet-split_frames_example = handle_packet-split_frames 2 thread_0 server 0 received-IsValid

message-IsMessage : IsMessage message
unfolding read_header
message-IsMessage = record { sized = refl; headed = omega arith; bounded = omega arith }

starts : frame_of (6 ∷ 0 ∷ []) ≡ stop
unfolding frame_of
starts = refl

handle_packet-flatten_example :
    (handle_packet 2 thread_0 server 0 ≡ deliver_all thread_0 server 0 (message ∷ []))
    × (RecvLaws.contents ((handle_packet 2 thread_0 server 0).sockets 0).recv_buffer ≡ 6 ∷ 0 ∷ [])
unfolding flatten
handle_packet-flatten_example =
    handle_packet-flatten (message ∷ []) (6 ∷ 0 ∷ []) 2 thread_0 server 0 received-IsValid refl
      (one_more message-IsMessage no_more) starts (omega arith)

still_connected : is_connected ((handle_packet 2 thread_0 server 0).sockets 0) ≡ true
unfolding handle_packet next_frame readable consume deliver on_read is_connected read_header
    data_size
still_connected = refl

do_read-handle_packet_example :
    max_packet_size
    ≤ free_size ((do_read (handle_packet 2 thread_0 server 0) 0).sockets 0).recv_buffer
unfolding data_size
do_read-handle_packet_example =
    do_read-handle_packet thread_0 server 0 received-IsValid refl still_connected

compose-IsMessage_example :
    let sent = compose (pool.buffers 2) 101 (0 ∷ 0 ∷ 0 ∷ 0 ∷ 42 ∷ []) 3 in
    let wire = slice sent.data_ 0 sent.size in
    (wire ≡ header_to_bytes (record { size = 5; protocol_id = 101 }) ++ 42 ∷ []) × IsMessage wire
compose-IsMessage_example =
    compose-IsMessage (pool.buffers 2) 101 (0 ∷ 0 ∷ 0 ∷ 0 ∷ 42 ∷ []) 3 (omega arith) (omega arith)
      (omega arith)
