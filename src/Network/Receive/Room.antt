-- ===== src/Network/Receive/Room.antt =====
-- The room that the receive buffer of a socket has for the next read.
use mmorpg_server.Base.{
  [], ℕ, arith, ◌≤◌, List, ◌≡◌, take, ◌+◌, ap, ◌∙◌, sym, ◌∷◌, length, Bool-cases, if◌then◌else◌,
  ltb, inl, inr, refl, true, ==_refl, ◌<◌, ◌/◌,
}
use mmorpg_server.Common.Types.{packet_header_size, max_packet_size, recv_buffer_size}
use mmorpg_server.Common.RecvBuffer.{RecvBuffer, data_size, on_read, free_size, clean}
use mmorpg_server.Common.RecvBuffer.Laws.{
  IsValid, contents, data_size_lem, free_size_lem, length-contents, clean_lem,
}
use mmorpg_server.Common.Protocol.{read_header}
use mmorpg_server.Network.World.{World, Env}
use mmorpg_server.Network.Socket.Closing.{close-close}
use mmorpg_server.Network.Socket.{close, do_read, is_connected}
use mmorpg_server.Network.Receive.Frames.{split_frames}
use mmorpg_server.Network.Receive.{deliver, consume, handle_packet}
use mmorpg_server.Network.Receive.Framing.{
  deliver_all, deliver_sockets, handle_packet-split_frames, split_frames-leftover,
}

clean_capacity : (b : RecvBuffer) → (clean b).capacity ≡ b.capacity
unfolding clean
clean_capacity b = ground arith

make_room :
    (b : RecvBuffer)
    → IsValid b
    → b.capacity ≡ recv_buffer_size
    → length (contents b) < max_packet_size
    → max_packet_size ≤ free_size (if ltb (free_size b) max_packet_size then clean b else b)
make_room b v full short =
    let (same, front, v') = clean_lem v in
    ground (
      arith,
      clean_capacity b,
      ap length same,
      front,
      length-contents v',
      data_size_lem v',
      free_size_lem v',
      short,
      full,
    )

do_read_room :
    (w : World) (s : ℕ)
    → IsValid (w.sockets s).recv_buffer
    → (w.sockets s).recv_buffer.capacity ≡ recv_buffer_size
    → length (contents (w.sockets s).recv_buffer) < max_packet_size
    → is_connected (w.sockets s) ≡ true
    → max_packet_size ≤ free_size ((do_read w s).sockets s).recv_buffer
unfolding do_read
do_read_room w s v full short connected =
    simp (do_read, connected, ==_refl s) (make_room (w.sockets s).recv_buffer v full short)

deliver_all_capacity :
    (e : Env) (w : World) (s : ℕ) (frames : List (List ℕ))
    → ((deliver_all e w s frames).sockets s).recv_buffer.capacity
      ≡ (w.sockets s).recv_buffer.capacity
unfolding deliver_all consume on_read
deliver_all_capacity e w s [] = refl
deliver_all_capacity e w s (bytes ∷ rest) =
    let header = read_header (take packet_header_size bytes) in
    deliver_all_capacity e (consume (deliver e w s header bytes) s (length bytes)) s rest
    ∙ ground (arith, ap (λ sockets. sockets s) (deliver_sockets e w s header bytes))

-- After `HandlePacket`, with the rounds that `OnReadComplete` gives it, on a valid receive
-- buffer of full size, if the socket is still connected, the next read has room for a packet of
-- any size, so a connection never starves on a full buffer.
pub do_read-handle_packet :
    (e : Env) (w : World) (s : ℕ)
    → IsValid (w.sockets s).recv_buffer
    → (w.sockets s).recv_buffer.capacity ≡ recv_buffer_size
    → let rounds = data_size (w.sockets s).recv_buffer / packet_header_size + 1 in
      let w' = handle_packet rounds e w s in
      is_connected (w'.sockets s) ≡ true
      → max_packet_size ≤ free_size ((do_read w' s).sockets s).recv_buffer
do_read-handle_packet e w s v full connected =
    let b = (w.sockets s).recv_buffer in
    let rounds = data_size b / packet_header_size + 1 in
    let split = split_frames rounds (contents b) in
    let w' = deliver_all e w s split.frames in
    let (handled, rest, v') = handle_packet-split_frames rounds e w s v in
    let (_, short) = split_frames-leftover rounds (contents b) (omega (arith, length-contents v)) in
    elim (Bool-cases split.is_broken) [
      | inl broken ↦
          let shut = handled ∙ ap (λ t. if t then close e w' s else w') broken in
          let (off, _) = close-close e e w' s in
          absurd (ground (arith, off, sym (ap (λ t. is_connected (t.sockets s)) shut) ∙ connected))
      | inr fine ↦
          let same = handled ∙ ap (λ t. if t then close e w' s else w') fine in
          rw same (
            do_read_room w' s v' (deliver_all_capacity e w s split.frames ∙ full)
              (omega (arith, ap length rest, short fine))
              (sym (ap (λ t. is_connected (t.sockets s)) same) ∙ connected))
    ]
