-- ===== src/TestPacketBot/DummyClient/Framing.antt =====
-- A bot cuts the bytes that it receives into the same packets as the server does.
use mmorpg_server.Base.{
  [], refl, ℕ, arith, List, ◌≡◌, ◌≤◌, ◌∷◌, length, if◌then◌else◌, take, drop, false, true, ◌∙◌, suc,
  le→leb, inl, ap, inr, zero,
}
use mmorpg_server.Common.Types.{packet_header_size, PacketHeader}
use mmorpg_server.Common.Protocol.{read_header}
use mmorpg_server.Common.RecvBuffer.{on_read}
use mmorpg_server.Common.RecvBuffer.Laws.{IsValid, contents, on_read_lem}
use mmorpg_server.Network.Receive.Frames.{
  frame_of, split_frames, Frame-cases, frame_of_lem, cut_frame,
}
use mmorpg_server.Network.Receive.Framing.{next_frame-frame_of}
use mmorpg_server.TestPacketBot.DummyClient.{
  Bot, Shared, take_packet, read_packets, disconnect, on_login_response, count_login,
}

-- The packets taken one after the other
unfoldable pub take_all : Bot → List (List ℕ) → Bot
take_all b [] = b
take_all b (bytes ∷ rest) =
    take_all (take_packet (read_header (take packet_header_size bytes)) b) rest

take_packet-buffer :
    (header : PacketHeader) (b : Bot)
    → (take_packet header b).recv_buffer ≡ (on_read b.recv_buffer header.size).1
unfolding take_packet on_login_response count_login
take_packet-buffer header b = ground arith

-- What a packet that is there leaves in the buffer
take_packet-contents :
    (header : PacketHeader) (b : Bot)
    → IsValid b.recv_buffer
    → header.size ≤ length (contents b.recv_buffer)
    → (contents (take_packet header b).recv_buffer ≡ drop header.size (contents b.recv_buffer))
      × IsValid (take_packet header b).recv_buffer
take_packet-contents header b v h =
    let (done, left, v') = on_read_lem header.size v in
    let read : (on_read b.recv_buffer header.size).0 ≡ true = done ∙ le→leb _ _ h in
    rw (take_packet-buffer header b) (
      left
          ∙ ap
              (λ all.
                if all then drop header.size (contents b.recv_buffer) else contents b.recv_buffer)
              read,
      v',
    )

-- On a valid receive buffer, a bot takes with any number of rounds the packets that the
-- independent description of the stream, the same as for the server, cuts from the bytes
-- received, leaves what follows them and the buffer valid; if an invalid header follows, it
-- disconnects and returns.
pub read_packets-split_frames :
    (rounds : ℕ) (b : Bot) (sh : Shared)
    → IsValid b.recv_buffer
    → let split = split_frames rounds (contents b.recv_buffer) in
      let b' = take_all b split.frames in
      (read_packets rounds b sh ≡ (
        if split.is_broken
        then (false, (disconnect b' sh).0, (disconnect b' sh).1)
        else (true, b', sh)))
      × (contents b'.recv_buffer ≡ split.leftover)
      × IsValid b'.recv_buffer
unfolding read_packets split_frames take_all
read_packets-split_frames zero b sh v = (refl, refl, v)
read_packets-split_frames (suc rounds) b sh v =
    let same = next_frame-frame_of b.recv_buffer v in
    elim (Frame-cases (frame_of (contents b.recv_buffer))) [
      | inl ends ↦ rw (read_packets, split_frames, same, ends) (refl, refl, v)
      | inr (inl broken) ↦ rw (read_packets, split_frames, same, broken) (refl, refl, v)
      | inr (inr (h, full)) ↦
          let (_, _, _, fits) = frame_of_lem (contents b.recv_buffer) h full in
          let (size, header) = cut_frame (contents b.recv_buffer) h full in
          let (left, v') = take_packet-contents h b v fits in
          let (handled, rest, valid) = read_packets-split_frames rounds (take_packet h b) sh v' in
          rw (read_packets, split_frames, same, full, take_all, header, ← left)
            (handled, rest, valid)
    ]
