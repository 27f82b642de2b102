-- ===== src/TestPacketBot/DummyClient/Unchanged.antt =====
-- What the operations of a bot leave alone: its connection, and mostly its state.
use mmorpg_server.Base.{ℕ, arith, ◌≡◌, Bool, ◌⊎◌}
use mmorpg_server.Common.Types.{PacketHeader}
use mmorpg_server.TestPacketBot.DummyClient.{
  Bot, playing, do_write, on_latency, send_login_packet, Move, send_move_packet, do_read,
  count_login, on_login_response, take_packet,
}

pub do_write-frame :
    (b : Bot)
    → ((do_write b).connection_state ≡ b.connection_state) × ((do_write b).bot_state ≡ b.bot_state)
unfolding do_write
do_write-frame b = (ground arith, ground arith)

pub on_latency-frame :
    (error : Bool) (b : Bot)
    → ((on_latency error b).connection_state ≡ b.connection_state)
      × ((on_latency error b).bot_state ≡ b.bot_state)
unfolding on_latency
on_latency-frame error b = (ground arith, ground arith)

pub send_login-frame :
    (is_reconnect : Bool) (b : Bot)
    → (send_login_packet is_reconnect b).connection_state ≡ b.connection_state
unfolding send_login_packet do_write
send_login-frame is_reconnect b = ground arith

pub send_move-frame :
    (m : Move) (now : ℕ) (b : Bot)
    → ((send_move_packet m now b).connection_state ≡ b.connection_state)
      × ((send_move_packet m now b).bot_state ≡ b.bot_state)
unfolding send_move_packet do_write
send_move-frame m now b = (ground arith, ground arith)

pub do_read-frame :
    (b : Bot)
    → ((do_read b).connection_state ≡ b.connection_state) × ((do_read b).bot_state ≡ b.bot_state)
unfolding do_read
do_read-frame b = (ground arith, ground arith)

-- A packet does not touch the connection; a login response may set the bot to playing.
pub take_packet-frame :
    (header : PacketHeader) (b : Bot)
    → ((take_packet header b).connection_state ≡ b.connection_state)
      × (((take_packet header b).bot_state ≡ b.bot_state)
          ⊎ ((take_packet header b).bot_state ≡ playing))
unfolding take_packet on_login_response count_login
take_packet-frame header b = (ground arith, ground arith)
