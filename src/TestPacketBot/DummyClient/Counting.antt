-- ===== src/TestPacketBot/DummyClient/Counting.antt =====
-- `s_ActiveClientCount`, the number of bots that are connected.
use mmorpg_server.Base.{
  ℕ, arith, ◌≡◌, Bool, if◌then◌else◌, ◌+◌, not, true, ◌<◌, ◌&&◌, ◌^◌, suc, inl, inr, ap, ◌∙◌, sym,
  zero, false, sub64, add64, ◌/◌, ◌%◌, Bool-cases,
}
use mmorpg_server.Common.Types.{packet_header_size}
use mmorpg_server.Common.RecvBuffer.{on_write, data_size}
use mmorpg_server.Network.Receive.{next_frame}
use mmorpg_server.Network.Receive.Frames.{Frame-cases}
use mmorpg_server.TestPacketBot.DummyClient.{
  is_reconnect_state, BotState, unstarted, connecting, login, playing, rolling_disconnect,
  mass_dropping, zombie_dead, Bot, Shared, is_connected, connected, connect, connect_to_server,
  disconnect, set_test_mode, on_write_done, on_connect, connect_failed, read_packets, take_packet,
  on_read_done, send_login_packet,
}
use mmorpg_server.TestPacketBot.DummyClient.Unchanged.{
  on_latency-frame, send_login-frame, send_move-frame, do_read-frame, take_packet-frame,
}
use mmorpg_server.TestPacketBot.DummyClient.Updating.{
  Draws, Event, connects, updates, sets_mode, connect_done, read_done, write_done, latency_done,
  react, update_bot, update_in, update_login, update_playing, update_rolling, update_mass_dropping,
  update_move, is_in_progress, is_closing,
}

-- What a bot adds to the count
abbrev pub share : Bot → ℕ
share b = if is_connected b.connection_state then 1 else 0

-- The count is that of `n` other bots and of this one.
abbrev pub IsCounted : ℕ → Bot × Shared → Type 0
IsCounted n s = s.1.active_client_count ≡ n + share s.0

-- The bot is not in the middle of a connect.
abbrev pub is_settled : Bot → Bool
is_settled b = not (is_in_progress b.connection_state) && not (is_closing b.connection_state)

-- A bot in the middle of a connect sees the end of the connect and nothing that disconnects it; a
-- connected bot sees no end of a connect.
abbrev pub is_regular : Event → Bot → Bool
is_regular (connects _) b = true
is_regular (latency_done _) b = true
is_regular (connect_done _ _) b = not (is_connected b.connection_state)
is_regular (updates _ _) b = is_settled b
is_regular (sets_mode _) b = is_settled b
is_regular (read_done _ _) b = is_settled b
is_regular (write_done _ _) b = is_settled b

disconnect-IsCounted :
    (n : ℕ) (b : Bot) (sh : Shared)
    → n + 1 < 2 ^ 64
    → is_settled b ≡ true
    → IsCounted n (b, sh)
    → IsCounted n (disconnect b sh)
unfolding disconnect
disconnect-IsCounted n b sh small calm h = ground (arith, calm, h)

connect_to_server-share :
    (resolves : Bool) (now : ℕ) (b : Bot) → share (connect_to_server resolves now b).1 ≡ share b
unfolding connect_to_server connect
connect_to_server-share resolves now b = ground arith

update_in-IsCounted :
    (state : BotState) (d : Draws) (n now current : ℕ) (b : Bot) (sh : Shared)
    → n + 1 < 2 ^ 64
    → is_settled b ≡ true
    → IsCounted n (b, sh)
    → IsCounted n (update_in state d now current b sh)
unfolding update_in update_login update_playing update_rolling update_mass_dropping update_move
update_in-IsCounted login d n now current b sh small calm h =
    ground (arith, disconnect-IsCounted n b sh small calm h, h)
update_in-IsCounted playing d n now current b sh small calm h =
    ground (arith, disconnect-IsCounted n b sh small calm h, h, (send_move-frame d.move now b).0)
update_in-IsCounted rolling_disconnect d n now current b sh small calm h =
    ground (arith, connect_to_server-share d.resolves now b, h)
update_in-IsCounted mass_dropping d n now current b sh small calm h =
    ground
      (arith, disconnect-IsCounted n b sh small calm h, connect_to_server-share d.resolves now b, h)
update_in-IsCounted zombie_dead d n now current b sh small calm h = h
update_in-IsCounted unstarted d n now current b sh small calm h = h
update_in-IsCounted connecting d n now current b sh small calm h = h

read_packets-IsCounted :
    (rounds n : ℕ) (b : Bot) (sh : Shared)
    → n + 1 < 2 ^ 64
    → is_settled b ≡ true
    → IsCounted n (b, sh)
    → IsCounted n ((read_packets rounds b sh).1, (read_packets rounds b sh).2)
unfolding read_packets
read_packets-IsCounted zero n b sh small calm h = h
read_packets-IsCounted (suc rounds) n b sh small calm h =
    elim (Frame-cases (next_frame b.recv_buffer)) [
      | inl ended ↦ rw (read_packets, ended) h
      | inr (inl broken) ↦ rw (read_packets, broken) (disconnect-IsCounted n b sh small calm h)
      | inr (inr (header, whole)) ↦
          let same = (take_packet-frame header b).0 in
          rw (read_packets, whole)
            (read_packets-IsCounted rounds n (take_packet header b) sh small
              (ap (λ c. not (is_in_progress c) && not (is_closing c)) same ∙ calm)
              (h ∙ ap (λ c. n + (if is_connected c then 1 else 0)) (sym same)))
    ]

connect_failed-IsCounted :
    (state : BotState) (n now : ℕ) (b : Bot) (sh : Shared)
    → IsCounted n (b, sh)
    → IsCounted n (connect_failed state now b sh)
unfolding connect_failed
connect_failed-IsCounted mass_dropping n now b sh h = h
connect_failed-IsCounted rolling_disconnect n now b sh h = h
connect_failed-IsCounted unstarted n now b sh h = h
connect_failed-IsCounted connecting n now b sh h = h
connect_failed-IsCounted login n now b sh h = h
connect_failed-IsCounted playing n now b sh h = h
connect_failed-IsCounted zombie_dead n now b sh h = h

set_test_mode-IsCounted :
    (mode : BotState) (n now : ℕ) (b : Bot) (sh : Shared)
    → n + 1 < 2 ^ 64
    → is_settled b ≡ true
    → IsCounted n (b, sh)
    → IsCounted n (set_test_mode mode now b sh)
unfolding set_test_mode
set_test_mode-IsCounted mass_dropping n now b sh small calm h =
    disconnect-IsCounted n b sh small calm h
set_test_mode-IsCounted zombie_dead n now b sh small calm h =
    disconnect-IsCounted n b sh small calm h
set_test_mode-IsCounted rolling_disconnect n now b sh small calm h = h
set_test_mode-IsCounted unstarted n now b sh small calm h = h
set_test_mode-IsCounted connecting n now b sh small calm h = h
set_test_mode-IsCounted login n now b sh small calm h = h
set_test_mode-IsCounted playing n now b sh small calm h = h

on_read_done-IsCounted :
    (error : Bool) (n bytes : ℕ) (b : Bot) (sh : Shared)
    → n + 1 < 2 ^ 64
    → is_settled b ≡ true
    → IsCounted n (b, sh)
    → IsCounted n (on_read_done error bytes b sh)
unfolding on_read_done
on_read_done-IsCounted true n bytes b sh small calm h = disconnect-IsCounted n b sh small calm h
on_read_done-IsCounted false n bytes b sh small calm h =
    let got = record b {
      recv_buffer = (on_write b.recv_buffer bytes).1;
      stats = record b.stats { bytes_received = add64 b.stats.bytes_received bytes };
    } in
    let rounds = data_size got.recv_buffer / packet_header_size + 1 in
    let (goes_on, b', sh') = read_packets rounds got sh in
    let counted = read_packets-IsCounted rounds n got sh small calm h in
    elim (Bool-cases (read_packets rounds got sh).0) [
      | inl on ↦
          rw (on_read_done, on)
            (counted ∙ ap (λ c. n + (if is_connected c then 1 else 0)) (sym (do_read-frame b').0))
      | inr off ↦ rw (on_read_done, off) counted
    ]

on_connect-IsCounted :
    (error : Bool) (random n now : ℕ) (b : Bot) (sh : Shared)
    → n + 1 < 2 ^ 64
    → is_connected b.connection_state ≡ false
    → IsCounted n (b, sh)
    → IsCounted n (on_connect error random now b sh)
unfolding on_connect
on_connect-IsCounted true random n now b sh small off h =
    connect_failed-IsCounted b.bot_state n now _ sh (ground (arith, off, h))
on_connect-IsCounted false random n now b sh small off h =
    let online = record b {
      connection_state = connected;
      connect_start_time = now;
      last_send_time = now;
      next_send_time = add64 (add64 now b.send_interval_ms) (random % b.send_interval_ms);
    } in
    let sent = send_login_packet (is_reconnect_state b.bot_state) online in
    let up =
      (do_read-frame (record sent { bot_state = login })).0
      ∙ send_login-frame (is_reconnect_state b.bot_state) online in
    let one_more : add64 sh.active_client_count 1 ≡ n + 1 = ground (arith, off, h) in
    one_more ∙ ap (λ c. n + (if is_connected c then 1 else 0)) (sym up)

connect-share : (resolves : Bool) (b : Bot) → share (connect resolves b) ≡ share b
unfolding connect
connect-share resolves b = ground arith

on_write_done-IsCounted :
    (error : Bool) (n bytes : ℕ) (b : Bot) (sh : Shared)
    → n + 1 < 2 ^ 64
    → is_settled b ≡ true
    → IsCounted n (b, sh)
    → IsCounted n (on_write_done error bytes b sh)
unfolding on_write_done
on_write_done-IsCounted true n bytes b sh small calm h = disconnect-IsCounted n b sh small calm h
on_write_done-IsCounted false n bytes b sh small calm h = h

-- If the count of active clients is that of `n` others, below 2 ^ 64 - 1, and of this bot, it
-- still is after any event, if a bot that connects is not cut off before its connect has ended,
-- and no connect ends on a bot that is connected.
pub react-IsCounted :
    (ev : Event) (n now : ℕ) (b : Bot) (sh : Shared)
    → n + 1 < 2 ^ 64
    → is_regular ev b ≡ true
    → IsCounted n (b, sh)
    → IsCounted n (react ev now b sh)
unfolding react update_bot
react-IsCounted (connects resolves) n now b sh small calm h =
    ground (arith, connect-share resolves b, h)
react-IsCounted (updates d current) n now b sh small calm h =
    update_in-IsCounted b.bot_state d n now current b sh small calm h
react-IsCounted (sets_mode mode) n now b sh small calm h =
    set_test_mode-IsCounted mode n now b sh small calm h
react-IsCounted (connect_done error random) n now b sh small calm h =
    on_connect-IsCounted error random n now b sh small (ground (arith, calm)) h
react-IsCounted (read_done error bytes) n now b sh small calm h =
    on_read_done-IsCounted error n bytes b sh small calm h
react-IsCounted (write_done error bytes) n now b sh small calm h =
    on_write_done-IsCounted error n bytes b sh small calm h
react-IsCounted (latency_done error) n now b sh small calm h =
    h ∙ ap (λ c. n + (if is_connected c then 1 else 0)) (sym (on_latency-frame error b).0)

-- A bot that is disconnected while it connects was not counted, and still one is taken from the
-- count of the `n` others (below 2 ^ 64 - 1), which wraps to 2 ^ 64 - 1 if there are none; so
-- the count is wrong.
pub disconnect-in_progress :
    (n : ℕ) (b : Bot) (sh : Shared)
    → n + 1 < 2 ^ 64
    → is_in_progress b.connection_state ≡ true
    → IsCounted n (b, sh)
    → ((disconnect b sh).1.active_client_count ≡ sub64 n 1)
      × (share (disconnect b sh).0 ≡ 0)
      × (¬ IsCounted n (disconnect b sh))
unfolding disconnect
disconnect-in_progress n b sh small trying h =
    (ground (arith, trying, h), ground (arith, trying), λ c. ground (arith, trying, h, c))
