-- ===== src/TestPacketBot/LoadTestManager/Orderly.antt =====
-- The states that a client of CLoadTestManager goes through: while it connects it is in no state
-- that disconnects it.
use mmorpg_server.TestPacketBot.DummyClient.Updating.{
  Draws, Event, connects, updates, sets_mode, connect_done, read_done, write_done, latency_done,
  react, is_closing, is_in_progress, update_in, update_bot, update_login, update_playing,
  update_rolling, update_mass_dropping, update_move,
}
use mmorpg_server.TestPacketBot.DummyClient.Counting.{IsCounted, is_settled, react-IsCounted}
use mmorpg_server.TestPacketBot.DummyClient.Unchanged.{
  send_move-frame, take_packet-frame, do_read-frame, on_latency-frame, send_login-frame,
}
use mmorpg_server.Common.RecvBuffer.{on_write, data_size}
use mmorpg_server.Common.Types.{packet_header_size}
use mmorpg_server.Base.{
  refl, ℕ, arith, inl, inr, Bool, true, not, ◌≡◌, false, ◌&&◌, suc, ◌+◌, ◌||◌, ◌<◌, ap, add64, ◌^◌,
  ◌%◌, Bool-cases, subst, sym, ◌∙◌, ◌/◌, zero,
}
use mmorpg_server.TestPacketBot.DummyClient.{
  BotState, unstarted, connecting, login, playing, rolling_disconnect, mass_dropping, zombie_dead,
  Bot, disconnect, read_packets, on_read_done, connect_failed, on_connect, set_test_mode,
  on_write_done, connect, Shared, is_disconnected, is_connected, disconnected, take_packet,
  connected, connect_to_server, send_login_packet, is_reconnect_state,
}
use mmorpg_server.Network.Receive.{next_frame}
use mmorpg_server.Network.Receive.Frames.{Frame-cases}

-- The states in which `Update` does nothing and a connect may be running
abbrev pub is_waiting : BotState → Bool
is_waiting unstarted = true
is_waiting connecting = true
is_waiting _ = false

abbrev pub is_unstarted : BotState → Bool
is_unstarted unstarted = true
is_unstarted _ = false

abbrev pub is_orderly : Bot → Bool
is_orderly b =
    not (is_closing b.connection_state)
    && (not (is_in_progress b.connection_state) || is_waiting b.bot_state)

-- The manager connects a client that was not started and sets the mode of one that is connected;
-- asio ends a connect that is running. A read or a write ends on no client that connects.
abbrev pub is_allowed : Event → Bot → Bool
is_allowed (connects _) b = is_unstarted b.bot_state
is_allowed (updates _ _) b = true
is_allowed (sets_mode _) b = is_connected b.connection_state
is_allowed (connect_done _ _) b = is_in_progress b.connection_state
is_allowed (read_done _ _) b = is_settled b
is_allowed (write_done _ _) b = is_settled b
is_allowed (latency_done _) b = true

disconnect-is_settled : (b : Bot) (sh : Shared) → is_settled (disconnect b sh).0 ≡ true
unfolding disconnect
disconnect-is_settled b sh = ground arith

disconnect-off :
    (b : Bot) (sh : Shared) → is_disconnected (disconnect b sh).0.connection_state ≡ true
unfolding disconnect
disconnect-off b sh = ground arith

settled-is_orderly : (b : Bot) → is_settled b ≡ true → is_orderly b ≡ true
settled-is_orderly b h = ground (arith, h)

off-is_orderly : (b : Bot) → is_disconnected b.connection_state ≡ true → is_orderly b ≡ true
off-is_orderly b h = ground (arith, h)

-- An update leaves a client settled, or connecting with a connect that runs.
update_in-is_orderly :
    (state : BotState) (d : Draws) (now current : ℕ) (b : Bot) (sh : Shared)
    → b.bot_state ≡ state
    → is_orderly b ≡ true
    → is_orderly (update_in state d now current b sh).0 ≡ true
unfolding update_in update_login update_playing update_rolling update_mass_dropping update_move
    connect_to_server connect
update_in-is_orderly login d now current b sh at h = ground (arith, disconnect-is_settled b sh, h)
update_in-is_orderly playing d now current b sh at h =
    ground (arith, disconnect-is_settled b sh, h, send_move-frame d.move now b)
update_in-is_orderly rolling_disconnect d now current b sh at h = ground (arith, at, h)
update_in-is_orderly mass_dropping d now current b sh at h =
    ground (arith, disconnect-is_settled b sh, at, h)
update_in-is_orderly zombie_dead d now current b sh at h = h
update_in-is_orderly unstarted d now current b sh at h = h
update_in-is_orderly connecting d now current b sh at h = h

read_packets-is_settled :
    (rounds : ℕ) (b : Bot) (sh : Shared)
    → is_settled b ≡ true
    → is_settled (read_packets rounds b sh).1 ≡ true
unfolding read_packets
read_packets-is_settled zero b sh h = h
read_packets-is_settled (suc rounds) b sh h = elim (Frame-cases (next_frame b.recv_buffer)) [
  | inl ended ↦ rw (read_packets, ended) h
  | inr (inl broken) ↦ rw (read_packets, broken) (disconnect-is_settled b sh)
  | inr (inr (header, whole)) ↦
      rw (read_packets, whole)
        (read_packets-is_settled rounds (take_packet header b) sh (
          ap (λ c. not (is_in_progress c) && not (is_closing c)) (take_packet-frame header b).0
          ∙ h))
]

on_read_done-is_settled :
    (error : Bool) (bytes : ℕ) (b : Bot) (sh : Shared)
    → is_settled b ≡ true
    → is_settled (on_read_done error bytes b sh).0 ≡ true
unfolding on_read_done
on_read_done-is_settled true bytes b sh h = disconnect-is_settled b sh
on_read_done-is_settled false bytes b sh h =
    let got = record b {
      recv_buffer = (on_write b.recv_buffer bytes).1;
      stats = record b.stats { bytes_received = add64 b.stats.bytes_received bytes };
    } in
    let rounds = data_size got.recv_buffer / packet_header_size + 1 in
    let b' = (read_packets rounds got sh).1 in
    let settled = read_packets-is_settled rounds got sh h in
    elim (Bool-cases (read_packets rounds got sh).0) [
      | inl on ↦
          rw (on_read_done, on)
            (ap (λ c. not (is_in_progress c) && not (is_closing c)) (do_read-frame b').0 ∙ settled)
      | inr off ↦ rw (on_read_done, off) settled
    ]

connect_failed-off :
    (state : BotState) (now : ℕ) (b : Bot) (sh : Shared)
    → (connect_failed state now b sh).0.connection_state ≡ b.connection_state
unfolding connect_failed
connect_failed-off mass_dropping now b sh = refl
connect_failed-off rolling_disconnect now b sh = refl
connect_failed-off unstarted now b sh = refl
connect_failed-off connecting now b sh = refl
connect_failed-off login now b sh = refl
connect_failed-off playing now b sh = refl
connect_failed-off zombie_dead now b sh = refl

on_connect-is_settled :
    (error : Bool) (random now : ℕ) (b : Bot) (sh : Shared)
    → is_settled (on_connect error random now b sh).0 ≡ true
unfolding on_connect
on_connect-is_settled true random now b sh =
    rw (connect_failed-off b.bot_state now (record b { connection_state = disconnected }) sh) refl
on_connect-is_settled false random now b sh =
    let online = record b {
      connection_state = connected;
      connect_start_time = now;
      last_send_time = now;
      next_send_time = add64 (add64 now b.send_interval_ms) (random % b.send_interval_ms);
    } in
    let sent = send_login_packet (is_reconnect_state b.bot_state) online in
    ap (λ c. not (is_in_progress c) && not (is_closing c))
      ((do_read-frame (record sent { bot_state = login })).0
        ∙ send_login-frame (is_reconnect_state b.bot_state) online)

set_test_mode-is_orderly :
    (mode : BotState) (now : ℕ) (b : Bot) (sh : Shared)
    → is_orderly b ≡ true
    → is_orderly (set_test_mode mode now b sh).0 ≡ true
unfolding set_test_mode
set_test_mode-is_orderly mass_dropping now b sh h = ground (arith, disconnect-is_settled b sh)
set_test_mode-is_orderly zombie_dead now b sh h = ground (arith, disconnect-is_settled b sh)
set_test_mode-is_orderly rolling_disconnect now b sh h = h
set_test_mode-is_orderly unstarted now b sh h = h
set_test_mode-is_orderly connecting now b sh h = h
set_test_mode-is_orderly login now b sh h = h
set_test_mode-is_orderly playing now b sh h = h

on_write_done-is_settled :
    (error : Bool) (bytes : ℕ) (b : Bot) (sh : Shared)
    → is_settled b ≡ true
    → is_settled (on_write_done error bytes b sh).0 ≡ true
unfolding on_write_done
on_write_done-is_settled true bytes b sh h = disconnect-is_settled b sh
on_write_done-is_settled false bytes b sh h = h

connect-is_orderly :
    (resolves : Bool) (b : Bot)
    → is_unstarted b.bot_state ≡ true
    → is_orderly b ≡ true
    → is_orderly (connect resolves b) ≡ true
unfolding connect
connect-is_orderly resolves b fresh h = ground (arith, fresh, h)

pub react-is_orderly :
    (ev : Event) (now : ℕ) (b : Bot) (sh : Shared)
    → is_allowed ev b ≡ true
    → is_orderly b ≡ true
    → is_orderly (react ev now b sh).0 ≡ true
unfolding react update_bot
react-is_orderly (connects resolves) now b sh ok h = connect-is_orderly resolves b ok h
react-is_orderly (updates d current) now b sh ok h =
    update_in-is_orderly b.bot_state d now current b sh refl h
react-is_orderly (sets_mode mode) now b sh ok h = set_test_mode-is_orderly mode now b sh h
react-is_orderly (connect_done error random) now b sh ok h =
    settled-is_orderly (on_connect error random now b sh).0
      (on_connect-is_settled error random now b sh)
react-is_orderly (read_done error bytes) now b sh ok h =
    settled-is_orderly (on_read_done error bytes b sh).0
      (on_read_done-is_settled error bytes b sh ok)
react-is_orderly (write_done error bytes) now b sh ok h =
    settled-is_orderly (on_write_done error bytes b sh).0
      (on_write_done-is_settled error bytes b sh ok)
react-is_orderly (latency_done error) now b sh ok h =
    let (same_connection, same_state) = on_latency-frame error b in
    rw (same_connection, same_state) h

-- A client that connects is not updated.
update_in-waiting :
    (state : BotState) (d : Draws) (now current : ℕ) (b : Bot) (sh : Shared)
    → is_waiting state ≡ true
    → update_in state d now current b sh ≡ (b, sh)
unfolding update_in
update_in-waiting unstarted d now current b sh h = refl
update_in-waiting connecting d now current b sh h = refl
update_in-waiting login d now current b sh h = cc
update_in-waiting playing d now current b sh h = cc
update_in-waiting rolling_disconnect d now current b sh h = cc
update_in-waiting mass_dropping d now current b sh h = cc
update_in-waiting zombie_dead d now current b sh h = cc

updates-IsCounted :
    (d : Draws) (current n now : ℕ) (b : Bot) (sh : Shared)
    → n + 1 < 2 ^ 64
    → is_orderly b ≡ true
    → IsCounted n (b, sh)
    → IsCounted n (react (updates d current) now b sh)
unfolding react update_bot
updates-IsCounted d current n now b sh small h counted = elim (Bool-cases (is_settled b)) [
  | inl settled ↦ react-IsCounted (updates d current) n now b sh small settled counted
  | inr busy ↦
      let waits : is_waiting b.bot_state ≡ true = ground (arith, busy, h) in
      subst (IsCounted n) (sym (update_in-waiting b.bot_state d now current b sh waits)) counted
]

-- An event that the manager or asio makes keeps the count right.
pub react_allowed-IsCounted :
    (ev : Event) (n now : ℕ) (b : Bot) (sh : Shared)
    → n + 1 < 2 ^ 64
    → is_allowed ev b ≡ true
    → is_orderly b ≡ true
    → IsCounted n (b, sh)
    → IsCounted n (react ev now b sh)
react_allowed-IsCounted (connects resolves) n now b sh small ok h counted =
    react-IsCounted (connects resolves) n now b sh small refl counted
react_allowed-IsCounted (updates d current) n now b sh small ok h counted =
    updates-IsCounted d current n now b sh small h counted
react_allowed-IsCounted (sets_mode mode) n now b sh small ok h counted =
    react-IsCounted (sets_mode mode) n now b sh small (ground (arith, ok)) counted
react_allowed-IsCounted (connect_done error random) n now b sh small ok h counted =
    react-IsCounted (connect_done error random) n now b sh small (ground (arith, ok)) counted
react_allowed-IsCounted (read_done error bytes) n now b sh small ok h counted =
    react-IsCounted (read_done error bytes) n now b sh small ok counted
react_allowed-IsCounted (write_done error bytes) n now b sh small ok h counted =
    react-IsCounted (write_done error bytes) n now b sh small ok counted
react_allowed-IsCounted (latency_done error) n now b sh small ok h counted =
    react-IsCounted (latency_done error) n now b sh small refl counted
