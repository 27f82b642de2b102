-- ===== src/TestPacketBot/DummyClient/Stuck.antt =====
-- Bots that stop for good: after a write that failed, and after a name that did not resolve.
use mmorpg_server.Base.{
  [], refl, ℕ, arith, Bool, true, ◌≡◌, ◌<◌, lt→ltb, false, ◌≤◌, ◌++◌, sub64, ◌∷◌, add64, ltb, ◌%◌,
  ◌∙◌, ap,
}
use mmorpg_server.TestPacketBot.DummyClient.{
  Bot, Shared, login, connecting, rolling_disconnect, ConnectionState, disconnected, in_progress,
  connected, closing, is_connected, is_disconnected, is_reconnect_state, on_connect,
  send_login_packet, do_read, async_read, on_write_done, disconnect, connect, connect_to_server,
}
use mmorpg_server.TestPacketBot.DummyClient.Unchanged.{send_login-frame, do_read-frame}
use mmorpg_server.TestPacketBot.DummyClient.Login.{do_read_tasks}
use mmorpg_server.TestPacketBot.DummyClient.Updating.{
  Draws, update_bot, update_in, update_rolling, is_closing,
}

-- With bytes that still count as unsent, no login is sent.
send_login-busy :
    (is_reconnect : Bool) (b : Bot) → 0 < b.send_size → send_login_packet is_reconnect b ≡ b
unfolding send_login_packet
send_login-busy is_reconnect b busy = rw (lt→ltb 0 b.send_size busy) refl

on_write_done-error :
    (bytes : ℕ) (b : Bot) (sh : Shared)
    → ((on_write_done true bytes b sh).0.send_size ≡ b.send_size)
      × ((on_write_done true bytes b sh).0.tasks ≡ b.tasks)
unfolding on_write_done disconnect
on_write_done-error bytes b sh = (ground arith, ground arith)

do_read-send_size : (b : Bot) → (do_read b).send_size ≡ b.send_size
unfolding do_read
do_read-send_size b = ground arith

-- When a write of a bot with unsent bytes has failed, its next connect starts a read and no
-- write: the login is never sent, and the unsent bytes still count.
pub on_connect-on_write_done :
    (bytes random now : ℕ) (b : Bot) (sh sh' : Shared)
    → 0 < b.send_size
    → let b' = (on_connect false random now (on_write_done true bytes b sh).0 sh').0 in
      (b'.bot_state ≡ login)
      × (b'.send_size ≡ b.send_size)
      × (b'.tasks ≡ b.tasks ++ async_read ∷ [])
unfolding on_connect
on_connect-on_write_done bytes random now b sh sh' busy =
    let lost = (on_write_done true bytes b sh).0 in
    let (same_size, same_tasks) = on_write_done-error bytes b sh in
    let online = record lost {
      connection_state = connected;
      connect_start_time = now;
      last_send_time = now;
      next_send_time = add64 (add64 now lost.send_interval_ms) (random % lost.send_interval_ms);
    } in
    let r = is_reconnect_state lost.bot_state in
    let nothing = send_login-busy r online (omega (arith, same_size, busy)) in
    let waiting = record (send_login_packet r online) { bot_state = login } in
    (
      (do_read-frame waiting).1,
      do_read-send_size waiting ∙ ap (λ (o : Bot). o.send_size) nothing ∙ same_size,
      do_read_tasks waiting (ap is_connected (send_login-frame r online))
          ∙ ap (λ (o : Bot). o.tasks ++ async_read ∷ []) nothing
          ∙ ap (λ ts. ts ++ async_read ∷ []) same_tasks,
    )

not_closing : (c : ConnectionState) → is_disconnected c ≡ true → is_closing c ≡ false
not_closing disconnected h = refl
not_closing in_progress h = refl
not_closing connected h = refl
not_closing closing h = cc

-- A bot whose server's name does not resolve at the end of its wait
pub update_bot-unresolved :
    (d d' : Draws) (now now' current current' : ℕ) (b : Bot) (sh sh' : Shared)
    → b.bot_state ≡ rolling_disconnect
    → is_disconnected b.connection_state ≡ true
    → d.resolves ≡ false
    → b.wait_duration ≤ sub64 now b.disconnect_time
    → let b' = (update_bot d now current b sh).0 in
      (b'.bot_state ≡ connecting)
      × (is_disconnected b'.connection_state ≡ true)
      × (b'.tasks ≡ b.tasks)
      × (update_bot d' now' current' b' sh' ≡ (b', sh'))
unfolding update_bot update_in update_rolling connect_to_server connect
update_bot-unresolved d d' now now' current current' b sh sh' waits off unresolved over =
    let elapsed : ltb (sub64 now b.disconnect_time) b.wait_duration ≡ false =
      ground (arith, over) in
    let open_end : is_closing b.connection_state ≡ false = not_closing b.connection_state off in
    rw (waits, elapsed, open_end, off, unresolved) (refl, off, refl, refl)
