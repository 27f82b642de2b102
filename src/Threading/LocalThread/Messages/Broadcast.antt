-- ===== src/Threading/LocalThread/Messages/Broadcast.antt =====
-- How many copies a broadcast sends, and what happens to the packet itself.
use mmorpg_server.Base.{
  ℕ, some, arith, ◌<◌, ◌≤◌, ◌≡◌, suc, false, if◌then◌else◌, Bool-cases, ◌==◌, leb, add64, inl, ◌&&◌,
  inr, ◌%◌, Option-cases, refl, ◌+◌, zero,
}
use mmorpg_server.Common.Types.{max_broadcast_targets}
use mmorpg_server.Common.PacketPool.{PacketPool, release, give_back}
use mmorpg_server.Network.World.{World, Env}
use mmorpg_server.Threading.LocalThread.{LocalThread}
use mmorpg_server.Threading.LocalThread.Messages.{
  is_target, send_copy, broadcast_from, handle_broadcast,
}

send_copy_count :
    (e : Env) (w : World) (packet p send_count : ℕ)
    → send_count < max_broadcast_targets
    → (send_copy e w packet p send_count).0 ≤ max_broadcast_targets
unfolding send_copy
send_copy_count e w packet p send_count h = ground (arith, h)

broadcast_from_count :
    (e : Env) (t : LocalThread) (w : World)
    (map_id packet exclude_session_id start_index k send_count n : ℕ)
    → send_count ≤ max_broadcast_targets
    → (broadcast_from e t w map_id packet exclude_session_id start_index k send_count n).0
      ≤ max_broadcast_targets
unfolding broadcast_from
broadcast_from_count e t w map_id packet exclude_session_id start_index k send_count zero h = h
broadcast_from_count e t w map_id packet exclude_session_id start_index k send_count (suc n) h =
    elim (Bool-cases (leb max_broadcast_targets send_count)) [
      | inl full ↦ rw (broadcast_from, full) h
      | inr free ↦
          elim (Option-cases (t.active_sessions ((start_index + k) % t.active_session_count))) [
            | inl empty ↦
                rw (broadcast_from, free, empty)
                  (broadcast_from_count e t w map_id packet exclude_session_id start_index (k + 1)
                    send_count n h)
            | inr (p, there) ↦
                elim (Bool-cases (is_target (w.sessions p) map_id exclude_session_id)) [
                  | inl wanted ↦
                      let sent = send_copy e w packet p send_count in
                      rw (broadcast_from, free, there, wanted)
                        (broadcast_from_count e t sent.1 map_id packet exclude_session_id
                          start_index (k + 1) sent.0 n
                          (send_copy_count e w packet p send_count (ground (arith, free))))
                  | inr other ↦
                      rw (broadcast_from, free, there, other)
                        (broadcast_from_count e t w map_id packet exclude_session_id start_index
                          (k + 1) send_count n h)
                ]
          ]
    ]

release_frees :
    (p : PacketPool) (thread buf : ℕ) → ((release p thread buf).buffers buf).is_allocated ≡ false
unfolding release give_back
release_frees p thread buf = ground arith

-- A broadcast, whatever `rand` returns, adds at most 30 to the count of packets sent and gives its
-- packet back, unless the thread has no active session: then the count and the packet stay as they
-- were, so a packet in use is lost.
pub handle_broadcast_lem :
    (rand : ℕ → ℕ) (e : Env) (t : LocalThread) (w : World) (map_id packet exclude_session_id : ℕ)
    → let (t', w') = handle_broadcast rand e t w map_id (some packet) exclude_session_id in
      ((n : ℕ) × (n ≤ 30)
        × (t'.packets_sent
            ≡ (if t.active_session_count == 0 then t.packets_sent else add64 t.packets_sent n)))
      × ((w'.pool.buffers packet).is_allocated
          ≡ ((t.active_session_count == 0) && (w.pool.buffers packet).is_allocated))
unfolding handle_broadcast
handle_broadcast_lem rand e t w map_id packet exclude_session_id =
    let sent =
      broadcast_from e t w map_id packet exclude_session_id
        (rand t.rand_calls % t.active_session_count) 0 0 t.active_session_count in
    let few =
      broadcast_from_count e t w map_id packet exclude_session_id
        (rand t.rand_calls % t.active_session_count) 0 0 t.active_session_count (omega arith) in
    elim (Bool-cases (t.active_session_count == 0)) [
      | inl alone ↦ rw (handle_broadcast, alone) ((0, omega arith, refl), refl)
      | inr others ↦
          rw (handle_broadcast, others)
            ((sent.0, few, refl), release_frees sent.1.pool e.thread packet)
    ]
