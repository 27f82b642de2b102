-- ===== src/Network/Socket/Closing.antt =====
-- `Close` of CSocket: it runs once, and returns every packet that the socket holds.
use mmorpg_server.Base.{
  ℕ, arith, Option, ◌≡◌, suc, ◌≤◌, none, update, Option-cases, ◌⊎◌, ◌+◌, inl, ◌<◌, zero, inr, ap,
  ◌∙◌, ◌∷◌, refl, true, false, [], ◌^◌, ==_refl,
}
use mmorpg_server.Common.Types.{send_batch_size, send_queue_capacity}
use mmorpg_server.Common.PacketPool.{PacketPool, release}
use mmorpg_server.Common.MpscQueue.Refine.{IsValid, contents, implementation, length-contents}
use mmorpg_server.Network.Monitor.{on_disconnect}
use mmorpg_server.Network.World.{World, Env}
use mmorpg_server.Network.Drain.{release_all, drain_lem}
use mmorpg_server.Network.Socket.{
  is_connected, release_batch, drain_send_queue, shut_down, close, gather,
}

-- `batch` with the slots from `i` on, `count` of them, set to null
unfoldable pub clear : (ℕ → Option ℕ) → ℕ → ℕ → ℕ → Option ℕ
clear batch i zero = batch
clear batch i (suc count) = clear (update batch i none) (i + 1) count

pub gather_ext :
    (f g : ℕ → Option ℕ) (i count : ℕ)
    → ((j : ℕ) → i ≤ j → f j ≡ g j)
    → gather f i count ≡ gather g i count
unfolding gather
gather_ext f g i zero h = refl
gather_ext f g i (suc count) h =
    let rest = gather_ext f g (i + 1) count (λ j le. h j (omega (arith, le))) in
    elim (Option-cases (g i)) [
      | inl e ↦ rw (gather, h i (omega arith), e) rest
      | inr (packet, e) ↦ rw (gather, h i (omega arith), e) (ap (λ t. packet ∷ t) rest)
    ]

pub release_batch_lem :
    (e : Env) (batch : ℕ → Option ℕ) (pool : PacketPool) (i count : ℕ)
    → (release_batch e batch pool i count).1 ≡ release_all pool e.thread (gather batch i count)
unfolding release_batch release_all gather
release_batch_lem e batch pool i zero = refl
release_batch_lem e batch pool i (suc count) = elim (Option-cases (batch i)) [
  | inl empty ↦ rw (release_batch, gather, empty) (release_batch_lem e batch pool (i + 1) count)
  | inr (packet, full) ↦
      rw (release_batch, gather, full)
        (release_batch_lem e (update batch i none) (release pool e.thread packet) (i + 1) count
          ∙ ap (release_all (release pool e.thread packet) e.thread)
              (gather_ext (update batch i none) batch (i + 1) count (λ j le. ground arith)))
]

-- A null slot stays null, and the slots of the range become null.
pub release_batch_clears :
    (e : Env) (batch : ℕ → Option ℕ) (pool : PacketPool) (i count j : ℕ)
    → ((batch j ≡ none) ⊎ ((i ≤ j) × (j < i + count)))
    → (release_batch e batch pool i count).0 j ≡ none
unfolding release_batch
release_batch_clears e batch pool i zero j h = ground arith
release_batch_clears e batch pool i (suc count) j h = elim (Option-cases (batch i)) [
  | inl empty ↦
      rw (release_batch, empty)
        (release_batch_clears e batch pool (i + 1) count j (ground (arith, h, empty)))
  | inr (packet, full) ↦
      rw (release_batch, full)
        (release_batch_clears e (update batch i none) (release pool e.thread packet) (i + 1) count j
          (ground (arith, h)))
]

close_state :
    (e : Env) (w : World) (s : ℕ)
    → is_connected (w.sockets s) ≡ true
    → close e w s ≡ shut_down e w s
unfolding is_connected close
close_state e w s h = ground arith

pub close_idle :
    (e : Env) (w : World) (s : ℕ) → is_connected (w.sockets s) ≡ false → close e w s ≡ w
unfolding is_connected close
close_idle e w s h = ground arith

-- After a `Close` the socket is not connected, and a second `Close`, by any thread, changes
-- nothing.
pub close-close :
    (e other : Env) (w : World) (s : ℕ)
    → (is_connected ((close e w s).sockets s) ≡ false) × (close other (close e w s) s ≡ close e w s)
unfolding close shut_down is_connected
close-close e other w s = ground arith

-- A `Close` of a connected socket, its queue valid and its index at least 8193 below 2 ^ 64,
-- gives back the packets of the batch, then those of the queue, in order, leaves the batch null
-- and the queue empty, closes the operating system's socket, and counts one disconnect.
pub close-release_all :
    (e : Env) (w : World) (s : ℕ)
    → is_connected (w.sockets s) ≡ true
    → IsValid (w.sockets s).send_queue
    → (w.sockets s).send_queue.tail + send_queue_capacity + 1 < 2 ^ 64
    → let w' = close e w s in
      (w'.pool
        ≡ release_all
            (release_all w.pool e.thread (gather (w.sockets s).send_batch 0 send_batch_size))
            e.thread
            (contents (w.sockets s).send_queue))
      × (contents (w'.sockets s).send_queue ≡ [])
      × ((i : ℕ) → i < send_batch_size → (w'.sockets s).send_batch i ≡ none)
      × ((w'.sockets s).is_open ≡ false)
      × (w'.monitor ≡ on_disconnect w.monitor)
unfolding shut_down drain_send_queue
close-release_all e w s h v room =
    let k = w.sockets s in
    let (emptied, released) =
      drain_lem (implementation {A = ℕ} {capacity = send_queue_capacity}) e.thread
        (send_queue_capacity + 1) k.send_queue
        (release_batch e k.send_batch w.pool 0 send_batch_size).1 (v, omega (arith, room))
        (omega (arith, length-contents k.send_queue, v.bounded)) in
    let nulls : (i : ℕ)
        → i < send_batch_size
        → (release_batch e k.send_batch w.pool 0 send_batch_size).0 i ≡ none =
      λ i lt.
        release_batch_clears e k.send_batch w.pool 0 send_batch_size i
          (inr (omega arith, omega (arith, lt))) in
    rw (close_state e w s h) (
      simp (==_refl s) (
        released
            ∙ ap (λ pool. release_all pool e.thread (contents k.send_queue))
                (release_batch_lem e k.send_batch w.pool 0 send_batch_size),
        emptied,
        nulls,
        refl,
        refl,
      ))
