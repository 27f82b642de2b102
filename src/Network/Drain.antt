-- ===== src/Network/Drain.antt =====
-- The loop `while (queue.Pop(packet)) Release(packet)` of Socket.cpp and Session.cpp, over any
-- implementation of a queue of packet pointers.
use mmorpg_server.Base.{
  ℕ, zero, suc, Option, none, some, List, [], ◌∷◌, length, ◌<◌, ◌≡◌, arith, Option-cases, inl, ap,
  sym, ◌∙◌, inr, refl,
}
use mmorpg_server.Common.Fifo.{Implementation, take_first, take_first-none, take_first-some}
use mmorpg_server.Common.PacketPool.{PacketPool, release}

-- Each round takes an entry, so one round more than there are entries is enough.
unfoldable pub drain {ℓ} :
    {Q : Type ℓ} → (Q → Option ℕ × Q) → ℕ → ℕ → Q → PacketPool → Q × PacketPool
drain pop thread zero q pool = (q, pool)
drain pop thread (suc rounds) q pool =
    let (out, q') = pop q in
    elim out [
      | none ↦ (q', pool)
      | some packet ↦ drain pop thread rounds q' (release pool thread packet)
    ]

-- The packets given back one after the other.
unfoldable pub release_all : PacketPool → ℕ → List ℕ → PacketPool
release_all pool thread [] = pool
release_all pool thread (packet ∷ rest) = release_all (release pool thread packet) thread rest

module _ {capacity : ℕ} (impl : Implementation ℕ capacity) where
  open impl use {Queue, pop, contents, IsValid, pop_refines}

  -- With enough rounds the loop ends with an empty queue, and has released each entry, in order.
  pub drain_lem :
      (thread rounds : ℕ) (q : Queue) (pool : PacketPool)
      → IsValid rounds q
      → length (contents q) < rounds
      → (contents (drain pop thread rounds q pool).0 ≡ [])
        × ((drain pop thread rounds q pool).1 ≡ release_all pool thread (contents q))
  unfolding drain release_all take_first
  drain_lem thread zero q pool v h = absurd (omega arith)
  drain_lem thread (suc rounds) q pool v h =
      let (e, v') = pop_refines rounds q v in
      elim (Option-cases (pop q).0) [
        | inl out ↦
            let entries =
              take_first-none (contents q) (ap (λ o. (o, contents (pop q).1)) (sym out) ∙ e) in
            let empty : contents (pop q).1 ≡ [] =
              ap (λ p. p.1) e ∙ ap (λ xs. (take_first xs).1) entries in
            rw (out, drain, entries) (empty, refl)
        | inr (packet, out) ↦
            let entries =
              take_first-some (contents q) (ap (λ o. (o, contents (pop q).1)) (sym out) ∙ e) in
            let (empty, gone) =
              drain_lem thread rounds (pop q).1 (release pool thread packet) v'
                (omega (arith, ap length entries)) in
            rw (out, drain, entries) (empty, gone)
      ]
