-- ===== src/TestPacketBot/LoadTestManager/Fleet.antt =====
-- The loops of CLoadTestManager over its clients keep the count of connected clients.
use mmorpg_server.TestPacketBot.DummyClient.Updating.{
  Draws, Event, updates, sets_mode, react, update_bot,
}
use mmorpg_server.TestPacketBot.DummyClient.Counting.{IsCounted, share}
use mmorpg_server.TestPacketBot.LoadTestManager.Clients.{
  visit, update_clients, mass_drop, make_zombies, call_client, zombie_target,
}
use mmorpg_server.TestPacketBot.LoadTestManager.Orderly.{
  is_orderly, is_allowed, react-is_orderly, react_allowed-IsCounted,
}
use mmorpg_server.Base.{
  [], refl, ℕ, arith, inl, inr, List, ◌≡◌, ◌≤◌, ◌∷◌, ◌+◌, true, length, Bool, ◌<◌, suc, ◌^◌, zero,
  Bool-cases, ◌&&◌, leb, ◌%◌, ◌==◌,
}
use mmorpg_server.TestPacketBot.DummyClient.{
  mass_dropping, zombie_dead, Bot, Shared, set_test_mode, is_connected,
}

-- The number of clients that are connected
abbrev pub online : List Bot → ℕ
online [] = 0
online (b ∷ bots) = share b + online bots

abbrev pub AreOrderly : List Bot → Type 0
AreOrderly [] = Unit
AreOrderly (b ∷ bots) = (is_orderly b ≡ true) × AreOrderly bots

-- The clients are orderly, and the count is that of `k` others and of these.
abbrev pub IsRight : ℕ → List Bot × Shared → Type 0
IsRight k s = AreOrderly s.0 × (s.1.active_client_count ≡ k + online s.0)

-- What an operation on one client must keep
abbrev pub Keeps : Bot × Shared → Bot × Shared → Type 0
Keeps s s' = (is_orderly s'.0 ≡ true) × ((n : ℕ) → n + 1 < 2 ^ 64 → IsCounted n s → IsCounted n s')

pub react-Keeps :
    (ev : Event) (now : ℕ) (b : Bot) (sh : Shared)
    → is_allowed ev b ≡ true
    → is_orderly b ≡ true
    → Keeps (b, sh) (react ev now b sh)
react-Keeps ev now b sh ok h =
    (react-is_orderly ev now b sh ok h, λ n small. react_allowed-IsCounted ev n now b sh small ok h)

share-le : (b : Bot) → share b ≤ 1
share-le b = ground arith

pub online-le : (bots : List Bot) → online bots ≤ length bots
online-le [] = omega arith
online-le (b ∷ bots) = omega (arith, share-le b, online-le bots)

-- After the first client, the others count on from it.
pub first-count :
    (k : ℕ) (b b' : Bot) (bots : List Bot) (sh sh' : Shared)
    → k + length (b ∷ bots) < 2 ^ 64
    → IsRight k (b ∷ bots, sh)
    → Keeps (b, sh) (b', sh')
    → sh'.active_client_count ≡ (k + share b') + online bots
first-count k b b' bots sh sh' small right keeps =
    let others = online-le bots in
    let counted : sh.active_client_count ≡ (k + online bots) + share b = omega (arith, right.1) in
    omega (arith, keeps.1 (k + online bots) (omega (arith, small, others)) counted)

-- One client after the other
first-rest :
    (k : ℕ) (b b' : Bot) (bots : List Bot) (sh sh' : Shared) (s : List Bot × Shared)
    → k + length (b ∷ bots) < 2 ^ 64
    → IsRight k (b ∷ bots, sh)
    → Keeps (b, sh) (b', sh')
    → (k + share b' + length bots < 2 ^ 64
        → IsRight (k + share b') (bots, sh')
        → IsRight (k + share b') s)
    → IsRight k (b' ∷ s.0, s.1)
first-rest k b b' bots sh sh' s small right keeps rest =
    let at_most_one = share-le b' in
    let done =
      rest (omega (arith, small, at_most_one))
        (right.0.1, first-count k b b' bots sh sh' small right keeps) in
    ((keeps.0, done.0), omega (arith, done.1))

visit-IsRight :
    (f : ℕ → Bot → Shared → Bot × Shared) (i k : ℕ) (bots : List Bot) (sh : Shared)
    → ((j : ℕ) (b : Bot) (sh : Shared) → is_orderly b ≡ true → Keeps (b, sh) (f j b sh))
    → k + length bots < 2 ^ 64
    → IsRight k (bots, sh)
    → IsRight k (visit f i bots sh)
unfolding visit
visit-IsRight f i k [] sh keeps small right = right
visit-IsRight f i k (b ∷ bots) sh keeps small right =
    let (b', sh') = f i b sh in
    first-rest k b b' bots sh sh' (visit f (suc i) bots sh') small right (keeps i b sh right.0.0)
      (visit-IsRight f (suc i) (k + share b') bots sh' keeps)

pub update_clients-IsRight :
    (current : ℕ) (draws : ℕ → Draws) (now : ℕ → ℕ) (bots : List Bot) (sh : Shared)
    → length bots < 2 ^ 64
    → IsRight 0 (bots, sh)
    → IsRight 0 (update_clients current draws now bots sh)
unfolding update_clients react
update_clients-IsRight current draws now bots sh small right =
    visit-IsRight (λ i. update_bot (draws i) (now i) current) 0 0 bots sh
      (λ i b sh. react-Keeps (updates (draws i) current) (now i) b sh refl) (omega (arith, small))
      right

-- What a loop that counts does to the clients
abbrev pub outcome : ℕ × List Bot × Shared → List Bot × Shared
outcome r = (r.1, r.2)

pub mass_drop-IsRight :
    (rand : ℕ → ℕ) (now i count k : ℕ) (bots : List Bot) (sh : Shared)
    → k + length bots < 2 ^ 64
    → IsRight k (bots, sh)
    → IsRight k (outcome (mass_drop rand now i count bots sh))
unfolding mass_drop react
mass_drop-IsRight rand now i count k [] sh small right = right
mass_drop-IsRight rand now i count k (b ∷ bots) sh small right =
    let (b', sh') = set_test_mode mass_dropping now b sh in
    elim (Bool-cases (is_connected b.connection_state && (rand i % 2 == 0))) [
      | inl dropped ↦
          rw (mass_drop, dropped)
            (first-rest k b b' bots sh sh'
              (outcome (mass_drop rand now (suc i) (count + 1) bots sh')) small right
              (react-Keeps (sets_mode mass_dropping) now b sh (ground (arith, dropped)) right.0.0)
              (mass_drop-IsRight rand now (suc i) (count + 1) (k + share b') bots sh'))
      | inr left ↦
          rw (mass_drop, left)
            (first-rest k b b bots sh sh (outcome (mass_drop rand now (suc i) count bots sh)) small
              right (right.0.0, λ n small h. h)
              (mass_drop-IsRight rand now (suc i) count (k + share b) bots sh))
    ]

pub make_zombies-IsRight :
    (now count k : ℕ) (bots : List Bot) (sh : Shared)
    → k + length bots < 2 ^ 64
    → IsRight k (bots, sh)
    → IsRight k (outcome (make_zombies now count bots sh))
unfolding make_zombies react
make_zombies-IsRight now count k [] sh small right = right
make_zombies-IsRight now count k (b ∷ bots) sh small right =
    let (b', sh') = set_test_mode zombie_dead now b sh in
    elim (Bool-cases (is_connected b.connection_state)) [
      | inr off ↦
          rw (make_zombies, off)
            (first-rest k b b bots sh sh (outcome (make_zombies now count bots sh)) small right
              (right.0.0, λ n small h. h) (make_zombies-IsRight now count (k + share b) bots sh))
      | inl on ↦
          let keeps = react-Keeps (sets_mode zombie_dead) now b sh on right.0.0 in
          elim (Bool-cases (leb zombie_target (suc count))) [
            | inl enough ↦
                rw (make_zombies, on, enough)
                  (first-rest k b b' bots sh sh' (bots, sh') small right keeps (λ small h. h))
            | inr more ↦
                rw (make_zombies, on, more)
                  (first-rest k b b' bots sh sh' (outcome (make_zombies now (suc count) bots sh'))
                    small right keeps
                    (make_zombies-IsRight now (suc count) (k + share b') bots sh'))
          ]
    ]

-- Whether the client `k` may see the event
abbrev pub is_allowed_at : ℕ → Event → List Bot → Bool
is_allowed_at k ev [] = true
is_allowed_at zero ev (b ∷ bots) = is_allowed ev b
is_allowed_at (suc k) ev (b ∷ bots) = is_allowed_at k ev bots

pub call_client-IsRight :
    (i : ℕ) (ev : Event) (now k : ℕ) (bots : List Bot) (sh : Shared)
    → k + length bots < 2 ^ 64
    → is_allowed_at i ev bots ≡ true
    → IsRight k (bots, sh)
    → IsRight k (call_client i (react ev now) bots sh)
unfolding call_client
call_client-IsRight i ev now k [] sh small ok right = right
call_client-IsRight zero ev now k (b ∷ bots) sh small ok right =
    let (b', sh') = react ev now b sh in
    first-rest k b b' bots sh sh' (bots, sh') small right (react-Keeps ev now b sh ok right.0.0)
      (λ small h. h)
call_client-IsRight (suc i) ev now k (b ∷ bots) sh small ok right =
    first-rest k b b bots sh sh (call_client i (react ev now) bots sh) small right
      (right.0.0, λ n small h. h)
      (λ small h. call_client-IsRight i ev now (k + share b) bots sh small ok h)
