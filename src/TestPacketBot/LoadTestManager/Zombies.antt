-- ===== src/TestPacketBot/LoadTestManager/Zombies.antt =====
-- How many clients the key 't' of CLoadTestManager cuts off for good.
use mmorpg_server.TestPacketBot.DummyClient.Counting.{share}
use mmorpg_server.TestPacketBot.LoadTestManager.Clients.{make_zombies, zombie_target}
use mmorpg_server.TestPacketBot.LoadTestManager.Fleet.{online}
use mmorpg_server.Base.{
  [], ℕ, arith, inl, inr, min, Bool, List, true, ◌∷◌, ◌≡◌, ◌<◌, false, ◌&&◌, if◌then◌else◌, ◌+◌,
  Bool-cases, leb, suc, leb→le,
}
use mmorpg_server.TestPacketBot.DummyClient.{
  zombie_dead, Bot, Shared, set_test_mode, BotState, disconnect, is_connected, is_disconnected,
}

abbrev pub is_zombie : BotState → Bool
is_zombie zombie_dead = true
is_zombie _ = false

-- A client that is cut off and will not connect again
abbrev pub is_gone : Bot → Bool
is_gone b = is_disconnected b.connection_state && is_zombie b.bot_state

abbrev pub gone : List Bot → ℕ
gone [] = 0
gone (b ∷ bots) = (if is_gone b then 1 else 0) + gone bots

zombie-is_gone :
    (now : ℕ) (b : Bot) (sh : Shared)
    → (is_gone (set_test_mode zombie_dead now b sh).0 ≡ true)
      × (share (set_test_mode zombie_dead now b sh).0 ≡ 0)
unfolding set_test_mode disconnect
zombie-is_gone now b sh = (ground arith, ground arith)

connected-not_gone :
    (b : Bot) → is_connected b.connection_state ≡ true → (is_gone b ≡ false) × (share b ≡ 1)
connected-not_gone b on = (ground (arith, on), ground (arith, on))

-- The count, the clients that are left and those that are gone, from a count below the target
pub make_zombies_from :
    (now count : ℕ) (bots : List Bot) (sh : Shared)
    → count < zombie_target
    → let r = make_zombies now count bots sh in
      (r.0 ≡ min zombie_target (count + online bots))
      × (online r.1 + r.0 ≡ online bots + count)
      × (gone r.1 + count ≡ gone bots + r.0)
unfolding make_zombies
make_zombies_from now count [] sh below = (omega (arith, below), omega arith, omega arith)
make_zombies_from now count (b ∷ bots) sh below =
    let (b', sh') = set_test_mode zombie_dead now b sh in
    elim (Bool-cases (is_connected b.connection_state)) [
      | inr off ↦
          let (c, o, g) = make_zombies_from now count bots sh below in
          let nothing : share b ≡ 0 = ground (arith, off) in
          rw (make_zombies, off) (omega (arith, c, nothing), omega (arith, o), omega (arith, g))
      | inl on ↦
          let (alive, one) = connected-not_gone b on in
          let (dead, zero_left) = zombie-is_gone now b sh in
          elim (Bool-cases (leb zombie_target (suc count))) [
            | inl enough ↦
                let reached = leb→le zombie_target (suc count) enough in
                rw (make_zombies, on, enough, alive, dead)
                  (omega (arith, below, reached, one), omega (arith, one, zero_left), omega arith)
            | inr more ↦
                let (c, o, g) = make_zombies_from now (suc count) bots sh' (ground (arith, more)) in
                rw (make_zombies, on, more, alive, dead)
                  (omega (arith, c, one), omega (arith, o, one, zero_left), omega (arith, g))
          ]
    ]

-- The key 't' cuts off the first connected clients, 500 at most and all if there are fewer: the
-- count that it prints is that number, so many fewer are connected, and so many more are
-- disconnected for good.
pub make_zombies_lem :
    (now : ℕ) (bots : List Bot) (sh : Shared)
    → let r = make_zombies now 0 bots sh in
      (r.0 ≡ min zombie_target (online bots))
      × (online r.1 + r.0 ≡ online bots)
      × (gone r.1 ≡ gone bots + r.0)
make_zombies_lem now bots sh =
    let (c, o, g) = make_zombies_from now 0 bots sh (omega arith) in
    (omega (arith, c), omega (arith, o), omega (arith, g))
