-- ===== src/Threading/LocalThread/Commands.antt =====
-- The loop of CLocalThread::ProcessCommands ends when nobody adds commands.
use mmorpg_server.Base.{
  [], refl, ℕ, none, some, arith, List, ◌≡◌, Option, Option-cases, Bool-cases, true, length, inl,
  ◌∷◌, ◌==◌, ◌+◌, inr, ◌⊎◌, false, suc, ◌∙◌, ap, sym, subst,
}
use mmorpg_server.Common.Fifo.{take_first}
use mmorpg_server.Common.MpscQueue as Queue
use mmorpg_server.Common.MpscQueue.Refine.{contents, pop_refines}
use mmorpg_server.Common.MpscQueue.Refine as Refine
use mmorpg_server.Network.World.{World, Env}
use mmorpg_server.Threading.LocalThread.{
  LocalThread, Command, no_command, shutdown, create_session_of, remove_session_of, broadcast,
  command_queue_capacity, allocate_session, create_session, free_session, replace_by_last,
  remove_session, find_active,
}
use mmorpg_server.Threading.LocalThread.Messages.{handle_broadcast}
use mmorpg_server.Threading.LocalThread.Ticks.{run_command, process_commands}

-- What is left of the commands when a shutdown has stopped the loop
abbrev pub after_shutdown : List Command → List Command
after_shutdown [] = []
after_shutdown (shutdown ∷ commands) = commands
after_shutdown (no_command ∷ commands) = after_shutdown commands
after_shutdown (create_session_of _ ∷ commands) = after_shutdown commands
after_shutdown (remove_session_of _ ∷ commands) = after_shutdown commands
after_shutdown (broadcast _ _ _ ∷ commands) = after_shutdown commands

allocate-queue : (t : LocalThread) → (allocate_session t).1.command_queue ≡ t.command_queue
unfolding allocate_session
allocate-queue t = ground arith

create-queue :
    (e : Env) (t : LocalThread) (w : World) (socket : Option ℕ)
    → (create_session e t w socket).1.command_queue ≡ t.command_queue
unfolding create_session
create-queue e t w none = refl
create-queue e t w (some s) = elim (Option-cases (allocate_session t).0) [
  | inl full ↦ rw (create_session, full) (allocate-queue t)
  | inr (p, made) ↦ rw (create_session, made) (allocate-queue t)
]

free-queue :
    (e : Env) (t : LocalThread) (w : World) (p : ℕ)
    → (free_session e t w p).0.command_queue ≡ t.command_queue
unfolding free_session
free-queue e t w p = ground arith

remove-queue :
    (e : Env) (t : LocalThread) (w : World) (id : ℕ)
    → (remove_session e t w id).0.command_queue ≡ t.command_queue
unfolding remove_session replace_by_last
remove-queue e t w id = elim (Option-cases (find_active t w id 0 t.active_session_count)) [
  | inl missing ↦ rw (remove_session, missing) refl
  | inr (at, found) ↦ rw (remove_session, found) (free-queue e t _ at.1)
]

broadcast-queue :
    (rand : ℕ → ℕ) (e : Env) (t : LocalThread) (w : World) (map_id : ℕ) (packet : Option ℕ)
    (exclude : ℕ)
    → (handle_broadcast rand e t w map_id packet exclude).0.command_queue ≡ t.command_queue
unfolding handle_broadcast
broadcast-queue rand e t w map_id none exclude = refl
broadcast-queue rand e t w map_id (some packet) exclude =
    elim (Bool-cases (t.active_session_count == 0)) [
      | inl alone ↦ rw (handle_broadcast, alone) refl
      | inr others ↦ rw (handle_broadcast, others) refl
    ]

-- A command does not touch the queue, and only a shutdown ends the loop.
run_command_lem :
    (rand : ℕ → ℕ) (e : Env) (t : LocalThread) (w : World) (c : Command)
    → ((run_command rand e t w c).1.command_queue ≡ t.command_queue)
      × ((((run_command rand e t w c).0 ≡ true)
            × ((cs : List Command) → after_shutdown (c ∷ cs) ≡ after_shutdown cs))
          ⊎ (((run_command rand e t w c).0 ≡ false)
              × ((cs : List Command) → after_shutdown (c ∷ cs) ≡ cs)))
unfolding run_command
run_command_lem rand e t w no_command = (refl, inl (refl, λ cs. refl))
run_command_lem rand e t w shutdown = (refl, inr (refl, λ cs. refl))
run_command_lem rand e t w (create_session_of socket) =
    (create-queue e t w socket, inl (refl, λ cs. refl))
run_command_lem rand e t w (remove_session_of id) = (remove-queue e t w id, inl (refl, λ cs. refl))
run_command_lem rand e t w (broadcast map_id packet exclude) =
    (broadcast-queue rand e t w map_id packet exclude, inl (refl, λ cs. refl))

abbrev pub popped : LocalThread → LocalThread
popped t = record t { command_queue = (Queue.pop t.command_queue).1 }

-- A round of the loop, by what it finds
round_empty :
    (n : ℕ) (rand : ℕ → ℕ) (e : Env) (t : LocalThread) (w : World)
    → (Queue.pop t.command_queue).0 ≡ none
    → process_commands (suc n) rand e t w ≡ (popped t, w)
unfolding process_commands
round_empty n rand e t w out = rw (process_commands, out) refl

round_goes_on :
    (n : ℕ) (rand : ℕ → ℕ) (e : Env) (t : LocalThread) (w : World) (c : Command)
    → (Queue.pop t.command_queue).0 ≡ some c
    → (run_command rand e (popped t) w c).0 ≡ true
    → process_commands (suc n) rand e t w
      ≡ (let (_, t', w') = run_command rand e (popped t) w c in process_commands n rand e t' w')
unfolding process_commands
round_goes_on n rand e t w c out on = rw (process_commands, out, on) refl

round_stops :
    (n : ℕ) (rand : ℕ → ℕ) (e : Env) (t : LocalThread) (w : World) (c : Command)
    → (Queue.pop t.command_queue).0 ≡ some c
    → (run_command rand e (popped t) w c).0 ≡ false
    → process_commands (suc n) rand e t w
      ≡ (let (_, t', w') = run_command rand e (popped t) w c in (t', w'))
unfolding process_commands
round_stops n rand e t w c out off = rw (process_commands, out, off) refl

-- On a valid command queue to which nobody adds, the loop of `ProcessCommands` ends: one round
-- more than there are commands gives the same as any larger number, and leaves the commands
-- behind the first shutdown, or none if there is no shutdown.
pub process_commands_ends :
    (cs : List Command) (rand : ℕ → ℕ) (e : Env) (t : LocalThread) (w : World) (more : ℕ)
    → Refine.IsValid t.command_queue
    → contents t.command_queue ≡ cs
    → (process_commands (suc (length cs + more)) rand e t w
        ≡ process_commands (suc (length cs)) rand e t w)
      × (contents (process_commands (suc (length cs)) rand e t w).0.command_queue
          ≡ after_shutdown cs)
unfolding take_first
process_commands_ends [] rand e t w more v same =
    let r = (pop_refines t.command_queue v).0 ∙ ap take_first same in
    let once = λ (n : ℕ). round_empty n rand e t w (ap (λ q. q.0) r) in
    (
      once (0 + more) ∙ sym (once 0),
      ap (λ q. contents q.0.command_queue) (once 0) ∙ ap (λ q. q.1) r,
    )
process_commands_ends (c ∷ cs) rand e t w more v same =
    let (taken, valid, _) = pop_refines t.command_queue v in
    let r = taken ∙ ap take_first same in
    let out = ap (λ q. q.0) r in
    let (queue, outcome) = run_command_lem rand e (popped t) w c in
    let (_, t', w') = run_command rand e (popped t) w c in
    let count : length (c ∷ cs) + more ≡ suc (length cs + more) = omega arith in
    let left = ap contents queue ∙ ap (λ q. q.1) r in
    elim outcome [
      | inl (on, skip) ↦
          let (same_end, rest) =
            process_commands_ends cs rand e t' w' more
              (subst (λ q. Refine.IsValid q) (sym queue) valid) left in
          let once = λ (n : ℕ). round_goes_on n rand e t w c out on in
          (
            ap (λ n. process_commands (suc n) rand e t w) count
                ∙ once (suc (length cs + more))
                ∙ same_end
                ∙ sym (once (suc (length cs))),
            ap (λ q. contents q.0.command_queue) (once (suc (length cs))) ∙ rest ∙ sym (skip cs),
          )
      | inr (off, stop) ↦
          let once = λ (n : ℕ). round_stops n rand e t w c out off in
          (
            once (length (c ∷ cs) + more) ∙ sym (once (length (c ∷ cs))),
            ap (λ q. contents q.0.command_queue) (once (length (c ∷ cs))) ∙ left ∙ sym (stop cs),
          )
    ]

-- A loop that finds one command for a new socket creates its session and ends.
pub process_commands-create :
    (more : ℕ) (rand : ℕ → ℕ) (e : Env) (t : LocalThread) (w : World) (socket : Option ℕ)
    → Refine.IsValid t.command_queue
    → contents t.command_queue ≡ create_session_of socket ∷ []
    → (process_commands (suc (suc more)) rand e t w).1 ≡ (create_session e (popped t) w socket).2
unfolding take_first run_command
process_commands-create more rand e t w socket v same =
    let (taken, valid, _) = pop_refines t.command_queue v in
    let r = taken ∙ ap take_first same in
    let (_, t', w') = create_session e (popped t) w socket in
    let queue = create-queue e (popped t) w socket in
    let valid' = subst (λ q. Refine.IsValid q) (sym queue) valid in
    let r' =
      (pop_refines t'.command_queue valid').0
      ∙ ap take_first (ap contents queue ∙ ap (λ q. q.1) r) in
    ap (λ q. q.1)
      (round_goes_on (suc more) rand e t w (create_session_of socket) (ap (λ q. q.0) r) refl
        ∙ round_empty more rand e t' w' (ap (λ q. q.0) r'))

-- The queue of commands does not matter to the pool.
pub allocate-popped :
    (t : LocalThread) (queue : Queue.MpscQueue Command command_queue_capacity)
    → (allocate_session (popped (record t { command_queue = queue }))).0 ≡ (allocate_session t).0
unfolding allocate_session
allocate-popped t queue = ground arith
