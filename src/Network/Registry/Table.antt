-- ===== src/Network/Registry/Table.antt =====
-- `RegisterSession` and `UnregisterSession` of CSessionManager, and what `FindSession` finds after
-- them.
use mmorpg_server.Base.{
  refl, ℕ, arith, ◌≡◌, some, none, true, ◌<◌, ◌≤◌, false, suc, ◌≢◌, ◌+◌, Bool-cases, add64, ◌%◌,
  inl, Option-cases, inr, ◌-◌, subst, zero, update_self, ap, update-ne,
}
use mmorpg_server.Common.Types.{max_total_sessions}
use mmorpg_server.Network.World.{World, Registry}
use mmorpg_server.Network.Registry.{
  scan, free_slot, register_session, unregister_session, has_id, hash_session_id, find_session,
}
use mmorpg_server.Network.Registry.Lookup.{
  Registered, slot-some, slot-none, scan-some, scan-none, find_session_lem,
}

free_slot-some :
    (r : Registry) (start i count index : ℕ)
    → free_slot r start i count ≡ some index
    → (index < max_total_sessions) × (r.slot_used index ≡ false)
unfolding free_slot
free_slot-some r start i zero index e = cc e
free_slot-some r start i (suc count) index e =
    elim (Bool-cases (r.slot_used ((start + i) % max_total_sessions))) [
      | inl used ↦ free_slot-some r start (i + 1) count index (ground (arith, used, e))
      | inr vacant ↦ ground (arith, vacant, e)
    ]

free_slot-none :
    (r : Registry) (start i count k : ℕ)
    → free_slot r start i count ≡ none
    → i ≤ k
    → k < i + count
    → r.slot_used ((start + k) % max_total_sessions) ≡ true
unfolding free_slot
free_slot-none r start i zero k e low high = absurd (omega arith)
free_slot-none r start i (suc count) k e low high =
    elim (Bool-cases (r.slot_used ((start + i) % max_total_sessions))) [
      | inl used ↦ ground (arith, used, e, low, high, free_slot-none r start (i + 1) count k)
      | inr vacant ↦ absurd (ground (arith, vacant, e))
    ]

-- Registering a session puts it into a slot that was free, leaves the other slots alone and counts
-- one session more; it fails, and changes nothing, only when every slot is in use.
pub register_session_lem :
    (w : World) (p : ℕ)
    → let (done, w') = register_session w p in
      (done ≡ true
        → (i : ℕ) × (w.registry.slot_used i ≡ false)
          × Registered w' p i
          × ((k : ℕ)
              → i ≢ k
              → (w'.registry.slot_used k ≡ w.registry.slot_used k)
                × (w'.registry.session_table k ≡ w.registry.session_table k))
          × (w'.registry.active_count ≡ add64 w.registry.active_count 1))
      × (done ≡ false
          → (w' ≡ w) × ((i : ℕ) → i < max_total_sessions → w.registry.slot_used i ≡ true))
unfolding register_session
register_session_lem w p =
    let start = hash_session_id (w.sessions p).owner_session_id in
    elim (Option-cases (free_slot w.registry start 0 max_total_sessions)) [
      | inl full ↦
          rw (register_session, full)
            (
              λ h. cc h,
              λ h. (
                refl,
                λ i lt.
                    let k = (i + max_total_sessions - start) % max_total_sessions in
                    subst (λ j. w.registry.slot_used j ≡ true) (omega arith)
                      (free_slot-none w.registry start 0 max_total_sessions k full (omega arith)
                        (omega arith)),
              ),
            )
      | inr (i, free) ↦
          let (within, vacant) = free_slot-some w.registry start 0 max_total_sessions i free in
          rw (register_session, free)
            (
              λ h. (
                i,
                vacant,
                record {
                  within = within;
                  used = update_self w.registry.slot_used i true;
                  entry = update_self w.registry.session_table i (some p);
                },
                λ k other. (
                  update-ne w.registry.slot_used i k true other,
                  update-ne w.registry.session_table i k (some p) other,
                ),
                refl,
              ),
              λ h. cc h,
            )
    ]

register_session_keeps : (w : World) (p : ℕ) → (register_session w p).1.sessions ≡ w.sessions
unfolding register_session
register_session_keeps w p = ground arith

-- After a session has been registered with success, `FindSession` with its number finds a
-- session that has this number.
pub find_session-register_session :
    (w : World) (p : ℕ)
    → (register_session w p).0 ≡ true
    → let w' = (register_session w p).1 in
      let id = (w.sessions p).owner_session_id in
      (q : ℕ) × (find_session w' id ≡ some q) × ((w'.sessions q).owner_session_id ≡ id)
find_session-register_session w p done =
    let w' = (register_session w p).1 in
    let id = (w.sessions p).owner_session_id in
    let (i, _, registered, _, _) = (register_session_lem w p).0 done in
    let (found, unfound) = find_session_lem w' id in
    elim (Option-cases (find_session w' id)) [
      | inl missed ↦ absurd (
          unfound missed p i registered
            (ap (λ sessions. (sessions p).owner_session_id) (register_session_keeps w p)))
      | inr (q, hit) ↦ (q, hit, (found q hit).1)
    ]

-- No two registered sessions have the same number.
abbrev pub HasUniqueIds : World → Type 0
HasUniqueIds w =
    (i j p q : ℕ)
    → Registered w p i
    → Registered w q j
    → (w.sessions p).owner_session_id ≡ (w.sessions q).owner_session_id
    → i ≡ j

unregister_session-Registered :
    (w : World) (id q j : ℕ)
    → HasUniqueIds w
    → Registered (unregister_session w id) q j
    → ((unregister_session w id).sessions q).owner_session_id ≢ id
unfolding unregister_session
unregister_session-Registered w id q j unique stays =
    elim (Option-cases (scan w (has_id id) 0 max_total_sessions)) [
      | inl missed ↦
          let same : unregister_session w id ≡ w = ground (arith, missed) in
          let before = subst (λ v. Registered v q j) same stays in
          let empty =
            scan-none w (has_id id) 0 max_total_sessions missed j (omega arith)
              (omega (arith, before.within)) in
          let other = slot-none w (has_id id) j q empty before.used before.entry in
          rw same (λ e. ground (arith, other, e))
      | inr ((i, p), hit) ↦
          let (_, within, here, _) = scan-some w (has_id id) 0 max_total_sessions i p hit in
          let (used, entry, is_id) = slot-some w (has_id id) i p here in
          let registered : Registered w p i = record {
            within = omega (arith, within);
            used = used;
            entry = entry;
          } in
          let other : i ≢ j = λ e. ground (arith, hit, stays.used, e) in
          let before : Registered w q j = record {
            within = stays.within;
            used = ground (arith, hit, stays.used, other);
            entry = ground (arith, hit, stays.entry, other);
          } in
          rw (unregister_session, hit)
            (λ e. other (unique i j p q registered before (ground (arith, is_id, e))))
    ]

-- When session numbers are unique, a number that has been unregistered is not found any more.
pub find_session-unregister_session :
    (w : World) (id : ℕ) → HasUniqueIds w → find_session (unregister_session w id) id ≡ none
unfolding unregister_session
find_session-unregister_session w id unique =
    elim (Option-cases (find_session (unregister_session w id) id)) [
      | inl missed ↦ missed
      | inr (q, hit) ↦
          let ((j, stays), same_q) = (find_session_lem (unregister_session w id) id).0 q hit in
          absurd (unregister_session-Registered w id q j unique stays same_q)
    ]
