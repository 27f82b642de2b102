-- ===== src/Network/Registry/Lookup.antt =====
-- The searches of CSessionManager: what they find, and what registering and unregistering change.
use mmorpg_server.Base.{
  ℕ, arith, ◌<◌, Bool, ◌≡◌, true, some, none, false, ◌≤◌, ◌+◌, suc, Option-cases, inl, inr, zero,
  Option, ◌≢◌,
}
use mmorpg_server.Common.Types.{max_total_sessions}
use mmorpg_server.Network.World.{Session, World}
use mmorpg_server.Network.Registry.{slot, scan, has_id, hash_session_id, find_session}

-- A session stands in a slot that is in use.
pub record Registered (w : World) (p i : ℕ) : Type 0 where
  pub within : i < max_total_sessions
  pub used : w.registry.slot_used i ≡ true
  pub entry : w.registry.session_table i ≡ some p

-- What `slot` says
pub slot-some :
    (w : World) (test : Session → Bool) (i p : ℕ)
    → slot w test i ≡ some p
    → (w.registry.slot_used i ≡ true)
      × (w.registry.session_table i ≡ some p)
      × (test (w.sessions p) ≡ true)
unfolding slot
slot-some w test i p e = ground arith

pub slot-none :
    (w : World) (test : Session → Bool) (i p : ℕ)
    → slot w test i ≡ none
    → w.registry.slot_used i ≡ true
    → w.registry.session_table i ≡ some p
    → test (w.sessions p) ≡ false
unfolding slot
slot-none w test i p e used entry = ground arith

-- A scan finds the first slot that passes, or there is none.
pub scan-some :
    (w : World) (test : Session → Bool) (i count j p : ℕ)
    → scan w test i count ≡ some (j, p)
    → (i ≤ j)
      × (j < i + count)
      × (slot w test j ≡ some p)
      × ((k : ℕ) → i ≤ k → k < j → slot w test k ≡ none)
unfolding scan
scan-some w test i zero j p e = cc e
scan-some w test i (suc count) j p e = elim (Option-cases (slot w test i)) [
  | inl empty ↦
      let (low, high, found, before) =
        scan-some w test (i + 1) count j p (ground (arith, empty, e)) in
      (omega (arith, low), omega (arith, high), found, λ k le lt. ground (arith, before k, empty))
  | inr (q, full) ↦
      let same : ◌≡◌ {A = Option (ℕ × ℕ)} (some (i, q)) (some (j, p)) = ground (arith, full, e) in
      ground (arith, same, full)
]

pub scan-none :
    (w : World) (test : Session → Bool) (i count : ℕ)
    → scan w test i count ≡ none
    → (k : ℕ) → i ≤ k
    → k < i + count
    → slot w test k ≡ none
unfolding scan
scan-none w test i zero e k le lt = absurd (omega (arith, le, lt))
scan-none w test i (suc count) e k le lt = elim (Option-cases (slot w test i)) [
  | inl empty ↦
      let before = scan-none w test (i + 1) count (ground (arith, empty, e)) k in
      ground (arith, before, empty)
  | inr (q, full) ↦ absurd (ground (arith, full, e))
]

-- `FindSession` finds only a registered session with the number it is asked for, and fails only
-- when no registered session has it.
pub find_session_lem :
    (w : World) (id : ℕ)
    → ((p : ℕ)
        → find_session w id ≡ some p
        → ((i : ℕ) × Registered w p i) × ((w.sessions p).owner_session_id ≡ id))
      × (find_session w id ≡ none
          → (p i : ℕ) → Registered w p i
          → (w.sessions p).owner_session_id ≢ id)
unfolding find_session
find_session_lem w id = (found, unfound)
  where
    found :
        (p : ℕ)
        → find_session w id ≡ some p
        → ((i : ℕ) × Registered w p i) × ((w.sessions p).owner_session_id ≡ id)
    found p e = elim (Option-cases (slot w (has_id id) (hash_session_id id))) [
      | inr (q, hit) ↦
          let same : q ≡ p = ground (arith, hit, e) in
          let (used, entry, fits) = slot-some w (has_id id) (hash_session_id id) q hit in
          rw (← same) (
            (hash_session_id id, record { within = omega arith; used = used; entry = entry }),
            ground (arith, fits),
          )
      | inl miss ↦ elim (Option-cases (scan w (has_id id) 0 max_total_sessions)) [
        | inl none_left ↦ absurd (ground (arith, miss, none_left, e))
        | inr ((j, q), hit) ↦
            let same : q ≡ p = ground (arith, hit, miss, e) in
            let (_, within, here, _) = scan-some w (has_id id) 0 max_total_sessions j q hit in
            let (used, entry, fits) = slot-some w (has_id id) j q here in
            rw (← same) (
              (j, record { within = omega (arith, within); used = used; entry = entry }),
              ground (arith, fits),
            )
      ]
    ]

    unfound :
        find_session w id ≡ none
        → (p i : ℕ) → Registered w p i
        → (w.sessions p).owner_session_id ≢ id
    unfound e p i r = elim (Option-cases (scan w (has_id id) 0 max_total_sessions)) [
      | inl none_left ↦
          let empty =
            scan-none w (has_id id) 0 max_total_sessions none_left i (omega arith)
              (omega (arith, r.within)) in
          let fails = slot-none w (has_id id) i p empty r.used r.entry in
          λ same. ground (arith, fails, same)
      | inr ((j, q), hit) ↦ absurd (ground (arith, hit, e))
    ]
