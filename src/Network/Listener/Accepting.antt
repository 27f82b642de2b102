-- ===== src/Network/Listener/Accepting.antt =====
-- What CListener does with the connections that asio accepts, of whatever program stands behind it.
use mmorpg_server.Base.{
  [], refl, ℕ, arith, List, Option, ◌+◌, suc, ◌∷◌, ◌≡◌, true, length, ◌<◌, ◌^◌, ap₂, ◌-◌, add64,
  ◌∙◌, ◌≤◌,
}
use mmorpg_server.Network.Listener.{
  SocketPool, Listener, AcceptResult, accepted, operation_aborted, accept_error, do_accept,
  hand_over, accept_in, on_accept, on_accepts,
}

-- The sockets of the connections that were accepted, and the number of errors
abbrev pub connections : List AcceptResult → List ℕ
connections [] = []
connections (accepted socket ∷ results) = socket ∷ connections results
connections (operation_aborted ∷ results) = connections results
connections (accept_error ∷ results) = connections results

abbrev pub errors : List AcceptResult → ℕ
errors [] = 0
errors (accepted socket ∷ results) = errors results
errors (operation_aborted ∷ results) = errors results
errors (accept_error ∷ results) = suc (errors results)

fits :
    (result : AcceptResult) → (length (connections (result ∷ [])) ≤ 1) × (errors (result ∷ []) ≤ 1)
fits operation_aborted = (omega arith, omega arith)
fits (accepted socket) = (omega arith, omega arith)
fits accept_error = (omega arith, omega arith)

module _ {S : Type 0} where
  -- Each socket is created and handed over, one after the other.
  abbrev pub serve : SocketPool S → Option (S → ℕ → S) → S → List ℕ → S
  serve pool callback s [] = s
  serve pool callback s (socket ∷ sockets) =
      serve pool callback (hand_over pool callback (pool.create_socket s socket) socket) sockets

  -- The listener with `m` more accepts and `n` more rejects counted
  abbrev pub counted : Listener S → ℕ → ℕ → Listener S
  counted l m n = record l { accept_count = l.accept_count + m; reject_count = l.reject_count + n }

  -- What is counted and served of one result and then of others
  abbrev pub outcome : SocketPool S → List AcceptResult → Listener S → S → Listener S × S
  outcome pool results l s = (
    counted l (length (connections results)) (errors results),
    serve pool l.callback s (connections results),
  )

  -- One accept, while one is pending
  accept_step :
      (pool : SocketPool S) (result : AcceptResult) (l : Listener S) (s : S)
      → l.is_running ≡ true
      → l.pending_accepts ≡ 1
      → l.accept_count + 1 < 2 ^ 64
      → l.reject_count + 1 < 2 ^ 64
      → on_accept pool result l s ≡ outcome pool (result ∷ []) l s
  unfolding on_accept accept_in do_accept
  accept_step pool operation_aborted l s on one small small' =
      let e : l.pending_accepts - 1 + 1 ≡ l.pending_accepts = omega arith in
      let same : l.accept_count + 0 ≡ l.accept_count = omega arith in
      let same' : l.reject_count + 0 ≡ l.reject_count = omega arith in rw (on, e, same, same') refl
  accept_step pool (accepted socket) l s on one small small' =
      let e : l.pending_accepts - 1 + 1 ≡ l.pending_accepts = omega arith in
      let next : add64 l.accept_count 1 ≡ l.accept_count + 1 = omega arith in
      let same : l.reject_count + 0 ≡ l.reject_count = omega arith in rw (on, e, next, same) refl
  accept_step pool accept_error l s on one small small' =
      let e : l.pending_accepts - 1 + 1 ≡ l.pending_accepts = omega arith in
      let next : add64 l.reject_count 1 ≡ l.reject_count + 1 = omega arith in
      let same : l.accept_count + 0 ≡ l.accept_count = omega arith in rw (on, e, next, same) refl

  counted_add :
      (pool : SocketPool S) (result : AcceptResult) (results : List AcceptResult) (l : Listener S)
      (s : S)
      → outcome pool results (outcome pool (result ∷ []) l s).0 (outcome pool (result ∷ []) l s).1
        ≡ outcome pool (result ∷ results) l s
  counted_add pool operation_aborted results l s =
      ap₂
        (λ m n. (
          record l { accept_count = m; reject_count = n },
          serve pool l.callback (outcome pool (operation_aborted ∷ []) l s).1 (connections results),
        ))
        (omega arith) (omega arith)
  counted_add pool (accepted socket) results l s =
      ap₂
        (λ m n. (
          record l { accept_count = m; reject_count = n },
          serve pool l.callback (outcome pool (accepted socket ∷ []) l s).1 (connections results),
        ))
        (omega arith) (omega arith)
  counted_add pool accept_error results l s =
      ap₂
        (λ m n. (
          record l { accept_count = m; reject_count = n },
          serve pool l.callback (outcome pool (accept_error ∷ []) l s).1 (connections results),
        ))
        (omega arith) (omega arith)

  -- For any results of the accepts of a running listener with one accept pending, the counters
  -- not wrapping, each connection becomes one socket that is handed over once, in order (to the
  -- callback, or to its destruction), accepts and errors are counted, and the listener still
  -- runs with one accept pending.
  pub on_accepts_lem :
      (pool : SocketPool S) (results : List AcceptResult) (l : Listener S) (s : S)
      → l.is_running ≡ true
      → l.pending_accepts ≡ 1
      → l.accept_count + length results < 2 ^ 64
      → l.reject_count + length results < 2 ^ 64
      → on_accepts pool results l s ≡ outcome pool results l s
  unfolding on_accepts
  on_accepts_lem pool [] l s on one small small' =
      ap₂ (λ m n. (record l { accept_count = m; reject_count = n }, s)) (omega arith) (omega arith)
  on_accepts_lem pool (result ∷ results) l s on one small small' =
      let (one_at_most, one_error) = fits result in
      rw (accept_step pool result l s on one (omega arith) (omega arith)) (
        on_accepts_lem pool results _ _ on one (omega (arith, one_at_most))
          (omega (arith, one_error))
        ∙ counted_add pool result results l s)
