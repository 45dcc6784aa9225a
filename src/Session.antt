-- ===== src/Session.antt =====
-- session.go. The amqp session is kept as a number that names it.
use azure_service_bus_go.Prelude.{ℕ, zero, suc, ◌+◌, ◌%◌, ◌^◌, ◌<◌, ◌≡◌, ◌≢◌, String, arith}
use azure_service_bus_go.Errors.{Answer, got, failed}

pub record Session : Type 0 where
  pub amqp_session : ℕ
  pub session_id : String
  pub counter : ℕ

-- The second argument is what uuid.NewV4 returns, as a string.
unfoldable pub new_session : ℕ → Answer String → Answer Session
new_session amqp_session (failed e) = failed e
new_session amqp_session (got id) =
    got (record { amqp_session = amqp_session; session_id = id; counter = 0 })

-- atomic.AddUint32: one step, which wraps at 32 bits and returns the new value.
unfoldable pub get_next : Session → Session × ℕ
get_next s = let n = (s.counter + 1) % 2 ^ 32 in (record s { counter = n }, n)

-- The session after `k` calls of getNext, by whichever goroutines.
abbrev pub after : ℕ → Session → Session
after zero s = s
after (suc k) s = (get_next (after k s)).0

after_lem :
    (k : ℕ) (s : Session)
    → s.counter < 2 ^ 32
    → after k s ≡ record s { counter = (s.counter + k) % 2 ^ 32 }
unfolding get_next
after_lem zero s h = ground arith
after_lem (suc k) s h = rw (after_lem k s h) (ground arith)

-- Any two calls of getNext on a session return different numbers if fewer than 2 ^ 32 calls lie
-- from the one to the other.
pub get_next-ne :
    (s : Session) (j k : ℕ)
    → s.counter < 2 ^ 32
    → j < k
    → k < j + 2 ^ 32
    → (get_next (after j s)).1 ≢ (get_next (after k s)).1
unfolding get_next
get_next-ne s j k h lt near = rw (after_lem j s h, after_lem k s h) (omega arith)
