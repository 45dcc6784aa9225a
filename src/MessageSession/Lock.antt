-- ===== src/MessageSession/Lock.antt =====
-- RenewLock of message_session.go.
use azure_service_bus_go.Prelude.{◌≡◌, refl, ◌⊎◌, Option, some, arith}
use azure_service_bus_go.Prelude.Int.{ℤ}
use azure_service_bus_go.Amqp.Dynamic.{Fields, Value, dict, time, get_field}
use azure_service_bus_go.Errors.{ok, err, panic, blocked, Response, Exec, Error, >>=-eq-ok}
use azure_service_bus_go.Rpc.{Rpc}
use azure_service_bus_go.MessageSession.{
  MessageSession, open_rpc, renew_lock, renew_lock_request, take_expiration, renewed, locked_until,
  zero_time,
}

take_expiration-eq-ok :
    (ms : MessageSession) (v : Value)
    → (take_expiration ms v).1 ≡ ok tt
    → (m : Fields) × (v ≡ dict m)
      × (get_field "expiration" m ≡ some (time (take_expiration ms v).0.lock_expiration))
unfolding take_expiration
take_expiration-eq-ok ms (dict m) h = (m, refl, ground arith)
take_expiration-eq-ok ms v h = cc

renewed-eq-ok :
    (ms : MessageSession) (m : Exec Response)
    → (renewed ms m).1 ≡ ok tt
    → (rsp : Response) × (v : Fields) × (m ≡ ok rsp)
      × (rsp.value ≡ dict v)
      × (get_field "expiration" v ≡ some (time (renewed ms m).0.lock_expiration))
unfolding renewed
renewed-eq-ok ms (ok rsp) h =
    let (v, is_dict, found) = take_expiration-eq-ok ms rsp.value h in (rsp, v, refl, is_dict, found)
renewed-eq-ok ms (err e) h = cc
renewed-eq-ok ms (panic x) h = cc
renewed-eq-ok ms blocked h = cc

-- If RenewLock returns no error, then the link was opened and the answer to its request, of
-- whatever response code, is a map with a time under "expiration", which LockedUntil then gives.
pub renew_lock-eq-ok :
    (rpc : Rpc) (deadline : Option ℤ) (ms : MessageSession)
    → (renew_lock rpc deadline ms).1 ≡ ok tt
    → (rsp : Response) × (v : Fields) × (open_rpc rpc ms ≡ ok tt)
      × (rpc.retryable_rpc 5 (renew_lock_request deadline ms) ≡ ok rsp)
      × (rsp.value ≡ dict v)
      × (get_field "expiration" v ≡ some (time (locked_until (renew_lock rpc deadline ms).0)))
unfolding renew_lock locked_until
renew_lock-eq-ok rpc deadline ms h =
    let (rsp, v, done, is_dict, found) = renewed-eq-ok ms _ h in
    let (_, opened, answered) = >>=-eq-ok (open_rpc rpc ms) _ done in
    (rsp, v, opened, answered, is_dict, found)

-- A RenewLock that returns an error leaves the session as it was, or with the zero time as the end
-- of its lock.
pub renew_lock-eq-err :
    (rpc : Rpc) (deadline : Option ℤ) (ms : MessageSession) (e : Error)
    → (renew_lock rpc deadline ms).1 ≡ err e
    → ((renew_lock rpc deadline ms).0 ≡ ms)
      ⊎ ((renew_lock rpc deadline ms).0 ≡ record ms { lock_expiration = zero_time })
unfolding renew_lock renewed take_expiration
renew_lock-eq-err rpc deadline ms e h = ground arith
