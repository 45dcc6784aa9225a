-- ===== src/Queue/Renewal.antt =====
-- RenewLocks of lockrenewal.go.
use Prim.Native.String.{◌++◌ as ◌<>◌}
use azure_service_bus_go.Prelude.{
  ℕ, ◌≡◌, refl, inl, inr, ◌↔◌, ◌⊎◌, none, some, List, [], ◌∷◌, String, arith, true, if◌then◌else◌,
  Option-cases,
}
use mathlib.Core.Path.{subst}
use azure_service_bus_go.Amqp.{AmqpMessage}
use azure_service_bus_go.Amqp.Dynamic.{Bytes, str, uuids, dict, empty, field}
use azure_service_bus_go.Errors.{
  Exec, ok, err, got, renewing_locks, Response, from_answer, from_error, from_answer-eq-ok,
  from_error-eq-ok, >>=-eq-ok, ◌>>=◌,
}
use azure_service_bus_go.Namespace.{Namespace, Broker, new_connection, negotiate_claim}
use azure_service_bus_go.Message.{Message}
use azure_service_bus_go.Iterator.Page.{management_path}
use azure_service_bus_go.Rpc.{Rpc, is_success, is_success_iff, request}
use azure_service_bus_go.Prelude.Int.{pos}

-- The lock tokens of the messages that have one. The pointers in the slice are not nil.
unfoldable pub lock_tokens : List Message → List Bytes
lock_tokens [] = []
lock_tokens (m ∷ ms) =
    let rest = lock_tokens ms in elim m.lock_token [ none ↦ rest | some token ↦ token ∷ rest ]

unfoldable pub renew_request : List Bytes → AmqpMessage
renew_request tokens =
    request (("operation", str "com.microsoft:renew-lock") ∷ []) none
      (dict (field "lock-tokens" (uuids tokens) empty))

check_renewal : Response → Exec (Unit {0})
check_renewal rsp = if is_success rsp.code then ok tt else err (renewing_locks rsp.description)

renew_tokens : Rpc → Broker → Namespace → String → List Bytes → Exec (Unit {0})
unfolding renew_request check_renewal new_connection negotiate_claim
renew_tokens rpc broker ns name tokens = do
  connection ← from_answer (new_connection broker ns)
  _ ← from_error (negotiate_claim broker ns connection (management_path name))
  _ ← from_error (rpc.new_link (some connection) (management_path name))
  rsp ← rpc.retryable_rpc 3 (renew_request tokens)
  check_renewal rsp

-- No call is made without a token.
renew_some : Rpc → Broker → Namespace → String → List Bytes → Exec (Unit {0})
unfolding renew_tokens
renew_some rpc broker ns name [] = ok tt
renew_some rpc broker ns name (token ∷ tokens) = renew_tokens rpc broker ns name (token ∷ tokens)

-- The namespace and the name are those of the entity.
unfoldable pub renew_locks : Rpc → Broker → Namespace → String → List Message → Exec (Unit {0})
unfolding lock_tokens renew_some
renew_locks rpc broker ns name messages = renew_some rpc broker ns name (lock_tokens messages)

-- The tokens are those of the messages that have one, in the order of the messages.
pub data TokensOf : List Message → List Bytes → Type 0 where
  no_messages : TokensOf [] []
  without :
      {m : Message} {ms : List Message} {tokens : List Bytes}
      → m.lock_token ≡ none
      → TokensOf ms tokens
      → TokensOf (m ∷ ms) tokens
  having :
      {m : Message} {ms : List Message} {token : Bytes} {tokens : List Bytes}
      → m.lock_token ≡ some token
      → TokensOf ms tokens
      → TokensOf (m ∷ ms) (token ∷ tokens)

lock_tokens-TokensOf : (messages : List Message) → TokensOf messages (lock_tokens messages)
unfolding lock_tokens
lock_tokens-TokensOf [] = no_messages
lock_tokens-TokensOf (m ∷ ms) = elim (Option-cases m.lock_token) [
  | inl absent ↦
      let same : lock_tokens ms ≡ lock_tokens (m ∷ ms) = ground arith in
      subst (TokensOf (m ∷ ms)) same (without absent (lock_tokens-TokensOf ms))
  | inr (token, present) ↦
      let same : token ∷ lock_tokens ms ≡ lock_tokens (m ∷ ms) = ground arith in
      subst (TokensOf (m ∷ ms)) same (having present (lock_tokens-TokensOf ms))
]

-- What a renewal of the tokens needs: a connection with its claim, a link at name/$management, and
-- an answer with code 200 to the request to renew the locks of the tokens.
pub record Renewed (rpc : Rpc) (broker : Broker) (ns : Namespace) (name : String)
    (tokens : List Bytes) : Type 0 where
  pub connection : ℕ
  pub response : Response
  pub connected : new_connection broker ns ≡ got connection
  pub claimed : negotiate_claim broker ns connection (name <> "/$management") ≡ none
  pub linked : rpc.new_link (some connection) (name <> "/$management") ≡ none
  pub answered :
      rpc.retryable_rpc 3 (record {
        payload = [];
        value = dict (field "lock-tokens" (uuids tokens) empty);
        header = none;
        properties = none;
        application_properties = some (("operation", str "com.microsoft:renew-lock") ∷ []);
        annotations = none;
        delivery_annotations = none;
        delivery_tag = none;
      })
      ≡ ok response
  pub succeeded : response.code ≡ pos 200

renew_tokens-Renewed :
    (rpc : Rpc) (broker : Broker) (ns : Namespace) (name : String) (tokens : List Bytes)
    → Renewed rpc broker ns name tokens
    → renew_tokens rpc broker ns name tokens ≡ ok tt
unfolding renew_tokens check_renewal renew_request management_path
renew_tokens-Renewed rpc broker ns name tokens r =
    rw
      (r.connected, r.claimed, r.linked, r.answered, (is_success_iff r.response.code).1 r.succeeded)

check_renewal-eq-ok : (rsp : Response) → check_renewal rsp ≡ ok tt → is_success rsp.code ≡ true
unfolding check_renewal
check_renewal-eq-ok rsp h = ground arith

renew_tokens-eq-ok :
    (rpc : Rpc) (broker : Broker) (ns : Namespace) (name : String) (tokens : List Bytes)
    → renew_tokens rpc broker ns name tokens ≡ ok tt
    → Renewed rpc broker ns name tokens
unfolding renew_tokens renew_request management_path
renew_tokens-eq-ok rpc broker ns name tokens h =
    let (c, connected, h₁) = >>=-eq-ok (from_answer (new_connection broker ns)) _ h in
    let (_, claimed, h₂) =
      >>=-eq-ok (from_error (negotiate_claim broker ns c (management_path name))) _ h₁ in
    let (_, linked, h₃) =
      >>=-eq-ok (from_error (rpc.new_link (some c) (management_path name))) _ h₂ in
    let (rsp, answered, h₄) = >>=-eq-ok (rpc.retryable_rpc 3 (renew_request tokens)) _ h₃ in
    record {
      connection = c;
      response = rsp;
      connected = from_answer-eq-ok _ connected;
      claimed = from_error-eq-ok _ claimed;
      linked = from_error-eq-ok _ linked;
      answered = answered;
      succeeded = (is_success_iff rsp.code).0 (check_renewal-eq-ok rsp h₄);
    }

renew_some-eq-ok :
    (rpc : Rpc) (broker : Broker) (ns : Namespace) (name : String) (tokens : List Bytes)
    → (renew_some rpc broker ns name tokens ≡ ok tt)
      ↔ ((tokens ≡ []) ⊎ Renewed rpc broker ns name tokens)
unfolding renew_some
renew_some-eq-ok rpc broker ns name [] = (λ _. inl refl, λ _. refl)
renew_some-eq-ok rpc broker ns name (token ∷ tokens) = (
  λ h. inr (renew_tokens-eq-ok rpc broker ns name _ h),
  λ c. elim c [
    | inl none_left ↦ absurd (ground arith)
    | inr r ↦ renew_tokens-Renewed rpc broker ns name _ r
  ],
)

-- There are the tokens of the messages that have one, in the order of the messages, so that
-- RenewLocks returns no error exactly if there is none, or a connection, its claim and a link at
-- name/$management can be had and the message with the operation com.microsoft:renew-lock, which
-- holds those tokens under "lock-tokens", is answered with code 200.
pub renew_locks-eq-ok :
    (rpc : Rpc) (broker : Broker) (ns : Namespace) (name : String) (messages : List Message)
    → (tokens : List Bytes) × TokensOf messages tokens
      × ((renew_locks rpc broker ns name messages ≡ ok tt)
          ↔ ((tokens ≡ []) ⊎ Renewed rpc broker ns name tokens))
unfolding renew_locks
renew_locks-eq-ok rpc broker ns name messages = (
  lock_tokens messages,
  lock_tokens-TokensOf messages,
  renew_some-eq-ok rpc broker ns name (lock_tokens messages),
)
