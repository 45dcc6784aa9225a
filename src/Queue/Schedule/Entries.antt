-- ===== src/Queue/Schedule/Entries.antt =====
-- The entries that ScheduleAt of queue.go makes of its messages.
use azure_service_bus_go.Prelude.{
  ℕ, suc, ◌≡◌, ◌≢◌, ◌⊎◌, inl, inr, refl, ap, sym, ◌∙◌, Option, none, some, List, [], ◌∷◌, String,
  arith, Bool-cases, str_eq, eq_iff,
}
use mathlib.Core.Path.{subst, ap₂}
use azure_service_bus_go.Amqp.{AmqpMessage}
use azure_service_bus_go.Amqp.Dynamic.{Value, Bytes, Time, Items, dict, end, item}
use azure_service_bus_go.Errors.{
  Error, Exec, ok, err, panic, blocked, Answer, Answer-cases, got, deref, ◌>>=◌, >>=-eq-ok,
}
use azure_service_bus_go.Message.{Message, SystemProperties}
use azure_service_bus_go.Message.Properties.{schedule_at as schedule_message}
use azure_service_bus_go.Message.ToAmqp.{to_msg}
use azure_service_bus_go.Sender.Send.{assign_id}
use azure_service_bus_go.Queue.Schedule.{
  individual_message, encode, encode_named, schedule_one, proceed, transform,
}
use azure_service_bus_go.Queue.Schedule.Entry.{
  properties_of, timed, IsEntry, Scheduled, nothing_left, scheduled, entry_of, entry_of-Holds,
}

assign_id-eq-none :
    (new_uuid : Answer String) (m : Message)
    → (assign_id new_uuid m).1 ≡ none
    → (id : String) × (((m.id ≢ "") × (id ≡ m.id)) ⊎ ((m.id ≡ "") × (new_uuid ≡ got id)))
      × ((assign_id new_uuid m).0 ≡ record m { id = id })
unfolding assign_id
assign_id-eq-none new_uuid m h = elim (Bool-cases (str_eq m.id "")) [
  | inr named ↦ (m.id, inl (λ e. (let same = (eq_iff m.id "").1 e in cc), refl), ground arith)
  | inl unnamed ↦ elim (Answer-cases new_uuid) [
    | inl (e, failed) ↦ absurd (ground arith)
    | inr (id, made) ↦ (id, inr ((eq_iff m.id "").0 unnamed, made), ground arith)
  ]
]

pub deref-eq-ok : {A : Type 0} (o : Option A) {a : A} → deref o ≡ ok a → o ≡ some a
deref-eq-ok o h = ground arith

module _ (new_amqp_message : Bytes → AmqpMessage) (marshal_binary : AmqpMessage → Exec Bytes) where
  to_msg-kept :
      (m : Message)
      → ((to_msg new_amqp_message m).0.system_properties ≡ m.system_properties)
        × ((to_msg new_amqp_message m).0.id ≡ m.id)
        × ((to_msg new_amqp_message m).0.group_id ≡ m.group_id)
  unfolding to_msg
  to_msg-kept m = (ground arith, ground arith, ground arith)

  encode-eq-ok :
      (m : Message) (raw : Exec AmqpMessage) (p : SystemProperties) (v : Value)
      → m.system_properties ≡ some p
      → (encode new_amqp_message marshal_binary (m, raw)).1 ≡ ok v
      → (amqp : AmqpMessage) × (b : Bytes) × (raw ≡ ok amqp)
        × (marshal_binary amqp ≡ ok b)
        × (v ≡ dict (entry_of m.id b m.group_id p.partition_key p.via_partition_key))
  unfolding encode individual_message
  encode-eq-ok m raw p v has h =
      let (b, read, found) = >>=-eq-ok (raw >>= marshal_binary) _ h in
      let (amqp, is_raw, marshalled) = >>=-eq-ok raw marshal_binary read in
      (amqp, b, is_raw, marshalled, ground arith)

  encode-to_msg :
      (m : Message) (p : SystemProperties) (v : Value)
      → m.system_properties ≡ some p
      → let left = encode new_amqp_message marshal_binary (to_msg new_amqp_message m) in
        left.1 ≡ ok v
        → (amqp : AmqpMessage) × (b : Bytes) × (to_msg new_amqp_message m ≡ (left.0, ok amqp))
          × (marshal_binary amqp ≡ ok b)
          × (v ≡ dict (entry_of m.id b m.group_id p.partition_key p.via_partition_key))
  unfolding encode
  encode-to_msg m p v has h =
      let (left, raw) = to_msg new_amqp_message m in
      let (same_properties, same_id, same_group) = to_msg-kept m in
      let (amqp, b, is_raw, marshalled, is) = encode-eq-ok left raw p v (same_properties ∙ has) h in
      (
        amqp,
        b,
        ap (λ r. (left, r)) is_raw,
        marshalled,
        is
            ∙ ap₂ (λ id g. dict (entry_of id b g p.partition_key p.via_partition_key)) same_id
                same_group,
      )

  encode_named-eq-none :
      (one : Message × Option Error) (v : Value)
      → (encode_named new_amqp_message marshal_binary one).1 ≡ ok v
      → (one.1 ≡ none)
        × (encode_named new_amqp_message marshal_binary one
            ≡ encode new_amqp_message marshal_binary (to_msg new_amqp_message one.0))
  unfolding encode_named
  encode_named-eq-none (m, none) v h = (refl, refl)
  encode_named-eq-none (m, some e) v h = cc

  schedule_one-IsEntry :
      (t : Time) (new_uuid : Answer String) (m : Message) (v : Value)
      → (schedule_one new_amqp_message marshal_binary t new_uuid m).1 ≡ ok v
      → IsEntry new_amqp_message marshal_binary t new_uuid m
          (schedule_one new_amqp_message marshal_binary t new_uuid m).0
          v
  unfolding schedule_one schedule_message
  schedule_one-IsEntry t new_uuid m v h =
      let one = assign_id new_uuid (schedule_message m t) in
      let (fine, is_encoded) = encode_named-eq-none one v h in
      let (id, identified, is_named) = assign_id-eq-none new_uuid (schedule_message m t) fine in
      let sent : encode_named new_amqp_message marshal_binary one
          ≡ encode new_amqp_message marshal_binary (to_msg new_amqp_message (timed t id m)) =
        is_encoded
        ∙ ap (λ s. encode new_amqp_message marshal_binary (to_msg new_amqp_message s)) is_named in
      let (amqp, b, converted, marshalled, is) =
        encode-to_msg (timed t id m) _ v refl (ap (λ s. s.1) (sym sent) ∙ h) in
      record {
        id = id;
        amqp = amqp;
        encoded = b;
        entry =
            entry_of id b m.group_id (properties_of m).partition_key
              (properties_of m).via_partition_key;
        identified = identified;
        converted = converted ∙ ap (λ s. (s.0, ok amqp)) (sym sent);
        marshalled = marshalled;
        is_map = is;
        holds = entry_of-Holds _ _ _ _ _;
      }

  proceed-Scheduled :
      (t : Time) (new_uuid : ℕ → Answer String) (n : ℕ) (m : Message) (ms : List Message)
      (one : Message × Exec Value) (rest : List Message × Exec Items) (entries : Items)
      → ((v : Value)
          → one.1 ≡ ok v
          → IsEntry new_amqp_message marshal_binary t (new_uuid n) m one.0 v)
      → ((vs : Items)
          → rest.1 ≡ ok vs
          → Scheduled new_amqp_message marshal_binary t new_uuid (suc n) ms rest.0 vs)
      → (proceed new_amqp_message marshal_binary ms one rest).1 ≡ ok entries
      → Scheduled new_amqp_message marshal_binary t new_uuid n
          (m ∷ ms)
          (proceed new_amqp_message marshal_binary ms one rest).0
          entries
  unfolding proceed
  proceed-Scheduled t new_uuid n m ms (left, ok v) (rest, vs) entries first others h =
      let (transformed, went, all) = >>=-eq-ok vs _ h in
      let same : item v transformed ≡ entries = ground arith in
      subst (Scheduled new_amqp_message marshal_binary t new_uuid n (m ∷ ms) (left ∷ rest)) same
        (scheduled (first v refl) (others transformed went))
  proceed-Scheduled t new_uuid n m ms (left, err e) rest entries first others h = cc
  proceed-Scheduled t new_uuid n m ms (left, panic x) rest entries first others h = cc
  proceed-Scheduled t new_uuid n m ms (left, blocked) rest entries first others h = cc

  -- If the loop of ScheduleAt goes through all its messages, there is an entry for each, in order.
  -- The message keeps its identifier, or has the new one if it had none. The entry is a map that
  -- holds the identifier, the bytes that MarshalBinary makes of the conversion of the message with
  -- that identifier and the given time of delivery, in UTC, and under "session-id",
  -- "partition-key" and "via-partition-key" the message's group and keys, where it has them. The
  -- message is left as the conversion leaves it.
  pub transform-Scheduled :
      (t : Time) (new_uuid : ℕ → Answer String) (n : ℕ) (ms : List Message) (entries : Items)
      → (transform new_amqp_message marshal_binary t new_uuid n ms).1 ≡ ok entries
      → Scheduled new_amqp_message marshal_binary t new_uuid n ms
          (transform new_amqp_message marshal_binary t new_uuid n ms).0
          entries
  unfolding transform
  transform-Scheduled t new_uuid n [] entries h =
      let same : end ≡ entries = ground arith in
      subst (Scheduled new_amqp_message marshal_binary t new_uuid n [] []) same nothing_left
  transform-Scheduled t new_uuid n (m ∷ ms) entries h =
      proceed-Scheduled t new_uuid n m ms _ _ entries (schedule_one-IsEntry t (new_uuid n) m)
        (transform-Scheduled t new_uuid (suc n) ms) h
