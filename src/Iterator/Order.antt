-- ===== src/Iterator/Order.antt =====
-- The order of a page (iterator.go): what sort.Slice leaves, and what the sends keep.
use mathlib.Core.List.{Perm, append-nil, append_assoc}
use mathlib.Core.List.Perm
use azure_service_bus_go.Prelude.{
  ℕ, suc, ◌≤◌, ◌≡◌, true, some, List, [], ◌∷◌, ◌++◌, length, ltb, arith, Bool-cases, inl, inr,
  length-append,
}
use azure_service_bus_go.Prelude.Int.{ℤ, ◌≤ℤ◌, ltb_ℤ}
use azure_service_bus_go.Errors.{ok, >>=-eq-ok}
use azure_service_bus_go.Message.{Message}
use azure_service_bus_go.Iterator.Options.{Channel}
use azure_service_bus_go.Iterator.Page.{
  Context, sequence_key, check_sequences, insert_sorted, sort_slice, sort_by_sequence, last?,
  send_all,
}

-- No sequence number is above `n`.
abbrev pub AllUpTo : ℤ → List Message → Type 0
AllUpTo n [] = Unit
AllUpTo n (m ∷ ms) = (sequence_key m ≤ℤ n) × AllUpTo n ms

-- No sequence number is below `n`.
abbrev pub AllFrom : ℤ → List Message → Type 0
AllFrom n [] = Unit
AllFrom n (m ∷ ms) = (n ≤ℤ sequence_key m) × AllFrom n ms

-- The sequence numbers do not fall.
abbrev pub Ascending : List Message → Type 0
Ascending [] = Unit
Ascending (m ∷ ms) = AllFrom (sequence_key m) ms × Ascending ms

pub AllFrom-mono : (a b : ℤ) (ms : List Message) → a ≤ℤ b → AllFrom b ms → AllFrom a ms
AllFrom-mono a b [] h all = tt
AllFrom-mono a b (m ∷ ms) h (p, all) = (omega arith, AllFrom-mono a b ms h all)

insert_sorted-AllFrom :
    (n : ℤ) (m : Message) (ms : List Message)
    → n ≤ℤ sequence_key m
    → AllFrom n ms
    → AllFrom n (insert_sorted m ms)
unfolding insert_sorted
insert_sorted-AllFrom n m [] h all = (h, tt)
insert_sorted-AllFrom n m (x ∷ xs) h (p, all) =
    elim (Bool-cases (ltb_ℤ (sequence_key x) (sequence_key m))) [
      | inl less ↦ rw less (p, insert_sorted-AllFrom n m xs h all)
      | inr more ↦ rw more (h, (p, all))
    ]

insert_sorted-Ascending :
    (m : Message) (ms : List Message) → Ascending ms → Ascending (insert_sorted m ms)
unfolding insert_sorted
insert_sorted-Ascending m [] h = (tt, tt)
insert_sorted-Ascending m (x ∷ xs) (from, h) =
    elim (Bool-cases (ltb_ℤ (sequence_key x) (sequence_key m))) [
      | inl less ↦ rw less (
        insert_sorted-AllFrom (sequence_key x) m xs (ground arith) from,
        insert_sorted-Ascending m xs h,
      )
      | inr more ↦
          let le : sequence_key m ≤ℤ sequence_key x = ground arith in
          rw more ((le, AllFrom-mono (sequence_key m) (sequence_key x) xs le from), (from, h))
    ]

insert_sorted-perm : (m : Message) (ms : List Message) → Perm (insert_sorted m ms) (m ∷ ms)
unfolding insert_sorted
insert_sorted-perm m [] = Perm.refl (m ∷ [])
insert_sorted-perm m (x ∷ xs) = elim (Bool-cases (ltb_ℤ (sequence_key x) (sequence_key m))) [
  | inl less ↦ rw less (Perm.trans (Perm.cons x (insert_sorted-perm m xs)) (Perm.swap m x xs))
  | inr more ↦ rw more (Perm.refl (m ∷ x ∷ xs))
]

sort_slice-Ascending : (ms : List Message) → Ascending (sort_slice ms)
unfolding sort_slice
sort_slice-Ascending [] = tt
sort_slice-Ascending (m ∷ ms) = insert_sorted-Ascending m (sort_slice ms) (sort_slice-Ascending ms)

sort_slice-perm : (ms : List Message) → Perm (sort_slice ms) ms
unfolding sort_slice
sort_slice-perm [] = Perm.refl []
sort_slice-perm (m ∷ ms) =
    Perm.trans (insert_sorted-perm m (sort_slice ms)) (Perm.cons m (sort_slice-perm ms))

pub sort_by_sequence-Ascending :
    (ms ms' : List Message) → sort_by_sequence ms ≡ ok ms' → Ascending ms' × Perm ms' ms
unfolding sort_by_sequence
sort_by_sequence-Ascending [] ms' h = let e : [] ≡ ms' = cc in rw (← e) (tt, Perm.refl [])
sort_by_sequence-Ascending (m ∷ []) ms' h =
    let e : m ∷ [] ≡ ms' = cc in rw (← e) ((tt, tt), Perm.refl (m ∷ []))
sort_by_sequence-Ascending (m ∷ x ∷ ms) ms' h =
    let big : ltb 1 (length (m ∷ x ∷ ms)) ≡ true = ground arith in
    let (_, _, sorted) =
      >>=-eq-ok (check_sequences (m ∷ x ∷ ms)) (λ _. ok (sort_slice (m ∷ x ∷ ms))) (rw big at h) in
    let e : sort_slice (m ∷ x ∷ ms) ≡ ms' = cc in
    rw (← e) (sort_slice-Ascending (m ∷ x ∷ ms), sort_slice-perm (m ∷ x ∷ ms))

-- In an ascending list the last number is the greatest.
pub Ascending-last? :
    (ms : List Message) (m : Message)
    → Ascending ms
    → last? ms ≡ some m
    → AllUpTo (sequence_key m) ms
Ascending-last? [] m h e = tt
Ascending-last? (x ∷ []) m h e = let p : x ≡ m = cc in rw p (omega arith, tt)
Ascending-last? (x ∷ y ∷ ms) m (from, h) e =
    let rest = Ascending-last? (y ∷ ms) m h e in (omega arith, rest)

-- If the sends of a page all succeed, the channel holds what it held, then the page, in order.
pub send_all-eq-ok :
    (ctx : Context) (sent : ℕ) (buffer buffer' : Channel Message) (ms : List Message)
    → send_all ctx sent buffer ms ≡ (buffer', ok tt)
    → buffer' ≡ record buffer { queue = buffer.queue ++ ms }
unfolding send_all
send_all-eq-ok ctx sent buffer buffer' [] h = ground (arith, append-nil buffer.queue)
send_all-eq-ok ctx sent buffer buffer' (m ∷ ms) h =
    let buffer₁ : Channel Message = record buffer { queue = buffer.queue ++ (m ∷ []) } in
    ground (
      arith,
      send_all-eq-ok ctx (suc sent) buffer₁ buffer' ms,
      append_assoc buffer.queue (m ∷ []) ms,
    )

-- The sends never fill a channel beyond its capacity, whatever their outcome.
pub send_all-capacity :
    (ctx : Context) (sent : ℕ) (buffer : Channel Message) (ms : List Message)
    → length buffer.queue ≤ buffer.capacity
    → length (send_all ctx sent buffer ms).0.queue ≤ buffer.capacity
unfolding send_all
send_all-capacity ctx sent buffer [] h = h
send_all-capacity ctx sent buffer (m ∷ ms) h =
    let buffer₁ : Channel Message = record buffer { queue = buffer.queue ++ (m ∷ []) } in
    ground (arith, send_all-capacity ctx (suc sent) buffer₁ ms, length-append buffer.queue (m ∷ []))
