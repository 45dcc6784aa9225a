-- ===== src/Message/LockToken.antt =====
-- lockTokenFromMessageTag of message.go: the lock token in the delivery tag, translated from the
-- byte order of a .NET guid.
use azure_service_bus_go.Prelude.{
  ℕ, zero, suc, ◌-◌, ◌<◌, ◌≡◌, ◌≢◌, refl, ap, ◌∙◌, ◌==◌, ltb, Option, none, some, [], ◌∷◌, length,
  get_elem?, if◌then◌else◌, arith,
}
use azure_service_bus_go.Amqp.{AmqpMessage}
use azure_service_bus_go.Amqp.Dynamic.{Bytes}
use azure_service_bus_go.Errors.{Exec, ok, err, invalid_delivery_tag}

-- `array[i] = v`
abbrev set : Bytes → ℕ → ℕ → Bytes
set [] i v = []
set (x ∷ xs) zero v = v ∷ xs
set (x ∷ xs) (suc i) v = x ∷ set xs i v

-- `array[i]`, at an index within the bounds of the array
abbrev get : Bytes → ℕ → ℕ
get [] i = 0
get (x ∷ xs) zero = x
get (x ∷ xs) (suc i) = get xs i

swap_index : ℕ → ℕ → Bytes → Bytes
swap_index one two array = let v1 = get array one in set (set array one (get array two)) two v1

-- The four swaps, in the order of the code.
translate : Bytes → Bytes
unfolding swap_index
translate array = swap_index 6 7 (swap_index 4 5 (swap_index 1 2 (swap_index 0 3 array)))

abbrev pub tag_of : Option Bytes → Bytes
tag_of none = []
tag_of (some tag) = tag

unfoldable pub lock_token_from_message_tag : AmqpMessage → Exec Bytes
unfolding translate
lock_token_from_message_tag msg =
    let tag = tag_of msg.delivery_tag in
    if length tag == 16 then ok (translate tag) else err (invalid_delivery_tag tag)

length-set : (xs : Bytes) (i v : ℕ) → length (set xs i v) ≡ length xs
length-set [] i v = refl
length-set (x ∷ xs) zero v = refl
length-set (x ∷ xs) (suc i) v = ap suc (length-set xs i v)

get_elem?-set :
    (xs : Bytes) (i v k : ℕ)
    → i < length xs
    → get_elem? (set xs i v) k ≡ (if k == i then some v else get_elem? xs k)
get_elem?-set [] i v k h = elim h [ ]
get_elem?-set (x ∷ xs) zero v zero h = refl
get_elem?-set (x ∷ xs) zero v (suc k) h = ground arith
get_elem?-set (x ∷ xs) (suc i) v zero h = ground arith
get_elem?-set (x ∷ xs) (suc i) v (suc k) h = ground (arith, get_elem?-set xs i v k (omega arith))

get_elem?-get : (xs : Bytes) (i : ℕ) → i < length xs → get_elem? xs i ≡ some (get xs i)
get_elem?-get [] i h = elim h [ ]
get_elem?-get (x ∷ xs) zero h = refl
get_elem?-get (x ∷ xs) (suc i) h = get_elem?-get xs i (omega arith)

length-swap_index : (one two : ℕ) (xs : Bytes) → length (swap_index one two xs) ≡ length xs
unfolding swap_index
length-swap_index one two xs =
    omega
      (arith, length-set (set xs one (get xs two)) two (get xs one), length-set xs one (get xs two))

get_elem?-swap_index :
    (one two k : ℕ) (xs : Bytes)
    → one < length xs
    → two < length xs
    → get_elem? (swap_index one two xs) k
      ≡ get_elem? xs (if k == one then two else if k == two then one else k)
unfolding swap_index
get_elem?-swap_index one two k xs h₁ h₂ = ground (
  arith,
  get_elem?-set (set xs one (get xs two)) two (get xs one) k,
  get_elem?-set xs one (get xs two) k,
  length-set xs one (get xs two),
  get_elem?-get xs one,
  get_elem?-get xs two,
)

-- The byte of a .NET guid that stands at position `i` of the RFC order: the first group of four
-- bytes and the two groups of two are reversed, and the last eight bytes stay.
abbrev pub guid_index : ℕ → ℕ
guid_index i = if ltb i 4 then 3 - i else if ltb i 6 then 9 - i else if ltb i 8 then 13 - i else i

length-translate : (xs : Bytes) → length (translate xs) ≡ length xs
unfolding translate
length-translate xs = simp length-swap_index

-- The index that `swap_index one two` reads from.
abbrev swapped : ℕ → ℕ → ℕ → ℕ
swapped one two k = if k == one then two else if k == two then one else k

swapped-guid_index :
    (k : ℕ) → swapped 0 3 (swapped 1 2 (swapped 4 5 (swapped 6 7 k))) ≡ guid_index k
swapped-guid_index k = ground arith

get_elem?-translate :
    (xs : Bytes) (k : ℕ) → length xs ≡ 16 → get_elem? (translate xs) k ≡ get_elem? xs (guid_index k)
unfolding translate
get_elem?-translate xs k h =
    let s₁ = swap_index 0 3 xs in
    let s₂ = swap_index 1 2 s₁ in
    let s₃ = swap_index 4 5 s₂ in
    let h₁ : length s₁ ≡ 16 = length-swap_index 0 3 xs ∙ h in
    let h₂ : length s₂ ≡ 16 = length-swap_index 1 2 s₁ ∙ h₁ in
    let h₃ : length s₃ ≡ 16 = length-swap_index 4 5 s₂ ∙ h₂ in
    get_elem?-swap_index 6 7 k s₃ (omega arith) (omega arith)
    ∙ get_elem?-swap_index 4 5 (swapped 6 7 k) s₂ (omega arith) (omega arith)
    ∙ get_elem?-swap_index 1 2 (swapped 4 5 (swapped 6 7 k)) s₁ (omega arith) (omega arith)
    ∙ get_elem?-swap_index 0 3 _ xs (omega arith) (omega arith)
    ∙ ap (get_elem? xs) (swapped-guid_index k)

-- Two lists with the same elements at the same places are equal.
ext : (xs ys : Bytes) → ((k : ℕ) → get_elem? xs k ≡ get_elem? ys k) → xs ≡ ys
ext [] [] h = refl
ext [] (y ∷ ys) h = cc (h 0)
ext (x ∷ xs) [] h = cc (h 0)
ext (x ∷ xs) (y ∷ ys) h = cc (h 0, ext xs ys (λ k. h (suc k)))

guid_index-guid_index : (k : ℕ) → guid_index (guid_index k) ≡ k
guid_index-guid_index k = ground arith

-- A delivery tag of 16 bytes gives a lock token of 16 bytes, in which the first four bytes and the
-- two following pairs of the tag are reversed and the other bytes are those of the tag.
pub lock_token_from_message_tag_ok :
    (msg : AmqpMessage) (tag : Bytes)
    → msg.delivery_tag ≡ some tag
    → length tag ≡ 16
    → (t : Bytes) × (lock_token_from_message_tag msg ≡ ok t)
      × (length t ≡ 16)
      × ((k : ℕ) → get_elem? t k ≡ get_elem? tag (guid_index k))
unfolding lock_token_from_message_tag
lock_token_from_message_tag_ok msg tag e h =
    (translate tag, rw (e, h), length-translate tag ∙ h, λ k. get_elem?-translate tag k h)

-- A delivery tag of any other length, and a message with no tag, is refused with the tag in the
-- error.
pub lock_token_from_message_tag_err :
    (msg : AmqpMessage)
    → length (tag_of msg.delivery_tag) ≢ 16
    → lock_token_from_message_tag msg ≡ err (invalid_delivery_tag (tag_of msg.delivery_tag))
unfolding lock_token_from_message_tag
lock_token_from_message_tag_err msg h = ground arith

translate-translate : (xs : Bytes) → length xs ≡ 16 → translate (translate xs) ≡ xs
translate-translate xs h = ext _ _ λ k.
    get_elem?-translate (translate xs) k (length-translate xs ∙ h)
    ∙ get_elem?-translate xs (guid_index k) h
    ∙ ap (get_elem? xs) (guid_index-guid_index k)

lock_token-eq-ok :
    (msg : AmqpMessage) {token : Bytes}
    → lock_token_from_message_tag msg ≡ ok token
    → (length (tag_of msg.delivery_tag) ≡ 16) × (token ≡ translate (tag_of msg.delivery_tag))
unfolding lock_token_from_message_tag
lock_token-eq-ok msg h = ground arith

-- The translation undoes itself: if a message's lock token stands as the delivery tag of another
-- message, the lock token of that message is the first delivery tag.
pub lock_token-involutive :
    (msg : AmqpMessage) (token : Bytes)
    → lock_token_from_message_tag msg ≡ ok token
    → lock_token_from_message_tag (record msg { delivery_tag = some token })
      ≡ ok (tag_of msg.delivery_tag)
unfolding lock_token_from_message_tag
lock_token-involutive msg token h =
    let p = lock_token-eq-ok msg h in
    let tag = tag_of msg.delivery_tag in
    rw (p.1, length-translate tag ∙ p.0) (ap ok (translate-translate tag p.0))
