-- ===== src/Management/Status.antt =====
-- What the entity managers make of a response's status code, and of an answer without an entity.

use azure_service_bus_go.Prelude.{
  ℕ, ◌≡◌, ◌⊎◌, refl, ap, ◌∙◌, eq_iff, inl, inr, true, Option, none, some, String, ◌==◌, arith,
  Bool-cases,
}
use azure_service_bus_go.Errors.{
  Error, Exec, ok, deref, from_answer, from_answer-eq-ok, Answer, got, failed, ◌>>=◌, >>=-eq-ok,
}
use azure_service_bus_go.Management.{HttpResponse, Web, Entry, Xml, EntityManager, execute}
use azure_service_bus_go.Management.Entities.{
  entry_of, entry_to_entity, put_entity, list_entities, get_entity, delete_entity, after_response,
  found, is_empty_feed, is_listed, read_get, from_entry_or_empty, read_put, read_list, read_body,
  send_text,
}

abbrev restated : (ℕ → ℕ) → Option HttpResponse → Option HttpResponse
restated f none = none
restated f (some r) = some (record r { status_code = f r.status_code })

-- The same web, with the status codes of its responses changed by `f`.
abbrev pub with_status : {S : Type 0} → (ℕ → ℕ) → Web S → Web S
with_status f web = record web {
  perform = λ s req. let (s', res, e) = web.perform s req in (s', restated f res, e);
}

read_body-restated :
    (f : ℕ → ℕ) (res : Option HttpResponse) → read_body (restated f res) ≡ read_body res
read_body-restated f none = refl
read_body-restated f (some r) = refl

after_response-restated :
    {S A : Type 0} (f : ℕ → ℕ) (t : S × Option HttpResponse × Option Error)
    (k : Exec String → Exec A)
    → after_response (t.0, restated f t.1, t.2) (λ res. k (read_body res))
      ≡ after_response t (λ res. k (read_body res))
after_response-restated f (s, res, none) k = ap (λ v. (s, k v)) (read_body-restated f res)
after_response-restated f (s, res, some e) k = refl

module _ {S : Type 0} (f : ℕ → ℕ) (web : Web S) (em : EntityManager) where
  execute-with_status :
      (method path : String) (body : Option String) (s : S)
      → execute (with_status f web) em method path body s
        ≡ (let (s', res, e) = execute web em method path body s in (s', restated f res, e))
  unfolding execute
  execute-with_status method path body s = ground arith

  after_response-with_status :
      {A : Type 0} (method path : String) (body : Option String) (s : S) (k : Exec String → Exec A)
      → after_response
          (execute (with_status f web) em method path body s)
          (λ res. k (read_body res))
        ≡ after_response (execute web em method path body s) (λ res. k (read_body res))
  after_response-with_status method path body s k =
      ap (λ t. after_response t (λ res. k (read_body res))) (execute-with_status method path body s)
      ∙ after_response-restated f (execute web em method path body s) k

  send_text-with_status :
      {D : Type 0} (xml : Xml D) (path : String) (text : Answer String) (s : S)
      → send_text xml (with_status f web) em path text s ≡ send_text xml web em path text s
  unfolding send_text
  send_text-with_status xml path (failed e) s = refl
  send_text-with_status xml path (got b) s =
      after_response-with_status "PUT" path _ s (λ m. m >>= read_put xml)

  -- Put, List and Delete do the same whatever the status codes of the responses are: with other
  -- codes they leave the same state and return the same result.
  pub put_list_delete-with_status :
      {D : Type 0} (xml : Xml D) (path : String) (d : D) (s : S)
      → (put_entity xml (with_status f web) em path d s ≡ put_entity xml web em path d s)
        × (list_entities xml (with_status f web) em path s ≡ list_entities xml web em path s)
        × (delete_entity (with_status f web) em path s ≡ delete_entity web em path s)
  unfolding put_entity list_entities delete_entity
  put_list_delete-with_status xml path d s = (
    send_text-with_status xml path (xml.marshal (entry_of d)) s,
    after_response-with_status "GET" path none s (λ m. m >>= read_list xml),
    after_response-with_status "DELETE" path none s (λ _. ok tt),
  )

-- The answer to a Get says that there is no entity.
abbrev pub Missing : {D : Type 0} → Xml D → HttpResponse → Type 0
Missing xml r =
    ((r.status_code == 404) ≡ true)
    ⊎ ((text : String) × (e : Error) × (r.body ≡ got text)
        × (xml.unmarshal_entry text ≡ failed e)
        × (xml.unmarshal_queue_feed text ≡ got (some "Publicly Listed Services")))

module _ {D : Type 0} (xml : Xml D) where
  is_listed-true :
      (answer : Answer (Option String))
      → is_listed xml answer ≡ ok true
      → answer ≡ got (some "Publicly Listed Services")
  unfolding is_listed
  is_listed-true (failed e) h = cc
  is_listed-true (got none) h = cc
  is_listed-true (got (some t)) h =
      ap (λ u. got (some u)) ((eq_iff t "Publicly Listed Services").0 (ground arith))

  from_entry_or_empty-eq-none :
      (b : String) (answer : Answer (Entry D))
      → from_entry_or_empty xml b answer ≡ ok none
      → (e : Error) × (answer ≡ failed e)
        × (xml.unmarshal_queue_feed b ≡ got (some "Publicly Listed Services"))
  unfolding from_entry_or_empty is_empty_feed
  from_entry_or_empty-eq-none b (failed e) h =
      let (empty, listed, rest) = >>=-eq-ok (is_listed xml (xml.unmarshal_queue_feed b)) _ h in
      (e, refl, is_listed-true _ (ground (arith, Bool-cases empty)))
  from_entry_or_empty-eq-none b (got entry) h =
      let (e, _, rest) = >>=-eq-ok (entry_to_entity entry) _ h in absurd (ground arith)

  found-eq-none : (r : HttpResponse) → found xml r ≡ ok none → Missing xml r
  unfolding found read_get
  found-eq-none r h = elim (Bool-cases (r.status_code == 404)) [
    | inl missing ↦ inl missing
    | inr present ↦
        let (text, body, rest) = >>=-eq-ok (from_answer r.body) (read_get xml) (ground arith) in
        let (e, unparsed, titled) = from_entry_or_empty-eq-none text _ rest in
        inr (text, e, from_answer-eq-ok _ body, unparsed, titled)
  ]

  after_response-eq-ok :
      {S A : Type 0} (t : S × Option HttpResponse × Option Error) (k : HttpResponse → Exec A)
      {a : A}
      → (after_response t (λ res. deref res >>= k)).1 ≡ ok a
      → (r : HttpResponse) × (t.1 ≡ some r) × (t.2 ≡ none) × (k r ≡ ok a)
  after_response-eq-ok (s, some r, none) k h = (r, refl, refl, h)
  after_response-eq-ok (s, none, none) k h = cc
  after_response-eq-ok (s, res, some e) k h = cc

  -- Get returns nil without an error only if its request was answered, with a status of 404 or with
  -- a text that is no entry but a feed under the title of the public services.
  pub get_entity-eq-none :
      {S : Type 0} (web : Web S) (em : EntityManager) (path : String) (s : S)
      → (get_entity xml web em path s).1 ≡ ok none
      → (r : HttpResponse) × ((execute web em "GET" path none s).1 ≡ some r)
        × ((execute web em "GET" path none s).2 ≡ none)
        × Missing xml r
  unfolding get_entity
  get_entity-eq-none web em path s h =
      let (r, is_r, fine, none_found) =
        after_response-eq-ok (execute web em "GET" path none s) (found xml) h in
      (r, is_r, fine, found-eq-none r none_found)
