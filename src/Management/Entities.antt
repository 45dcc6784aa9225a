-- ===== src/Management/Entities.antt =====
-- What the three entity managers have in common: entries and entities, and Put, List, Get and Delete
-- behind the options (queue_manager.go, mgmt.go).
use azure_service_bus_go.Prelude.{
  Bool, false, Option, none, some, List, [], ◌∷◌, String, str_eq, ◌==◌, if◌then◌else◌,
}
use azure_service_bus_go.Errors.{
  Error, Exec, ok, err, Answer, got, failed, plain, management_error, deref, from_answer, ◌>>=◌,
}
use azure_service_bus_go.Management.{
  HttpResponse, Web, Entry, Xml, EntityManager, xml_doc, execute, get, put, delete,
}

-- An error ends the operation. Otherwise `k` goes on with the response.
abbrev pub after_response {ℓ} :
    {S : Type 0} {A : Type ℓ}
    → S × Option HttpResponse × Option Error
    → (Option HttpResponse → Exec A)
    → S × Exec A
after_response (s, res, some e) k = (s, err e)
after_response (s, res, none) k = (s, k res)

abbrev pub read_body : Option HttpResponse → Exec String
read_body res = deref res >>= (λ r. from_answer r.body)

pub record Entity (D : Type 0) : Type 0 where
  pub description : D
  pub name : String

module _ {D : Type 0} where
  unfoldable pub entry_to_entity : Entry D → Exec (Entity D)
  entry_to_entity entry = do
    c ← deref entry.content
    a ← deref entry.atom
    ok (record { description = c.description; name = a.title })

  entities_of : List (Entry D) → Exec (List (Entity D))
  unfolding entry_to_entity
  entities_of [] = ok []
  entities_of (entry ∷ entries) = do
    e ← entry_to_entity entry
    es ← entities_of entries
    ok (e ∷ es)

  -- The entry that Put sends.
  abbrev pub entry_of : D → Entry D
  entry_of d = record {
    atom = some (record { title = ""; atom_schema = "http://www.w3.org/2005/Atom" });
    content = some (record { content_type = "application/xml"; description = d });
  }

module _ {D : Type 0} (xml : Xml D) where
  unfoldable pub format_management_error : String → Error
  format_management_error body = elim (xml.unmarshal_error body) [
    | failed _ ↦ plain body
    | got m ↦ management_error m.code m.detail
  ]

  unfoldable pub is_listed : Answer (Option String) → Exec Bool
  is_listed (failed _) = ok false
  is_listed (got title) = deref title >>= (λ t. ok (str_eq t "Publicly Listed Services"))

  -- `feedErr == nil && emptyFeed.Title == …`
  unfoldable pub is_empty_feed : String → Exec Bool
  unfolding is_listed
  is_empty_feed b = is_listed (xml.unmarshal_queue_feed b)

  -- What Put, List and Get make of the text of the answer, `b`.
  from_entry : String → Answer (Entry D) → Exec (Entity D)
  unfolding format_management_error entry_to_entity
  from_entry b (failed _) = err (format_management_error b)
  from_entry b (got entry) = entry_to_entity entry

  unfoldable pub read_put : String → Exec (Entity D)
  unfolding from_entry
  read_put b = from_entry b (xml.unmarshal_entry b)

  from_feed : String → Answer (List (Entry D)) → Exec (List (Entity D))
  unfolding format_management_error entities_of
  from_feed b (failed _) = err (format_management_error b)
  from_feed b (got entries) = entities_of entries

  pub read_list : String → Exec (List (Entity D))
  unfolding from_feed
  read_list b = from_feed b (xml.unmarshal_feed b)

  unfoldable pub from_entry_or_empty : String → Answer (Entry D) → Exec (Option (Entity D))
  unfolding format_management_error is_empty_feed entry_to_entity
  from_entry_or_empty b (failed _) = do
    empty ← is_empty_feed b
    if empty then ok none else err (format_management_error b)
  from_entry_or_empty b (got entry) = entry_to_entity entry >>= (λ e. ok (some e))

  unfoldable pub read_get : String → Exec (Option (Entity D))
  unfolding from_entry_or_empty
  read_get b = from_entry_or_empty b (xml.unmarshal_entry b)

  -- The response of a Get: nil for a status of 404.
  unfoldable pub found : HttpResponse → Exec (Option (Entity D))
  unfolding read_get
  found r = if r.status_code == 404 then ok none else (from_answer r.body >>= read_get)

  module _ {S : Type 0} (web : Web S) (em : EntityManager) where
    unfoldable pub send_text : String → Answer String → S → S × Exec (Entity D)
    unfolding execute read_put xml_doc
    send_text path (failed e) s = (s, err e)
    send_text path (got b) s =
        after_response (put web em path (xml_doc xml.header b) s)
          (λ res. read_body res >>= read_put)

    -- Put behind the options.
    unfoldable pub put_entity : String → D → S → S × Exec (Entity D)
    unfolding send_text
    put_entity path d s = send_text path (xml.marshal (entry_of d)) s

    unfoldable pub list_entities : String → S → S × Exec (List (Entity D))
    unfolding execute read_list
    list_entities path s = after_response (get web em path s) (λ res. read_body res >>= read_list)

    unfoldable pub get_entity : String → S → S × Exec (Option (Entity D))
    unfolding execute found
    get_entity path s = after_response (get web em path s) (λ res. deref res >>= found)

module _ {S : Type 0} (web : Web S) (em : EntityManager) where
  unfoldable pub delete_entity : String → S → S × Exec (Unit {0})
  unfolding execute
  delete_entity path s = after_response (delete web em path s) (λ res. ok tt)
