-- ===== src/Management/Refine.antt =====
-- The entity managers over a server that keeps descriptions, beside the store of the descriptions
-- (mgmt.go, queue_manager.go, topic_manager.go).
use Prim.Native.String.{◌++◌ as ◌<>◌}
use mathlib.Core.Option
use Prim.Native.String.append.{nil, cons}
use mathlib.Core.Path.{ap₂}
use azure_service_bus_go.Prelude.{
  ◌≡◌, refl, ap, ◌∙◌, inl, inr, Option, none, some, List, [], ◌∷◌, String, str_eq, if◌then◌else◌,
}
use azure_service_bus_go.Errors.{Error, Exec, ok, deref, ◌>>=◌, got, failed}
use azure_service_bus_go.Management.{
  HttpResponse, Web, Entry, Xml, EntityManager, execute, trim_slash, xml_doc,
}
use azure_service_bus_go.Management.Entities.{
  Entity, entry_to_entity, put_entity, get_entity, delete_entity, after_response, found,
  is_empty_feed, read_get, read_put, read_body, send_text,
}
use azure_service_bus_go.Management.Request.{execute-performed}
use azure_service_bus_go.Management.Store.{
  Store, Op, put, get, delete, Reply, of_put, of_get, of_delete, update, entity,
}
use azure_service_bus_go.Management.Store
use azure_service_bus_go.Management.Server.{run, request, Shows, Serves, AllNames}

after_response-answered :
    {S A : Type 0} (t : S × Option HttpResponse × Option Error) (k : Option HttpResponse → Exec A)
    → t.2 ≡ none
    → after_response t k ≡ (t.0, k t.1)
after_response-answered (s, res, none) k h = refl
after_response-answered (s, res, some e) k h = cc

read_get-shown :
    {D : Type 0} (xml : Xml D) (text : String) (e : Entity D) (entry : Entry D)
    → xml.unmarshal_entry text ≡ got entry
    → entry_to_entity entry ≡ ok e
    → read_get xml text ≡ ok (some e)
unfolding read_get
read_get-shown xml text e entry parsed holds = rw (parsed, holds)

read_get-empty :
    {D : Type 0} (xml : Xml D) (text : String) (e : Error)
    → xml.unmarshal_entry text ≡ failed e
    → xml.unmarshal_queue_feed text ≡ got (some "Publicly Listed Services")
    → read_get xml text ≡ ok none
unfolding read_get is_empty_feed
read_get-empty xml text e unparsed titled = rw (unparsed, titled)

found-Shows :
    {D : Type 0} (xml : Xml D) (name : String) (v : Option D) (r : HttpResponse)
    → Shows xml name v r
    → found xml r ≡ ok (Option.map (entity name) v)
unfolding found
found-Shows xml name (some d) r (present, (text, body, (entry, parsed, holds))) =
    rw (present, body) (read_get-shown xml text _ entry parsed holds)
found-Shows xml name none r (inl missing) = rw (missing)
found-Shows xml name none r (inr (present, (text, e, body, unparsed, titled))) =
    rw (present, body) (read_get-empty xml text e unparsed titled)

read_put-shown :
    {D : Type 0} (xml : Xml D) (r : HttpResponse) (text : String) (e : Entity D) (entry : Entry D)
    → r.body ≡ got text
    → xml.unmarshal_entry text ≡ got entry
    → entry_to_entity entry ≡ ok e
    → (read_body (some r) >>= read_put xml) ≡ ok e
unfolding read_put
read_put-shown xml r text e entry body parsed holds = rw (body, parsed, holds)

update_same :
    {D : Type 0} (name : String) (v : Option D) {f g : Store D}
    → ((k : String) → f k ≡ g k)
    → (k : String) → update name v f k ≡ update name v g k
update_same name v same k = ap (λ t. if str_eq name k then v else t) (same k)

trim_slash-slash : (name : String) → trim_slash ("/" <> name) ≡ name
unfolding trim_slash
trim_slash-slash name = ap trim_slash (cons _ "" name) ∙ nil name

module _ {S D : Type 0} (web : Web S) (xml : Xml D) (em : EntityManager) (contents : S → Store D)
    (filled : D → D) (IsName : String → Type 0) (h : Serves web xml em contents filled IsName) where
  asks :
      (method path name : String) (body : Option String) (s : S)
      → IsName name
      → trim_slash path ≡ name
      → (headers : List (String × String)) × (execute web em method path body s
          ≡ web.perform s (request method (h.url_of name) headers body))
  asks method path name body s valid trimmed =
      let parsed = ap (λ t. web.parse_url (em.host <> t)) trimmed ∙ h.parses name valid in
      (_, execute-performed web em method path body s (h.url_of name) _ parsed (h.tokens _))

  -- A call that asks for `name` leaves the state, and returns what it makes of the response, as the
  -- server's answer gives them.
  answered :
      {A : Type 0} (method path name : String) (body : Option String) (s : S)
      (k : Option HttpResponse → Exec A)
      → IsName name
      → trim_slash path ≡ name
      → (headers : List (String × String)) × (let t =
            web.perform s (request method (h.url_of name) headers body) in
          t.2 ≡ none → after_response (execute web em method path body s) k ≡ (t.0, k t.1))
  answered method path name body s k valid trimmed =
      let (headers, asked) = asks method path name body s valid trimmed in
      (headers, λ fine. ap (λ t. after_response t k) asked ∙ after_response-answered _ k fine)

  put_refines :
      (s : S) (name : String) (d : D)
      → IsName name
      → (s' : S) × (put_entity xml web em ("/" <> name) d s ≡ (s', ok (entity name (filled d))))
        × ((k : String) → contents s' k ≡ update name (some (filled d)) (contents s) k)
  unfolding put_entity
  put_refines s name d valid =
      let read = λ (res : Option HttpResponse). read_body res >>= read_put xml in
      let (headers, sent) =
        answered "PUT" ("/" <> name) name (some (xml_doc xml.header (h.text_of d))) s read valid
          (trim_slash-slash name) in
      let (r, text, is_r, fine, body, (entry, parsed, holds), updated) =
        h.puts s name d headers valid in
      let req = request "PUT" (h.url_of name) headers (some (xml_doc xml.header (h.text_of d))) in
      let left : S = (web.perform s req).0 in
      (
        left,
        ap (λ t. send_text xml web em ("/" <> name) t s) (h.marshals d)
            ∙ sent fine
            ∙ ap (λ v. (left, v))
                (ap read is_r ∙ read_put-shown xml r text _ entry body parsed holds),
        updated,
      )

  get_refines :
      (s : S) (name : String)
      → IsName name
      → (s' : S) × (get_entity xml web em name s
          ≡ (s', ok (Option.map (entity name) (contents s name))))
        × ((k : String) → contents s' k ≡ contents s k)
  unfolding get_entity
  get_refines s name valid =
      let read = λ (res : Option HttpResponse). deref res >>= found xml in
      let (headers, sent) = answered "GET" name name none s read valid (h.bare name valid) in
      let (r, is_r, fine, shown, kept) = h.gets s name headers valid in
      let left : S = (web.perform s (request "GET" (h.url_of name) headers none)).0 in
      (
        left,
        sent fine
            ∙ ap (λ v. (left, v)) (ap read is_r ∙ found-Shows xml name (contents s name) r shown),
        kept,
      )

  delete_refines :
      (s : S) (name : String)
      → IsName name
      → (s' : S) × (delete_entity web em ("/" <> name) s ≡ (s', ok tt))
        × ((k : String) → contents s' k ≡ update name none (contents s) k)
  unfolding delete_entity
  delete_refines s name valid =
      let (headers, sent) =
        answered "DELETE" ("/" <> name) name none s (λ res. ok tt) valid (trim_slash-slash name) in
      let (fine, updated) = h.deletes s name headers valid in (_, sent fine, updated)

  -- No sequence of Put, Get and Delete under names that the server takes tells the manager from the
  -- store of the descriptions that the server holds: every call returns what the store gives. What
  -- is put is held, and returned, with the defaults that the service fills in. The server answers a
  -- PUT with the entry that it stored, a GET with the entry or with a status of 404 or the feed
  -- without entries, and a name does not start with a slash.
  pub run_refines :
      (ops : List (Op D)) (s : S) (store : Store D)
      → AllNames IsName ops
      → ((k : String) → contents s k ≡ store k)
      → run web xml em s ops ≡ Store.run filled store ops
  unfolding run Store.run
  run_refines [] s store names same = refl
  run_refines (put name d ∷ ops) s store (valid, names) same =
      let (s', made, updated) = put_refines s name d valid in
      ap₂ ◌∷◌ (ap (λ p. of_put p.1) made) (
        ap (λ p. run web xml em p.0 ops) made
        ∙ run_refines ops s' _ names (λ k. updated k ∙ update_same name (some (filled d)) same k))
  run_refines (get name ∷ ops) s store (valid, names) same =
      let (s', made, kept) = get_refines s name valid in
      ap₂ ◌∷◌
        (ap (λ p. of_get p.1) made ∙ ap (λ v. of_get (ok (Option.map (entity name) v))) (same name))
        (ap (λ p. run web xml em p.0 ops) made
          ∙ run_refines ops s' store names (λ k. kept k ∙ same k))
  run_refines (delete name ∷ ops) s store (valid, names) same =
      let (s', made, updated) = delete_refines s name valid in
      ap₂ ◌∷◌ (ap (λ p. of_delete p.1) made) (
        ap (λ p. run web xml em p.0 ops) made
        ∙ run_refines ops s' _ names (λ k. updated k ∙ update_same name none same k))
