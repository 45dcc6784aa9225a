-- ===== src/Management/Server.antt =====
-- A run of the managers of queues and topics, and a server that keeps descriptions, as they see it.
use Prim.Native.String.{◌++◌ as ◌<>◌}
use azure_service_bus_go.Prelude.{
  ◌≡◌, ◌⊎◌, true, false, Option, none, some, List, [], ◌∷◌, String, ◌==◌,
}
use azure_service_bus_go.Errors.{Error, ok, got, failed}
use azure_service_bus_go.Management.{
  Url, HttpRequest, HttpResponse, Web, Entry, Xml, EntityManager, trim_slash, xml_doc,
}
use azure_service_bus_go.Management.Entities.{
  entry_of, entry_to_entity, put_entity, get_entity, delete_entity,
}
use azure_service_bus_go.Management.Request.{api_url}
use azure_service_bus_go.Management.Store.{
  Store, Op, put, get, delete, Reply, of_put, of_get, of_delete, update, entity,
}

-- The calls of the managers of queues and topics, in sequence, with the paths that they use.
module _ {S D : Type 0} (web : Web S) (xml : Xml D) (em : EntityManager) where
  unfoldable pub run : S → List (Op D) → List (Reply D)
  run s [] = []
  run s (put name d ∷ ops) =
      let (s', r) = put_entity xml web em ("/" <> name) d s in of_put r ∷ run s' ops
  run s (get name ∷ ops) = let (s', r) = get_entity xml web em name s in of_get r ∷ run s' ops
  run s (delete name ∷ ops) =
      let (s', r) = delete_entity web em ("/" <> name) s in of_delete r ∷ run s' ops

-- A request as Execute makes it, at the interface's version.
abbrev pub request : String → Url → List (String × String) → Option String → HttpRequest
request method url headers body = record {
  method = method;
  url = api_url url;
  headers = headers;
  body = body;
}

-- The text is that of an entry of the given name and description.
abbrev pub IsTextOf : {D : Type 0} → Xml D → String → D → String → Type 0
IsTextOf {D} xml name d text =
    (entry : Entry D) × (xml.unmarshal_entry text ≡ got entry)
    × (entry_to_entity entry ≡ ok (entity name d))

-- The answer to a Get: a text of the entry; or a status of 404, or the feed without entries that the
-- service answers with where there is no entity.
abbrev pub Shows : {D : Type 0} → Xml D → String → Option D → HttpResponse → Type 0
Shows xml name (some d) r =
    ((r.status_code == 404) ≡ false)
    × ((text : String) × (r.body ≡ got text) × IsTextOf xml name d text)
Shows xml name none r =
    ((r.status_code == 404) ≡ true)
    ⊎ (((r.status_code == 404) ≡ false)
        × ((text : String) × (e : Error) × (r.body ≡ got text)
            × (xml.unmarshal_entry text ≡ failed e)
            × (xml.unmarshal_queue_feed text ≡ got (some "Publicly Listed Services"))))

-- A server that keeps descriptions. `contents` is what it holds, `filled` fills in the service's
-- defaults, and `IsName` says which names it takes.
pub record Serves {S D : Type 0} (web : Web S) (xml : Xml D) (em : EntityManager)
    (contents : S → Store D) (filled : D → D) (IsName : String → Type 0) : Type 0 where
  -- A name has a URL and does not start with a slash; tokens can be had, and descriptions written.
  pub url_of : String → Url
  pub parses : (name : String) → IsName name → web.parse_url (em.host <> name) ≡ got (url_of name)
  pub bare : (name : String) → IsName name → trim_slash name ≡ name
  pub token : String → String
  pub tokens : (url : String) → web.get_token url ≡ got (token url)
  pub text_of : D → String
  pub marshals : (d : D) → xml.marshal (entry_of d) ≡ got (text_of d)
  -- A PUT stores the description with the defaults and answers with the entry of that, a GET shows what is stored, and a
  -- DELETE removes it, whatever the headers are.
  pub puts :
      (s : S) (name : String) (d : D) (headers : List (String × String))
      → IsName name
      → let (s', res, e) =
          web.perform s
            (request "PUT" (url_of name) headers (some (xml_doc xml.header (text_of d)))) in
        (r : HttpResponse) × (text : String) × (res ≡ some r)
        × (e ≡ none)
        × (r.body ≡ got text)
        × IsTextOf xml name (filled d) text
        × ((k : String) → contents s' k ≡ update name (some (filled d)) (contents s) k)
  pub gets :
      (s : S) (name : String) (headers : List (String × String))
      → IsName name
      → let (s', res, e) = web.perform s (request "GET" (url_of name) headers none) in
        (r : HttpResponse) × (res ≡ some r)
        × (e ≡ none)
        × Shows xml name (contents s name) r
        × ((k : String) → contents s' k ≡ contents s k)
  pub deletes :
      (s : S) (name : String) (headers : List (String × String))
      → IsName name
      → let (s', res, e) = web.perform s (request "DELETE" (url_of name) headers none) in
        (e ≡ none) × ((k : String) → contents s' k ≡ update name none (contents s) k)

-- Every name is one that the server takes.
abbrev pub AllNames : {D : Type 0} → (String → Type 0) → List (Op D) → Type 0
AllNames IsName [] = Unit
AllNames IsName (put name d ∷ ops) = IsName name × AllNames IsName ops
AllNames IsName (get name ∷ ops) = IsName name × AllNames IsName ops
AllNames IsName (delete name ∷ ops) = IsName name × AllNames IsName ops
