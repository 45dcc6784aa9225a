-- ===== src/Management.antt =====
-- mgmt.go: the requests of the entity managers, over HTTP and XML as parameters, for any type of
-- description. `S` is the state of everything outside: the servers and the network. What Put, List,
-- Get and Delete of the three managers have in common stands in the child Entities.
pub mod Entities
pub mod Options
pub mod Duration
pub mod Request
pub mod Status
pub mod Store
pub mod Server
pub mod Refine
use Prim.Native.Char.{code}
use Prim.Native.String.{◌++◌ as ◌<>◌}
use azure_service_bus_go.Prelude.{
  ℕ, Bool, true, false, ◌||◌, Option, none, some, List, [], ◌∷◌, ◌++◌, String, str_eq, ◌==◌,
  if◌then◌else◌,
}
use azure_service_bus_go.Prelude.Int.{ℤ}
use azure_service_bus_go.Errors.{
  Error, Exec, ok, err, panic, blocked, Answer, got, failed, plain, management_error, deref,
  from_answer, ◌>>=◌,
}
use azure_service_bus_go.Namespace.{Namespace, get_https_host_uri}

-- The pairs of a query stand in the order in which they are added.
pub record Url : Type 0 where
  pub base : String
  pub query : List (String × String)

pub record HttpRequest : Type 0 where
  pub method : String
  pub url : Url
  pub headers : List (String × String)
  pub body : Option String

-- `body` is what ioutil.ReadAll returns for it.
pub record HttpResponse : Type 0 where
  pub status_code : ℕ
  pub body : Answer String

-- net/http and the token provider: the URL of http.NewRequest, URL.String, GetToken and client.Do,
-- which returns a response, or nil, and an error, or nil.
pub record Web (S : Type 0) : Type 0 where
  pub parse_url : String → Answer Url
  pub url_text : Url → String
  pub get_token : String → Answer String
  pub perform : S → HttpRequest → S × Option HttpResponse × Option Error

-- atom.Entry and the content, which are nil where the text does not have them.
pub record AtomEntry : Type 0 where
  pub title : String
  pub atom_schema : String

pub record Content (D : Type 0) : Type 0 where
  pub content_type : String
  pub description : D

pub record Entry (D : Type 0) : Type 0 where
  pub atom : Option AtomEntry
  pub content : Option (Content D)

pub record ManagementError : Type 0 where
  pub code : ℤ
  pub detail : String

-- xml.Marshal and xml.Unmarshal at the types that are read and written. A feed is read for its
-- entries, and as a queueFeed for its title, which stands in a part that may be nil.
pub record Xml (D : Type 0) : Type 0 where
  pub header : String
  pub marshal : Entry D → Answer String
  pub unmarshal_entry : String → Answer (Entry D)
  pub unmarshal_feed : String → Answer (List (Entry D))
  pub unmarshal_queue_feed : String → Answer (Option String)
  pub unmarshal_error : String → Answer ManagementError

-- The token provider is part of Web.
pub record EntityManager : Type 0 where
  pub host : String

unfoldable pub new_entity_manager : Namespace → EntityManager
unfolding get_https_host_uri
new_entity_manager ns = record { host = get_https_host_uri ns }

-- strings.TrimPrefix(path, "/")
unfoldable pub trim_slash : String → String
trim_slash String.[] = ""
trim_slash (String.◌∷◌ c s) = if code c == 47 then s else String.◌∷◌ c s

unfoldable pub add_atom_xml_content_type : HttpRequest → HttpRequest
add_atom_xml_content_type req =
    if str_eq req.method "GET" || str_eq req.method "HEAD" then req else record req {
      headers =
          req.headers ++ (("content-Type", "application/atom+xml;type=entry;charset=utf-8") ∷ []);
    }

unfoldable pub add_api_version : HttpRequest → HttpRequest
add_api_version req = record req {
  url = record req.url { query = req.url.query ++ (("api-version", "2017-04") ∷ []) };
}

unfoldable pub xml_doc : String → String → String
xml_doc header content = header <> content

-- The URL that http.NewRequest is given.
unfoldable pub request_url : EntityManager → String → String
unfolding trim_slash
request_url em entity_path = em.host <> trim_slash entity_path

module _ {S : Type 0} (web : Web S) where
  unfoldable pub add_authorization : HttpRequest → Answer HttpRequest
  add_authorization req = elim (web.get_token (web.url_text req.url)) [
    | failed e ↦ failed e
    | got token ↦ got (record req { headers = req.headers ++ (("Authorization", token) ∷ []) })
  ]

  unfoldable pub send_request : Answer HttpRequest → S → S × Option HttpResponse × Option Error
  send_request (failed e) s = (s, none, some e)
  send_request (got req) s = web.perform s req

  unfoldable pub prepare : String → Option String → Url → Answer HttpRequest
  unfolding add_authorization add_api_version add_atom_xml_content_type
  prepare method body url = add_authorization (
      add_api_version (
        add_atom_xml_content_type
          (record { method = method; url = url; headers = []; body = body })))

  unfoldable pub execute :
      EntityManager → String → String → Option String → S → S × Option HttpResponse × Option Error
  unfolding send_request prepare request_url
  execute em method entity_path body s = elim (web.parse_url (request_url em entity_path)) [
    | failed e ↦ (s, none, some e)
    | got url ↦ send_request (prepare method body url) s
  ]

  -- Get, Put, Delete and Post.
  abbrev pub get : EntityManager → String → S → S × Option HttpResponse × Option Error
  get em entity_path s = execute em "GET" entity_path none s

  abbrev pub put : EntityManager → String → String → S → S × Option HttpResponse × Option Error
  put em entity_path body s = execute em "PUT" entity_path (some body) s

  abbrev pub delete : EntityManager → String → S → S × Option HttpResponse × Option Error
  delete em entity_path s = execute em "DELETE" entity_path none s

  abbrev pub post : EntityManager → String → String → S → S × Option HttpResponse × Option Error
  post em entity_path body s = execute em "POST" entity_path (some body) s
