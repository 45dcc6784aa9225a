-- ===== src/Management/Request.antt =====
-- The one request that Execute of mgmt.go makes.
use Prim.Native.String.{◌++◌ as ◌<>◌}
use azure_service_bus_go.Prelude.{
  ◌≡◌, ◌⊎◌, inl, inr, ◌||◌, Option, none, some, List, [], ◌∷◌, ◌++◌, String, str_eq, arith,
  if◌then◌else◌, Bool-cases,
}
use azure_service_bus_go.Errors.{Error, got, failed, Answer-cases}
use azure_service_bus_go.Management.{Url, Web, EntityManager, execute, trim_slash}

abbrev pub api_url : Url → Url
api_url url = record url { query = url.query ++ (("api-version", "2017-04") ∷ []) }

-- The media type goes with every method that has a body, and with DELETE.
abbrev pub headers_of : String → String → List (String × String)
headers_of method token =
    (if str_eq method "GET" || str_eq method "HEAD"
      then []
      else ("content-Type", "application/atom+xml;type=entry;charset=utf-8") ∷ [])
    ++ (("Authorization", token) ∷ [])

module _ {S : Type 0} (web : Web S) (em : EntityManager) (method entity_path : String)
    (body : Option String) (s : S) where
  -- The URL cannot be parsed, or there is no token for it, for the reason `e`.
  pub data Refused (e : Error) : Type 0 where
    no_url : web.parse_url (em.host <> trim_slash entity_path) ≡ failed e → Refused e
    no_token :
        (url : Url)
        → web.parse_url (em.host <> trim_slash entity_path) ≡ got url
        → web.get_token (web.url_text (api_url url)) ≡ failed e
        → Refused e

  -- The URL and the token of the request, and the call with it.
  pub record Requested : Type 0 where
    pub url : Url
    pub token : String
    pub parsed : web.parse_url (em.host <> trim_slash entity_path) ≡ got url
    pub signed : web.get_token (web.url_text (api_url url)) ≡ got token
    pub performed :
        execute web em method entity_path body s
        ≡ web.perform s (record {
          method = method;
          url = api_url url;
          headers = headers_of method token;
          body = body;
        })

  pub execute-performed :
      (url : Url) (token : String)
      → web.parse_url (em.host <> trim_slash entity_path) ≡ got url
      → web.get_token (web.url_text (api_url url)) ≡ got token
      → execute web em method entity_path body s
        ≡ web.perform s (record {
          method = method;
          url = api_url url;
          headers = headers_of method token;
          body = body;
        })
  unfolding execute
  execute-performed url token parsed signed =
      elim (Bool-cases (str_eq method "GET" || str_eq method "HEAD")) [
        | inl read ↦ ground arith
        | inr write ↦ ground arith
      ]

  -- Execute sends nothing and returns the error with which the URL cannot be parsed, or with which
  -- the token provider fails for the URL at the interface's version; or it makes one request, under the host and the path without one leading slash: with the version of the
  -- interface in its query, the token for that URL in its headers, and the media type of an entry
  -- unless its method is GET or HEAD. It returns what that request is answered with.
  pub execute_lem :
      ((e : Error) × Refused e × (execute web em method entity_path body s ≡ (s, none, some e)))
      ⊎ Requested
  unfolding execute
  execute_lem = elim (Answer-cases (web.parse_url (em.host <> trim_slash entity_path))) [
    | inl (e, unparsed) ↦ inl (e, no_url unparsed, ground arith)
    | inr (url, parsed) ↦ elim (Answer-cases (web.get_token (web.url_text (api_url url)))) [
      | inl (e, unsigned) ↦ inl (
        e,
        no_token url parsed unsigned,
        elim (Bool-cases (str_eq method "GET" || str_eq method "HEAD")) [
          | inl read ↦ ground arith
          | inr write ↦ ground arith
        ],
      )
      | inr (token, signed) ↦ inr (record {
        url = url;
        token = token;
        parsed = parsed;
        signed = signed;
        performed = execute-performed url token parsed signed;
      })
    ]
  ]
