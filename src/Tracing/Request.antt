-- ===== src/Tracing/Request.antt =====
-- What the span of Execute tells of its request (mgmt.go, tracing.go).
use mathlib.Core.List.{append-nil}
use azure_service_bus_go.Prelude.{
  ◌%◌, ◌^◌, ◌≡◌, refl, ap, sym, ◌∙◌, Option, none, some, List, [], ◌∷◌, ◌++◌, String, arith, inl,
  inr, ◌||◌, str_eq, Bool-cases,
}
use azure_service_bus_go.Errors.{Answer, got, failed, Answer-cases}
use azure_service_bus_go.Management.{
  Web, Url, HttpRequest, HttpResponse, EntityManager, execute, send_request, prepare, request_url,
  add_api_version, add_atom_xml_content_type, add_authorization,
}
use azure_service_bus_go.Tracing.{
  Tag, http_url, http_method, http_status_code, Span, manager_span, apply_request_info,
  apply_response_info, send_span, execute_span,
}

-- The status of a response, if there is one.
abbrev pub status_tags : Option HttpResponse → List Tag
status_tags none = []
status_tags (some res) = http_status_code (res.status_code % 2 ^ 16) ∷ []

abbrev pub url_tags : {S : Type 0} → Web S → Answer Url → String → List Tag
url_tags web (failed e) method = []
url_tags web (got url) method =
    http_url (web.url_text (record url { query = url.query ++ (("api-version", "2017-04") ∷ []) }))
    ∷ http_method method
    ∷ []

then_two :
    (base rest : List Tag) (a b : Tag)
    → ((base ++ (a ∷ [])) ++ (b ∷ [])) ++ rest ≡ base ++ (a ∷ b ∷ rest)
then_two [] rest a b = refl
then_two (t ∷ base) rest a b = ap (λ l. t ∷ l) (then_two base rest a b)

module _ {S : Type 0} (R : Type 0) (web : Web S) where
  apply_response_info-tags :
      (res : Option HttpResponse) (span : Span R)
      → (apply_response_info res span).tags ≡ span.tags ++ status_tags res
  unfolding apply_response_info
  apply_response_info-tags none span = sym (append-nil span.tags)
  apply_response_info-tags (some res) span = refl

  send_span-tags :
      (a : Answer HttpRequest) (s : S) (span : Span R)
      → (send_span web a s span).tags ≡ span.tags ++ status_tags (send_request web a s).1
  unfolding send_span send_request
  send_span-tags (failed e) s span = sym (append-nil span.tags)
  send_span-tags (got req) s span = apply_response_info-tags (web.perform s req).1 span

  with_url :
      (hostname : Answer String) (method : String) (url : Url) (body : Option String) (s : S)
      → (let base = manager_span {R = R} hostname "sb.EntityManger.Execute" in
          let req = add_api_version (
            add_atom_xml_content_type
              (record { method = method; url = url; headers = []; body = body })) in
          (send_span web
            (add_authorization web req)
            s
            (apply_request_info (web.url_text req.url) req.method base)).tags
          ≡ base.tags
            ++ (url_tags web (got url) method
                ++ status_tags (send_request web (add_authorization web req) s).1))
  unfolding apply_request_info add_api_version add_atom_xml_content_type
  with_url hostname method url body s =
      let base = manager_span {R = R} hostname "sb.EntityManger.Execute" in
      elim (Bool-cases (str_eq method "GET" || str_eq method "HEAD")) [
        | inl read ↦ rw read (send_span-tags _ s _ ∙ then_two base.tags _ _ _)
        | inr write ↦ rw write (send_span-tags _ s _ ∙ then_two base.tags _ _ _)
      ]

  -- The span of Execute tells what the call does: behind the tags with which it starts come the URL,
  -- with its version, and the method exactly if the URL is one, and behind them the status, at 16 bits,
  -- exactly if Execute returns a response, which is then that of the response.
  pub execute_span-tags :
      (hostname : Answer String) (em : EntityManager) (method entity_path : String)
      (body : Option String) (s : S)
      → (execute_span {R = R} web hostname em method entity_path body s).tags
        ≡ (manager_span {R = R} hostname "sb.EntityManger.Execute").tags
          ++ (url_tags web (web.parse_url (request_url em entity_path)) method
              ++ status_tags (execute web em method entity_path body s).1)
  unfolding execute_span execute prepare send_request send_span request_url
  execute_span-tags hostname em method entity_path body s =
      let base = (manager_span {R = R} hostname "sb.EntityManger.Execute").tags in
      elim (Answer-cases (web.parse_url (request_url em entity_path))) [
        | inl (e, h) ↦ ground (arith, append-nil base)
        | inr (url, h) ↦ ground (arith, with_url hostname method url body s)
      ]
