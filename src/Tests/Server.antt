-- ===== src/Tests/Server.antt =====
-- A server of the entity managers that keeps a switch under each of two names. A switch that is not
-- set is turned on where it is put.
use azure_service_bus_go.Prelude.{
  ◌≡◌, refl, inl, inr, Bool, true, false, Option, none, some, List, [], String, str_eq,
  if◌then◌else◌, Bool-cases, eq_iff,
}
use Prim.Native.String.{◌++◌ as ◌<>◌}
use mathlib.Core.Path.{subst}
use azure_service_bus_go.Errors.{Error, got, failed, foreign}
use azure_service_bus_go.Management.{
  Url, HttpRequest, HttpResponse, Web, Entry, Xml, EntityManager, trim_slash, xml_doc,
}
use azure_service_bus_go.Management.Entities.{entry_to_entity}
use azure_service_bus_go.Management.Store.{Store, update}
use azure_service_bus_go.Management.Server.{request, IsTextOf, Shows, Serves}

abbrev pub Switch : Type 0
Switch = Option Bool

-- What the server holds under "q" and under "r".
abbrev pub Held : Type 0
Held = Option Switch × Option Switch

abbrev pub contents : Held → Store Switch
contents (q, r) k = if str_eq "q" k then q else if str_eq "r" k then r else none

pub data IsName : String → Type 0 where
  is_q : IsName "q"
  is_r : IsName "r"

abbrev digit_of : Switch → String
digit_of none = ""
digit_of (some true) = "1"
digit_of (some false) = "0"

-- The service's default.
abbrev pub filled : Switch → Switch
filled none = some true
filled (some b) = some b

abbrev text_of : String → Switch → String
text_of name none = if str_eq name "q" then "q" else "r"
text_of name (some true) = if str_eq name "q" then "q1" else "r1"
text_of name (some false) = if str_eq name "q" then "q0" else "r0"

abbrev entry : String → Switch → Entry Switch
entry name d = record {
  atom = some (record { title = name; atom_schema = "" });
  content = some (record { content_type = "application/xml"; description = d });
}

abbrev pub xml : Xml Switch
xml = record {
  header = "";
  marshal = λ e. elim e.content [ none ↦ got "" | some c ↦ got (digit_of c.description) ];
  unmarshal_entry = λ t.
      if str_eq t "q1"
      then got (entry "q" (some true))
      else if str_eq t "q0"
      then got (entry "q" (some false))
      else if str_eq t "q"
      then got (entry "q" none)
      else if str_eq t "r1"
      then got (entry "r" (some true))
      else if str_eq t "r0"
      then got (entry "r" (some false))
      else if str_eq t "r"
      then got (entry "r" none)
      else failed (foreign "EOF");
  unmarshal_feed = λ t. failed (foreign "EOF");
  unmarshal_queue_feed = λ t. got (some "Publicly Listed Services");
  unmarshal_error = λ t. failed (foreign "EOF");
}

abbrev answer : String → HttpResponse
answer text = record { status_code = 200; body = got text }

abbrev shown : String → Option Switch → HttpResponse
shown name none = answer ""
shown name (some d) = answer (text_of name d)

abbrev hold : String → Option Switch → Held → Held
hold name v (q, r) = if str_eq name "q" then (v, r) else (q, v)

abbrev switch_of : Option String → Switch
switch_of none = none
switch_of (some t) = if str_eq t "1" then some true else if str_eq t "0" then some false else none

abbrev perform : Held → HttpRequest → Held × Option HttpResponse × Option Error
perform s req =
    let name = req.url.base in
    if str_eq req.method "PUT"
    then (
      hold name (some (filled (switch_of req.body))) s,
      some (answer (text_of name (filled (switch_of req.body)))),
      none,
    )
    else if str_eq req.method "DELETE"
    then (hold name none s, some (answer ""), none)
    else (s, some (shown name (contents s name)), none)

abbrev pub web : Web Held
web = record {
  parse_url = λ t. got (record { base = t; query = [] });
  url_text = λ u. u.base;
  get_token = λ t. got "token";
  perform = perform;
}

abbrev pub em : EntityManager
em = record { host = "" }

abbrev url_of : String → Url
url_of name = record { base = name; query = [] }

parses : (name : String) → IsName name → web.parse_url ("" <> name) ≡ got (url_of name)
parses _ is_q = refl
parses _ is_r = refl

bare : (name : String) → IsName name → trim_slash name ≡ name
unfolding trim_slash
bare _ is_q = refl
bare _ is_r = refl

contents-hold :
    (name : String) (v : Option Switch) (s : Held)
    → IsName name
    → (k : String) → contents (hold name v s) k ≡ update name v (contents s) k
contents-hold _ v (q, r) is_q k = elim (Bool-cases (str_eq "q" k)) [
  | inl is ↦ rw is
  | inr not ↦ rw not
]
contents-hold _ v (q, r) is_r k = elim (Bool-cases (str_eq "r" k)) [
  | inl is ↦
      subst (λ k. contents (hold "r" v (q, r)) k ≡ update "r" v (contents (q, r)) k)
        ((eq_iff "r" k).0 is) refl
  | inr not ↦ rw not
]

is_text : (name : String) (d : Switch) → IsName name → IsTextOf xml name d (text_of name d)
unfolding entry_to_entity
is_text _ none is_q = (_, refl, refl)
is_text _ (some true) is_q = (_, refl, refl)
is_text _ (some false) is_q = (_, refl, refl)
is_text _ none is_r = (_, refl, refl)
is_text _ (some true) is_r = (_, refl, refl)
is_text _ (some false) is_r = (_, refl, refl)

shows : (name : String) (v : Option Switch) → IsName name → Shows xml name v (shown name v)
shows name none valid = inr (refl, ("", foreign "EOF", refl, refl, refl))
shows name (some d) valid = (refl, (text_of name d, refl, is_text name d valid))

-- The answer to a PUT.
abbrev Stored : Held → String → Switch → List (String × String) → Type 0
Stored s name d headers =
    let text = xml_doc "" (digit_of d) in
    let (s', res, e) = web.perform s (request "PUT" (url_of name) headers (some text)) in
    (r : HttpResponse) × (text : String) × (res ≡ some r)
    × (e ≡ none)
    × (r.body ≡ got text)
    × IsTextOf xml name (filled d) text
    × ((k : String) → contents s' k ≡ update name (some (filled d)) (contents s) k)

stored :
    (s : Held) (name : String) (d : Switch) (headers : List (String × String))
    → IsName name
    → Stored s name d headers
unfolding xml_doc
stored s name none headers valid = (
  _,
  _,
  refl,
  refl,
  refl,
  is_text name (some true) valid,
  contents-hold name (some (some true)) s valid,
)
stored s name (some true) headers valid = (
  _,
  _,
  refl,
  refl,
  refl,
  is_text name (some true) valid,
  contents-hold name (some (some true)) s valid,
)
stored s name (some false) headers valid = (
  _,
  _,
  refl,
  refl,
  refl,
  is_text name (some false) valid,
  contents-hold name (some (some false)) s valid,
)

pub serves : Serves web xml em contents filled IsName
serves = record {
  url_of = url_of;
  parses = parses;
  bare = bare;
  token = λ t. "token";
  tokens = λ t. refl;
  text_of = digit_of;
  marshals = λ d. refl;
  puts = λ s name d headers valid. stored s name d headers valid;
  gets = λ s name headers valid. (_, refl, refl, shows name (contents s name) valid, λ k. refl);
  deletes = λ s name headers valid. (refl, contents-hold name none s valid);
}
