-- ===== src/Namespace/Configure/Strings.antt =====
-- The namespace that connection strings configure (namespace.go).
use mathlib.Core.Option.{get_or}
use azure_service_bus_go.Prelude.{
  ℕ, ◌≡◌, refl, ap, ◌∙◌, sym, inl, inr, Option, none, some, List, [], ◌∷◌, map, String, str_eq,
  if◌then◌else◌, Bool-cases, arith,
}
use azure_service_bus_go.Errors.{ok, got, Answer-cases}
use azure_service_bus_go.Namespace.{Namespace}
use azure_service_bus_go.Namespace.Configure.{
  Connection, Libraries, Configured, renamed, with_provider, with_connection,
  namespace_with_connection_string, apply_options, new_namespace,
}

-- Each string is read, and a token provider is made of its key.
pub data Read (lib : Libraries) : List String → List (Connection × ℕ) → Type 0 where
  no_more : Read lib [] []
  one_more :
      {text : String} {parsed : Connection} {provider : ℕ} {texts : List String}
      {read : List (Connection × ℕ)}
      → lib.parse text ≡ got parsed
      → lib.new_token_provider parsed.key_name parsed.key ≡ got provider
      → Read lib texts read
      → Read lib (text ∷ texts) ((parsed, provider) ∷ read)

abbrev or_else : {A : Type 0} → Option A → Option A → Option A
or_else (some a) b = some a
or_else none b = b

-- The namespace of the last string that names one, and the provider of the last string.
abbrev pub last_name : List (Connection × ℕ) → Option String
last_name [] = none
last_name ((parsed, _) ∷ read) =
    or_else (last_name read) (if str_eq parsed.namespace "" then none else some parsed.namespace)

abbrev pub last_provider : List (Connection × ℕ) → Option ℕ
last_provider [] = none
last_provider ((_, provider) ∷ read) = or_else (last_provider read) (some provider)

or_else-none : {A : Type 0} (a : Option A) → or_else a none ≡ a
or_else-none none = refl
or_else-none (some a) = refl

-- What the strings make of a namespace.
abbrev Outcome : Libraries → List String → Configured → Configured → Type 0
Outcome lib texts c c' =
    (read : List (Connection × ℕ)) × Read lib texts read
    × (c'.namespace ≡ record c.namespace { name = get_or (last_name read) c.namespace.name })
    × (c'.token_provider ≡ or_else (last_provider read) c.token_provider)

get_or-or_else :
    (d name : String) (o : Option String)
    → get_or o (if str_eq name "" then d else name)
      ≡ get_or (or_else o (if str_eq name "" then none else some name)) d
get_or-or_else d name (some n) = refl
get_or-or_else d name none = elim (Bool-cases (str_eq name "")) [
  | inl is ↦ rw is
  | inr not ↦ rw not
]

renamed-namespace :
    (name : String) (c : Configured)
    → (renamed name c).namespace
      ≡ record c.namespace { name = if str_eq name "" then c.namespace.name else name }
renamed-namespace name c = elim (Bool-cases (str_eq name "")) [ inl is ↦ rw is | inr not ↦ rw not ]

or_else_assoc :
    {A : Type 0} (a b : Option A) (x : A) → or_else (or_else a (some x)) b ≡ or_else a (some x)
or_else_assoc none b x = refl
or_else_assoc (some a) b x = refl

Outcome-cons :
    (lib : Libraries) (text : String) (texts : List String) (c c' : Configured)
    (parsed : Connection) (provider : ℕ)
    → lib.parse text ≡ got parsed
    → lib.new_token_provider parsed.key_name parsed.key ≡ got provider
    → Outcome lib texts (record (renamed parsed.namespace c) { token_provider = some provider }) c'
    → Outcome lib (text ∷ texts) c c'
Outcome-cons lib text texts c c' parsed provider good made (read, reads, name, token) = (
  (parsed, provider) ∷ read,
  one_more good made reads,
  name
      ∙ ap {B = Namespace} (λ ns. record ns { name = get_or (last_name read) ns.name })
          (renamed-namespace parsed.namespace c)
      ∙ ap {B = Namespace} (λ n. record c.namespace { name = n })
          (get_or-or_else c.namespace.name parsed.namespace (last_name read)),
  token ∙ sym (or_else_assoc (last_provider read) c.token_provider provider),
)

apply_options-Outcome :
    (lib : Libraries) (texts : List String) (c c' : Configured)
    → apply_options (map (namespace_with_connection_string lib) texts) c ≡ ok c'
    → Outcome lib texts c c'
unfolding apply_options namespace_with_connection_string with_connection with_provider
apply_options-Outcome lib [] c c' h =
    let same : c ≡ c' = cc in
    ([], no_more, ap (λ d. d.namespace) (sym same), ap (λ d. d.token_provider) (sym same))
apply_options-Outcome lib (text ∷ texts) c c' h = elim (Answer-cases (lib.parse text)) [
  | inl (e, bad) ↦ absurd (ground arith)
  | inr (parsed, good) ↦ elim (Answer-cases (lib.new_token_provider parsed.key_name parsed.key)) [
    | inl (e, bad) ↦ absurd (ground arith)
    | inr (provider, made) ↦ Outcome-cons lib text texts c c' parsed provider good made (
        apply_options-Outcome lib texts
          (record (renamed parsed.namespace c) { token_provider = some provider }) c'
          (ground arith))
  ]
]

-- Where NewNamespace makes a namespace from connection strings, each of them was read and gave a
-- token provider: the namespace has the name of the last string that names one, or none, the
-- provider of the last string, or none, and the endpoint suffix of the public cloud.
pub new_namespace-eq-ok :
    (lib : Libraries) (suffix : String) (texts : List String) (c : Configured)
    → new_namespace suffix (map (namespace_with_connection_string lib) texts) ≡ ok c
    → (read : List (Connection × ℕ)) × Read lib texts read
      × (c.namespace ≡ record { name = get_or (last_name read) ""; suffix = suffix })
      × (c.token_provider ≡ last_provider read)
unfolding new_namespace
new_namespace-eq-ok lib suffix texts c h =
    let (read, reads, name, token) = apply_options-Outcome lib texts _ c h in
    (read, reads, name, token ∙ or_else-none (last_provider read))
