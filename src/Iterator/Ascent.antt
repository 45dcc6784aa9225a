-- ===== src/Iterator/Ascent.antt =====
-- The order of the messages of several pages (iterator.go).
use mathlib.Core.Path.{subst}
use azure_service_bus_go.Prelude.{
  ℕ, ◌<◌, ◌≡◌, ap, sym, ◌∙◌, String, some, List, [], ◌∷◌, ◌++◌, arith,
}
use azure_service_bus_go.Prelude.Int.{ℤ, ◌≤ℤ◌, pos_part, max_int64, suc_int64, lt-suc_int64}
use azure_service_bus_go.Errors.{ok}
use azure_service_bus_go.Message.{Message}
use azure_service_bus_go.Iterator.Page.{Server, Context, sequence_key, last?, get_next_page}
use azure_service_bus_go.Iterator.Order.{AllUpTo, AllFrom, AllFrom-mono, Ascending, Ascending-last?}
use azure_service_bus_go.Iterator.Pages.{get_next_page-stored}
use azure_service_bus_go.Iterator.Fetch.{buffer_of}
use azure_service_bus_go.Iterator.Drain.{holding}

-- The sequence numbers are below the largest of int64.
abbrev pub AllBelow : List Message → Type 0
AllBelow [] = Unit
AllBelow (m ∷ ms) = (pos_part (sequence_key m) < max_int64) × AllBelow ms

last?-AllBelow :
    (ms : List Message) (m : Message)
    → AllBelow ms
    → last? ms ≡ some m
    → pos_part (sequence_key m) < max_int64
last?-AllBelow [] m all e = absurd (let h = e in cc)
last?-AllBelow (x ∷ []) m (below, all) e = let p : x ≡ m = cc in rw (← p) below
last?-AllBelow (x ∷ y ∷ ms) m (below, all) e = last?-AllBelow (y ∷ ms) m all e

AllFrom-append : (n : ℤ) (xs ys : List Message) → AllFrom n xs → AllFrom n ys → AllFrom n (xs ++ ys)
AllFrom-append n [] ys h h' = h'
AllFrom-append n (x ∷ xs) ys (p, h) h' = (p, AllFrom-append n xs ys h h')

pub Ascending-append :
    (n : ℤ) (xs ys : List Message)
    → Ascending xs
    → AllUpTo n xs
    → AllFrom n ys
    → Ascending ys
    → Ascending (xs ++ ys)
Ascending-append n [] ys h up from h' = h'
Ascending-append n (x ∷ xs) ys (f, h) (u, up) from h' = (
  AllFrom-append (sequence_key x) xs ys f (AllFrom-mono (sequence_key x) n ys u from),
  Ascending-append n xs ys h up from h',
)

-- What a page leaves for those behind it.
pub record Page (ms : List Message) (start : ℤ) : Type 0 where
  pub greatest : ℤ
  pub ascending : Ascending ms
  pub up_to : AllUpTo greatest ms
  pub goes_on : greatest ≤ℤ start

pub get_next_page-Page :
    (server : Server) (ctx : Context) (entity : String) (capacity : ℕ) (last next : ℤ)
    (ms : List Message)
    → get_next_page server ctx
        (holding entity capacity [] last)
        (record { capacity = capacity; queue = [] })
      ≡ (holding entity capacity ms next, ok tt)
    → AllBelow ms
    → Page ms next
get_next_page-Page server ctx entity capacity last next ms h below =
    let (r, page, m, called, is, last_is, stored) =
      get_next_page-stored server ctx (holding entity capacity [] last)
        (holding entity capacity ms next) (record { capacity = capacity; queue = [] }) h in
    let same : ms ≡ page = ap (λ pi. (buffer_of pi).queue) stored in
    let start : next ≡ suc_int64 (sequence_key m) = ap (λ pi. pi.last_sequence_number) stored in
    let last' : last? ms ≡ some m = ap last? same ∙ last_is in
    let lt = lt-suc_int64 (sequence_key m) (last?-AllBelow ms m below last') in
    let ascends : Ascending ms = (rw same is.ascending) in
    record {
      greatest = sequence_key m;
      ascending = ascends;
      up_to = Ascending-last? ms m ascends last';
      goes_on = subst (λ x. sequence_key m ≤ℤ x) (sym start) (omega arith);
    }

pub AllFrom-later :
    (last n : ℤ) (x : Message) (xs ys : List Message)
    → AllFrom last (x ∷ xs)
    → AllUpTo n (x ∷ xs)
    → AllFrom n ys
    → AllFrom last ((x ∷ xs) ++ ys)
AllFrom-later last n x xs ys (p, from) (u, up) later =
    (p, AllFrom-append last xs ys from (AllFrom-mono last n ys (omega arith) later))
