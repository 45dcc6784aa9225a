-- ===== src/Iterator/Peeking.antt =====
-- Calls of Next on the peek iterator over several pages (iterator.go).
use azure_service_bus_go.Prelude.{
  ℕ, zero, suc, ◌≡◌, refl, String, false, ◌&&◌, List, [], ◌∷◌, ◌++◌, map, length, arith,
}
use azure_service_bus_go.Prelude.Int.{ℤ}
use azure_service_bus_go.Errors.{Error, ok, err}
use azure_service_bus_go.Message.{Message}
use azure_service_bus_go.Iterator.Options.{PeekIterator}
use azure_service_bus_go.Iterator.Page.{Server, Context, get_next_page}
use azure_service_bus_go.Iterator.Fetch.{next, nexts}
use azure_service_bus_go.Iterator.Order.{AllFrom, AllFrom-mono, Ascending}
use azure_service_bus_go.Iterator.Ascent.{
  AllBelow, Ascending-append, AllFrom-later, get_next_page-Page,
}
use azure_service_bus_go.Iterator.Drain.{holding, next-holding, next_after_page}

-- A page: its first message, the others, and the number from which the next request starts.
pub record Fetched : Type 0 where
  pub first : Message
  pub rest : List Message
  pub last : ℤ

abbrev pub messages_in : List Fetched → List Message
messages_in [] = []
messages_in (p ∷ pages) = p.first ∷ (p.rest ++ messages_in pages)

-- The number after all pages, where the first request starts from `last`.
abbrev pub end_of : ℤ → List Fetched → ℤ
end_of last [] = last
end_of last (p ∷ pages) = end_of p.last pages

-- `n` calls under one context.
abbrev pub calls : ℕ → Context → List Context
calls zero ctx = []
calls (suc n) ctx = ctx ∷ calls n ctx

module _ (server : Server) (ctx : Context) (entity : String) (capacity : ℕ) where
  -- An iterator with nothing in its channel gets these pages, one after another.
  abbrev pub Chain : ℤ → List Fetched → Type 0
  Chain last [] = Unit
  Chain last (p ∷ pages) =
      (get_next_page server ctx (holding entity capacity [] last)
          (record { capacity = capacity; queue = [] })
        ≡ (holding entity capacity (p.first ∷ p.rest) p.last, ok tt))
      × Chain p.last pages

  nexts-queue :
      (queue : List Message) (last : ℤ) (pages : List Fetched)
      → (ctx.ends && ctx.receive_cut) ≡ false
      → Chain last pages
      → nexts server
          (calls (length (queue ++ messages_in pages)) ctx)
          (holding entity capacity queue last)
        ≡ (holding entity capacity [] (end_of last pages), map ok (queue ++ messages_in pages))
  unfolding nexts
  nexts-queue [] last [] uncut chain = refl
  nexts-queue [] last (p ∷ pages) uncut (fetch, chain) =
      rw
        (next_after_page server ctx (holding entity capacity [] last) capacity p.first p.rest p.last
          refl fetch uncut)
        (rw (nexts-queue p.rest p.last pages uncut chain))
  nexts-queue (m ∷ queue) last pages uncut chain =
      rw (next-holding server entity capacity last ctx m queue uncut)
        (rw (nexts-queue queue last pages uncut chain))

  -- The messages of each page are at or above the number that its request names.
  abbrev pub Served : ℤ → List Fetched → Type 0
  Served last [] = Unit
  Served last (p ∷ pages) =
      AllFrom last (p.first ∷ p.rest) × AllBelow (p.first ∷ p.rest) × Served p.last pages

  messages_in-Ascending :
      (last : ℤ) (pages : List Fetched)
      → Chain last pages
      → Served last pages
      → Ascending (messages_in pages) × AllFrom last (messages_in pages)
  messages_in-Ascending last [] chain served = (tt, tt)
  messages_in-Ascending last (p ∷ pages) (fetch, chain) (from, below, served) =
      let page =
        get_next_page-Page server ctx entity capacity last p.last (p.first ∷ p.rest) fetch below in
      let (ascends, later) = messages_in-Ascending p.last pages chain served in
      let later' = AllFrom-mono page.greatest p.last (messages_in pages) page.goes_on later in
      (
        Ascending-append page.greatest (p.first ∷ p.rest) (messages_in pages) page.ascending
            page.up_to later' ascends,
        AllFrom-later last page.greatest p.first p.rest (messages_in pages) from page.up_to later',
      )

  -- Peeking to the end. An iterator with nothing in its channel, which gets the given pages, none of
  -- them empty, returns all their messages, one for a call of Next, in order and each once; the
  -- next request starts from the last page's end, and where it fails, the call of Next returns its
  -- error. If the server gives no message below the number that a request names, and numbers below
  -- the largest of int64, the messages come in ascending order over all pages. (All calls are under
  -- one context, which does not end while a call receives.)
  pub nexts-messages_in :
      (last : ℤ) (pages : List Fetched) (pi : PeekIterator Message) (e : Error)
      → (ctx.ends && ctx.receive_cut) ≡ false
      → Chain last pages
      → Served last pages
      → get_next_page server ctx
          (holding entity capacity [] (end_of last pages))
          (record { capacity = capacity; queue = [] })
        ≡ (pi, err e)
      → (nexts server (calls (length (messages_in pages)) ctx) (holding entity capacity [] last)
          ≡ (holding entity capacity [] (end_of last pages), map ok (messages_in pages)))
        × (next server ctx (holding entity capacity [] (end_of last pages)) ≡ (pi, err e))
        × Ascending (messages_in pages)
  unfolding next
  nexts-messages_in last pages pi e uncut chain served failed = (
    nexts-queue [] last pages uncut chain,
    ground arith,
    (messages_in-Ascending last pages chain served).0,
  )
