-- ===== src/Iterator/Drain.antt =====
-- Calls of Next on the peek iterator, one after another (iterator.go).
use azure_service_bus_go.Prelude.{
  ℕ, ◌≡◌, refl, String, false, ◌&&◌, some, List, [], ◌∷◌, map, length, arith,
}
use azure_service_bus_go.Prelude.Int.{ℤ}
use azure_service_bus_go.Errors.{ok}
use azure_service_bus_go.Message.{Message}
use azure_service_bus_go.Iterator.Options.{PeekIterator}
use azure_service_bus_go.Iterator.Page.{Server, Context, get_next_page}
use azure_service_bus_go.Iterator.Fetch.{buffer_of, receive, next, nexts}

-- No context ends while its call receives.
abbrev pub AllUncut : List Context → Type 0
AllUncut [] = Unit
AllUncut (ctx ∷ ctxs) = ((ctx.ends && ctx.receive_cut) ≡ false) × AllUncut ctxs

abbrev pub holding : String → ℕ → List Message → ℤ → PeekIterator Message
holding entity capacity queue last = record {
  entity = entity;
  buffer = some (record { capacity = capacity; queue = queue });
  last_sequence_number = last;
}

module _ (server : Server) (entity : String) (capacity : ℕ) (last : ℤ) where
  pub next-holding :
      (ctx : Context) (m : Message) (queue : List Message)
      → (ctx.ends && ctx.receive_cut) ≡ false
      → next server ctx (holding entity capacity (m ∷ queue) last)
        ≡ (holding entity capacity queue last, ok m)
  unfolding next receive
  next-holding ctx m queue h = ground arith

  nexts-holding :
      (ctxs : List Context) (queue : List Message)
      → length queue ≡ length ctxs
      → AllUncut ctxs
      → nexts server ctxs (holding entity capacity queue last)
        ≡ (holding entity capacity [] last, map ok queue)
  unfolding nexts
  nexts-holding [] [] h uncut = refl
  nexts-holding [] (m ∷ queue) h uncut = absurd (omega arith)
  nexts-holding (ctx ∷ ctxs) [] h uncut = absurd (omega arith)
  nexts-holding (ctx ∷ ctxs) (m ∷ queue) h (u, uncut) =
      rw (next-holding ctx m queue u) (rw (nexts-holding ctxs queue (omega arith) uncut))

module _ (server : Server) where
  pub next_after_page :
      (ctx : Context) (pi : PeekIterator Message) (capacity : ℕ) (m : Message)
      (queue : List Message) (last : ℤ)
      → (buffer_of pi).queue ≡ []
      → get_next_page server ctx pi (buffer_of pi)
        ≡ (holding pi.entity capacity (m ∷ queue) last, ok tt)
      → (ctx.ends && ctx.receive_cut) ≡ false
      → next server ctx pi ≡ (holding pi.entity capacity queue last, ok m)
  unfolding next receive
  next_after_page ctx pi capacity m queue last none_left page h = ground arith

  -- Next called on an empty buffer fetches a page, and then as many calls as the page has messages
  -- return those messages one by one, in the page's order, with no further request: the calls after
  -- the first do not change the number that the next request starts from. (No context ends while
  -- its call receives.)
  pub nexts-get_next_page :
      (ctx : Context) (ctxs : List Context) (pi : PeekIterator Message) (capacity : ℕ) (m : Message)
      (queue : List Message) (last : ℤ)
      → (buffer_of pi).queue ≡ []
      → get_next_page server ctx pi (buffer_of pi)
        ≡ (holding pi.entity capacity (m ∷ queue) last, ok tt)
      → AllUncut (ctx ∷ ctxs)
      → length queue ≡ length ctxs
      → nexts server (ctx ∷ ctxs) pi ≡ (holding pi.entity capacity [] last, map ok (m ∷ queue))
  unfolding nexts
  nexts-get_next_page ctx ctxs pi capacity m queue last none_left page (u, uncut) h =
      rw (next_after_page ctx pi capacity m queue last none_left page u)
        (rw (nexts-holding server pi.entity capacity last ctxs queue h uncut))
