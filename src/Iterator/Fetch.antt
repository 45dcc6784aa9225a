-- ===== src/Iterator/Fetch.antt =====
-- Next of the peek iterator (iterator.go).
use mathlib.Core.Option.{get_or}
use azure_service_bus_go.Prelude.{
  Bool, false, ◌&&◌, some, List, [], ◌∷◌, ◌==◌, length, if◌then◌else◌,
}
use azure_service_bus_go.Errors.{Exec, ok, err, panic, blocked, context_done}
use azure_service_bus_go.Message.{Message}
use azure_service_bus_go.Iterator.Options.{Channel, PeekIterator}
use azure_service_bus_go.Iterator.Page.{Server, Context, get_next_page}

-- A nil channel has no room and nothing in it.
abbrev pub buffer_of : PeekIterator Message → Channel Message
buffer_of pi = get_or pi.buffer (record { capacity = 0; queue = [] })

-- The select at the end of Next. Nobody sends while the caller waits.
unfoldable pub receive : Context → PeekIterator Message → PeekIterator Message × Exec Message
receive ctx pi = elim (buffer_of pi).queue [
  | [] ↦ if ctx.ends then (pi, err context_done) else (pi, blocked)
  | m ∷ rest ↦
      if ctx.ends && ctx.receive_cut
      then (pi, err context_done)
      else (record pi { buffer = some (record (buffer_of pi) { queue = rest }) }, ok m)
]

-- A peek iterator is never done.
unfoldable pub done : PeekIterator Message → Bool
done pi = false

module _ (server : Server) where
  unfoldable pub next : Context → PeekIterator Message → PeekIterator Message × Exec Message
  next ctx pi =
      if length (buffer_of pi).queue == 0
      then (let (pi', page) = get_next_page server ctx pi (buffer_of pi) in
          elim page [
            | ok _ ↦ receive ctx pi'
            | err e ↦ (pi', err e)
            | panic x ↦ (pi', panic x)
            | blocked ↦ (pi', blocked)
          ])
      else receive ctx pi

  -- A call of Next for each context, in order, and what the calls return.
  unfoldable pub nexts :
      List Context → PeekIterator Message → PeekIterator Message × List (Exec Message)
  nexts [] pi = (pi, [])
  nexts (ctx ∷ ctxs) pi =
      let (pi', r) = next ctx pi in let (pi'', rs) = nexts ctxs pi' in (pi'', r ∷ rs)
