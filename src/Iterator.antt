-- ===== src/Iterator.antt =====
-- iterator.go. MessageSliceIterator stands here; the peek iterator's options in the child Options,
-- its pages in Page, Next in Fetch, and what is proved of them in the others.
pub mod Options
pub mod Page
pub mod Fetch
pub mod Order
pub mod Pages
pub mod Drain
pub mod Ascent
pub mod Peeking
use azure_service_bus_go.Prelude.{
  ℕ, zero, suc, ◌+◌, ◌≤◌, ◌≡◌, leb, Bool, Option, none, some, List, length, get_elem?,
  if◌then◌else◌, arith, get_elem?-past, get_elem?_within, min,
}
use azure_service_bus_go.Errors.{Exec, ok, err, no_messages, at_index, ◌>>=◌}

-- A message pointer is of any type here. The cursor starts at 0 and only grows.
pub record MessageSliceIterator (P : Type 0) : Type 0 where
  pub target : List P
  pub cursor : ℕ

module _ {P : Type 0} where
  unfoldable pub as_message_slice_iterator : List P → MessageSliceIterator P
  as_message_slice_iterator target = record { target = target; cursor = 0 }

  unfoldable pub done : MessageSliceIterator P → Bool
  done ms = leb (length ms.target) ms.cursor

  unfoldable pub next : MessageSliceIterator P → MessageSliceIterator P × Exec P
  unfolding done
  next ms =
      if done ms
      then (ms, err no_messages)
      else (record ms { cursor = ms.cursor + 1 }, at_index (get_elem? ms.target ms.cursor))

  -- The iterator after `k` calls of Next.
  abbrev pub after : ℕ → MessageSliceIterator P → MessageSliceIterator P
  after zero ms = ms
  after (suc k) ms = after k (next ms).0

  after_lem :
      (k c : ℕ) (target : List P)
      → c ≤ length target
      → after k (record { target = target; cursor = c })
        ≡ record { target = target; cursor = min (c + k) (length target) }
  unfolding next
  after_lem zero c target h = ground arith
  after_lem (suc k) c target h = ground (arith, after_lem k c target, after_lem k (c + 1) target)

  -- The call of Next after `k` calls gives the element at index `k` of the slice, and ErrNoMessages
  -- from the slice's length on; Done is true exactly from there on.
  pub next-after :
      (target : List P) (k : ℕ)
      → ((next (after k (as_message_slice_iterator target))).1
          ≡ (elim (get_elem? target k) [ some m ↦ ok m | none ↦ err no_messages ]))
        × (done (after k (as_message_slice_iterator target)) ≡ leb (length target) k)
  unfolding as_message_slice_iterator next done
  next-after target k =
      rw (after_lem k 0 target (omega arith))
        (ground (arith, get_elem?-past target k, get_elem?_within target k))
