-- ===== src/Iterator/Pages.antt =====
-- What a page does to the peek iterator, and what the calls of Next then return (iterator.go).
use mathlib.Core.List.{Perm}
use azure_service_bus_go.Prelude.{
  ◌≡◌, ◌≢◌, refl, ◌∙◌, ap, Option-cases, inl, inr, Bool, true, false, some, List, ◌++◌, arith,
  if◌then◌else◌,
}
use azure_service_bus_go.Prelude.Int.{suc_int64}
use azure_service_bus_go.Amqp.Dynamic.{
  Value, null, Fields, Items, dict, items, get_field, item_list,
}
use azure_service_bus_go.Errors.{Response, Exec, ok, err, no_messages, ◌>>=◌, >>=-eq-ok}
use azure_service_bus_go.Message.{Message}
use azure_service_bus_go.Iterator.Options.{Channel, PeekIterator}
use azure_service_bus_go.Iterator.Page.{
  is_no_content, Server, Context, sequence_key, sort_by_sequence, last?, send_all, fetch_page,
  peek_request, answered, messages_of, rehydrate_all, store_page, get_next_page,
}
use azure_service_bus_go.Iterator.Order.{
  Ascending, AllUpTo, Ascending-last?, sort_by_sequence-Ascending, send_all-eq-ok,
}

-- How a page `ms` comes out of an answer: a map with an array under "messages", whose entries are
-- all read, and then put in ascending order of their sequence numbers.
pub record IsPage (server : Server) (r : Response) (ms : List Message) : Type 0 where
  pub val : Fields
  pub entries : Items
  pub unsorted : List Message
  pub value_is : r.value ≡ dict val
  pub messages_are : get_field "messages" val ≡ some (items entries)
  pub read : rehydrate_all server (item_list entries) ≡ ok unsorted
  pub same : Perm ms unsorted
  pub ascending : Ascending ms

unless_empty :
    (test : Bool) (x : Exec (List Message)) (ms : List Message)
    → (if test then err no_messages else x) ≡ ok ms
    → x ≡ ok ms
unless_empty true x ms h = cc
unless_empty false x ms h = h

module _ (server : Server) where
  messages_of-eq-ok :
      (v : Value) (ms : List Message)
      → messages_of server v ≡ ok ms
      → (es : Items) × (ms' : List Message) × (v ≡ items es)
        × (rehydrate_all server (item_list es) ≡ ok ms')
        × (Ascending ms × Perm ms ms')
  unfolding messages_of
  messages_of-eq-ok (items es) ms h =
      let (ms', read, sorted) =
        >>=-eq-ok (rehydrate_all server (item_list es)) sort_by_sequence h in
      (es, ms', refl, read, sort_by_sequence-Ascending ms' ms sorted)
  messages_of-eq-ok null ms h = cc
  messages_of-eq-ok _ ms h = cc

  answered-eq-ok :
      (v : Value) (ms : List Message)
      → answered server v ≡ ok ms
      → (val : Fields) × (raw : Value) × (v ≡ dict val)
        × (get_field "messages" val ≡ some raw)
        × (messages_of server raw ≡ ok ms)
  unfolding answered
  answered-eq-ok (dict val) ms h = elim (Option-cases (get_field "messages" val)) [
    | inl e ↦ absurd (let h' = rw (e, answered) at h in cc)
    | inr (raw, e) ↦ (val, raw, refl, e, (rw (e, answered) at h))
  ]
  answered-eq-ok null ms h = cc
  answered-eq-ok _ ms h = cc

  fetch_page-answer :
      (ctx : Context) (pi : PeekIterator Message) (buffer : Channel Message) (ms : List Message)
      → fetch_page server ctx pi buffer ≡ ok ms
      → (r : Response) × (server.retryable_rpc (peek_request ctx pi buffer) ≡ ok r)
        × (answered server r.value ≡ ok ms)
  unfolding fetch_page
  fetch_page-answer ctx pi buffer ms h =
      let request = peek_request ctx pi buffer in
      let linked : (server.retryable_rpc request >>= (λ rsp.
        if is_no_content rsp.code then err no_messages else answered server rsp.value))
          ≡ ok ms =
        ground arith in
      let (r, called, e) = >>=-eq-ok (server.retryable_rpc request) _ linked in
      (r, called, unless_empty (is_no_content r.code) (answered server r.value) ms e)

  fetch_page-eq-ok :
      (ctx : Context) (pi : PeekIterator Message) (buffer : Channel Message) (ms : List Message)
      → fetch_page server ctx pi buffer ≡ ok ms
      → (r : Response) × (server.retryable_rpc (peek_request ctx pi buffer) ≡ ok r)
        × IsPage server r ms
  fetch_page-eq-ok ctx pi buffer ms h =
      let (r, called, e) = fetch_page-answer ctx pi buffer ms h in
      let (val, raw, value_is, at, e') = answered-eq-ok r.value ms e in
      let (es, ms', raw_is, read, sorted) = messages_of-eq-ok raw ms e' in
      (
        r,
        called,
        record {
          val = val;
          entries = es;
          unsorted = ms';
          value_is = value_is;
          messages_are = at ∙ ap some raw_is;
          read = read;
          same = sorted.1;
          ascending = sorted.0;
        },
      )

store_page-eq-ok :
    (ctx : Context) (pi pi' : PeekIterator Message) (buffer : Channel Message) (ms : List Message)
    → store_page ctx pi buffer ms ≡ (pi', ok tt)
    → (m : Message) × (last? ms ≡ some m)
      × (pi' ≡ record pi {
        buffer = some (record buffer { queue = buffer.queue ++ ms });
        last_sequence_number = suc_int64 (sequence_key m);
      })
unfolding store_page
store_page-eq-ok ctx pi pi' buffer ms h =
    ground (arith, send_all-eq-ok ctx 0 buffer (send_all ctx 0 buffer ms).0 ms)

module _ (server : Server) where
  pub get_next_page-stored :
      (ctx : Context) (pi pi' : PeekIterator Message) (buffer : Channel Message)
      → get_next_page server ctx pi buffer ≡ (pi', ok tt)
      → (r : Response) × (ms : List Message) × (m : Message) × (server.retryable_rpc
            (peek_request ctx pi buffer)
          ≡ ok r)
        × IsPage server r ms
        × (last? ms ≡ some m)
        × (pi' ≡ record pi {
          buffer = some (record buffer { queue = buffer.queue ++ ms });
          last_sequence_number = suc_int64 (sequence_key m);
        })
  unfolding get_next_page
  get_next_page-stored ctx pi pi' buffer h =
      let fetched : (ms : List Message) × (fetch_page server ctx pi buffer ≡ ok ms)
          × (store_page ctx pi buffer ms ≡ (pi', ok tt)) =
        ground arith in
      let (ms, e, stored) = fetched in
      let (r, called, page) = fetch_page-eq-ok server ctx pi buffer ms e in
      let (m, last, pi'_is) = store_page-eq-ok ctx pi pi' buffer ms stored in
      (r, ms, m, called, page, last, pi'_is)

  -- A page that is fetched without error stands behind what the channel held, in ascending order of
  -- the sequence numbers. It holds exactly the messages of the answer to the request that names
  -- the last sequence number and the channel's capacity. The page has a last message, above whose
  -- sequence number no message of the page lies, and the iterator goes on at the number after it.
  pub get_next_page-eq-ok :
      (ctx : Context) (pi pi' : PeekIterator Message) (buffer : Channel Message)
      → get_next_page server ctx pi buffer ≡ (pi', ok tt)
      → (r : Response) × (ms : List Message) × (m : Message) × (server.retryable_rpc
            (peek_request ctx pi buffer)
          ≡ ok r)
        × IsPage server r ms
        × (last? ms ≡ some m)
        × AllUpTo (sequence_key m) ms
        × (pi' ≡ record pi {
          buffer = some (record buffer { queue = buffer.queue ++ ms });
          last_sequence_number = suc_int64 (sequence_key m);
        })
  get_next_page-eq-ok ctx pi pi' buffer h =
      let (r, ms, m, called, page, last, pi'_is) = get_next_page-stored ctx pi pi' buffer h in
      (r, ms, m, called, page, last, Ascending-last? ms m page.ascending last, pi'_is)

  -- A call of getNextPage that does not end without error leaves the last sequence number and the
  -- entity alone, whatever went wrong.
  pub get_next_page-failed :
      (ctx : Context) (pi : PeekIterator Message) (buffer : Channel Message)
      → (get_next_page server ctx pi buffer).1 ≢ ok tt
      → ((get_next_page server ctx pi buffer).0.last_sequence_number ≡ pi.last_sequence_number)
        × ((get_next_page server ctx pi buffer).0.entity ≡ pi.entity)
  unfolding get_next_page store_page
  get_next_page-failed ctx pi buffer h = ground arith
