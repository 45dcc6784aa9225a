-- ===== src/Lib.antt =====
-- A verification library of the Azure Service Bus client for Go (package servicebus).
--
-- The program. A Namespace names a Service Bus namespace and opens AMQP connections to it. A Queue
-- makes a sender and receivers on such connections. The sender stamps a Message, writes it as an amqp
-- message and sends it, and rebuilds its session and link where that fails. A receiver takes in amqp
-- messages, reads each as a Message, hands it to a handler and settles it. A peek iterator and a
-- MessageSession make requests over an RPC link instead. A Topic sends as a queue does, and a
-- Subscription of it receives as one. Where sessions are received, a SessionHandler is started and
-- ended around a receiver's listening. The entity managers put, list, get and delete the descriptions of
-- queues, topics and subscriptions at the management service, over HTTP.
--
-- Files and sources. A file and its children model one source file; record fields, constructors and
-- functions carry the Go names in snake case.
--   Amqp            the values and structs of pack.ag/amqp that the code reads and writes
--   Errors          errors.go, and results of calls: a value, an error, a panic, or a wait for ever;
--                   the texts of Error (Text)
--   Message         message.go: Set and ForeachKey (Properties, Carrier), the dispositions, the lock
--                   token, the struct tags (Tags, SystemTags), toMsg (ToAmqp) and newMessage (FromAmqp);
--                   what a tracer's Inject makes of it (Inject)
--   Iterator        iterator.go: the slice iterator, the peek options (Options), getNextPage (Page) and
--                   Next (Fetch); Order, Pages, Drain, Ascent and Peeking hold what is
--                   proved
--   Session         session.go
--   Namespace       namespace.go, and the calls of the AMQP client as a record, Broker; NewNamespace and
--                   the connection strings (Configure)
--   Sender          sender.go: newSessionAndLink, Recover, newSender; Send and trySend (Send)
--   Receiver        receiver.go: newSessionAndLink, Recover, newReceiver; handleMessage and
--                   ReceiveOne (Handle); the goroutines that Listen starts (Listen)
--   Rpc             the calls of the RPC link as a record
--   MessageSession  message_session.go; the end of ReceiveOneSession of queue.go and subscription.go
--                   (Process)
--   Queue           queue.go: NewQueue, ensureSender, ensureReceiver, Close, Peek, PeekOne; Send; ScheduleAt
--                   and CancelScheduled (Schedule); ReceiveOne, Receive, ReceiveOneSession and
--                   ReceiveSessions (Receive); lockrenewal.go (Renewal); calls of ensureSender by many
--                   goroutines at once (Concurrent), and calls of ReceiveOneSession (Overlap); a message on
--                   its way to a handler (Transit)
--   Management      mgmt.go; what the three managers have in common, from queue_manager.go (Entities);
--                   a store of descriptions as their abstract view (Store) and a server that keeps
--                   one and fills in its defaults (Server)
--   QueueManager, TopicManager, SubscriptionManager
--                   the options of a description, and the manager's operations (Requests)
--   Topic           topic.go
--   Subscription    subscription.go; what receives (Receive)
--   Tracing         tracing.go, and the spans of Execute and of handleMessage
--   Prelude, Tests  shared helpers; concrete runs
--
-- State. A method takes its receiver's state and returns it with the result, of type Exec, or an
-- Option Error where Go returns an error alone. A nil pointer or map is none, and its dereference is a
-- panic. A Go map with string keys is a list of entries, or Fields inside a Value; a walk goes in the
-- order of that list. Listen is a relation Step, in which the two goroutines, the broker and the
-- context move one at a time in any order. So are the runs of many calls of ensureSender and of
-- ReceiveOneSession, of which each moves from one access to the mutex or to a shared field to the next.
--
-- Bounds. Sequence numbers wrap at 64 bits and the counter of a session at 32; other integers keep
-- their range by what the code does with them. The loop of trySend runs on fuel, one unit for a round,
-- since the source bounds it by its context alone; the caller gives more fuel than there are rounds that
-- are retried. ReceiveSessions runs on fuel as well, one unit for a session. Every other loop is a
-- recursion on a list.
--
-- Parameters. Code of other packages is an argument: amqp.NewMessage, mapstructure.Decode, the tracer's
-- Inject, MarshalBinary and UnmarshalBinary, the AMQP client (Broker), the RPC link (Rpc, and Server of
-- Iterator.Page), uuid.NewV4, time.Now, amqp.Client.Close, the connection string parser and token
-- provider (Libraries), HTTP (Web) and XML (Xml). The answer of a call is a function of its
-- arguments or is given for each round.
--
-- Not modelled: logging, which changes no state of the client; the finishing of spans; delays
-- between retries, which only pass time; the mutexes, but for those of a queue in Concurrent and
-- Overlap, as each guards one assignment; the closing of response bodies; the fields of descriptions
-- that no option writes; a page size that make refuses, and the memory that a large one takes; what
-- a panic of a handler does to the goroutine that calls it. In Listen a message is taken from the
-- channel and handled in one step. Send of the AMQP client is asked for every round of the loop of
-- trySend, also where the sender's pointer to it is nil, which a queue never keeps. An error with a formatted text is kept as the arguments of its format.
pub mod Prelude
pub mod Amqp
pub mod Errors
pub mod Message
pub mod Iterator
pub mod Session
pub mod Namespace
pub mod Sender
pub mod Receiver
pub mod Rpc
pub mod MessageSession
pub mod Queue
pub mod Management
pub mod QueueManager
pub mod TopicManager
pub mod SubscriptionManager
pub mod Topic
pub mod Subscription
pub mod Tracing
pub mod Tests
