-- ===== src/Lib.antt =====
-- uActor: the publish/subscribe core of an actor runtime for small devices, and its connections.
--
-- Actors exchange publications, maps from attribute names to values. A subscription is a filter, a
-- list of constraints on attributes, with a priority and a scope. The router of a node keeps all
-- subscriptions and, for each attribute, an index of the constraints on it; a published message is
-- counted against the indexes and handed to the receivers of the matching subscriptions of the highest
-- priority. Nodes are connected by byte streams: a framer cuts a stream into publications, a forwarding
-- strategy decides which of them are accepted and passed on, and subscription processors decide what
-- a node tells a peer of its subscriptions. The code of actors is kept in a store, which an actor
-- fills and asks other nodes for. An executor takes messages from its receiver at the router, hands
-- them to the queues of its actors, and lets ready actors handle one message each in turn; the
-- topology manager is an actor that asks for connections to announced peers.
--
-- Files and the code that they model; all paths are below uActor/:
--   Publication, Publication/Sharing: include/pubsub/publication.hpp and src/pubsub/publication.cpp,
--     attribute maps as association lists, publication objects as handles to shared maps on a heap.
--   Constraint, Constraint/Predicates, Constraint/TextMatch, Constraint/Affixes:
--     include/pubsub/constraint.hpp and src/pubsub/constraint.cpp; a string's find is modelled by its
--     documented behaviour, and its compare with the exception that it throws behind the end.
--   Filter, Filter/Encoding: include/pubsub/filter.hpp, src/pubsub/filter.cpp,
--     include/pubsub/internal_filter.hpp.
--   Arguments, ActorIdentifier: subscription_arguments and actor_identifier in include/pubsub and
--     src/pubsub.
--   Index: include/pubsub/constraint_index.hpp, with insert, remove and check.
--   Subscription: include/pubsub/subscription.hpp.
--   Router: publish and publish_internal of src/pubsub/router.cpp; Router/Meta: find_sub_id, the
--     messages about subscriptions, and meta subscriptions; Router/Change: add_subscription and
--     remove_subscription; Router/Change/Replay: subscription_lists_for.
--   Remote/Framer: src/remote/stream_publication_framer.cpp.
--   Remote/Writing: write and write_handler of src/remote/tcp_forwarder.cpp.
--   Remote/Forwarding: src/remote/sequence_number_forwarding_strategy.cpp and
--     include/remote/sequence_info.hpp.
--   Remote/Processors: include/remote/subscription_processors.
--   CodeStore: src/actor_runtime/code_store.cpp; CodeStoreActor: src/actor_runtime/code_store_actor.cpp.
--   Receiver: include/pubsub/receiver.hpp and receiver_handle.hpp, and, from the root of the
--     repository, uActor-POSIX/src/receiver.cpp.
--   Runtime, Runtime/Methods, Runtime/Reception: include/actor_runtime/managed_actor.hpp and
--     src/actor_runtime/managed_actor.cpp; Runtime/Executor, Runtime/Executor/Loop:
--     include/actor_runtime/executor.hpp.
--   Topology: src/controllers/topology_manager.cpp.
-- Prelude has the shared names and lemmas, Float the comparisons of IEEE 754 bit patterns, and Examples
-- applies the theorems to concrete inputs.
--
-- Conventions: a method is a function from a state to a state and a result; the locks make methods
-- atomic. A pointer to a subscription is its identifier. Reads that would throw or be undefined give
-- `none`. 32-bit counters wrap where the code relies on it; identifiers of subscriptions and nodes do
-- not wrap. The loop of the framer runs on fuel: a byte takes at most three rounds, so that
-- three times the number of bytes and two more are enough, which the refinement theorem shows. The
-- loop of an executor over the messages of its receiver runs on fuel too; it need not end, as an actor
-- that is spawned in it may spawn another. A round that has run out of fuel is told apart from every
-- other result; fuel for as many messages as are queued is enough where none of them is for the
-- executor itself. What an actor does with
-- a message is a program of calls of its wrapper, a tree with a branch for each value that a call
-- returns. The engine that runs actors of a language is a record of such programs, and the world
-- that the calls change is a parameter of the actor, for which the executor stands in.
-- Allocators, logging, timing for benchmarks and memory limits are left out.
--
-- Not modelled: the MessagePack encoding of publications, which is a library's and a parameter of the
-- framer; the bounded queue of receivers on the ESP32; the parsing of filters from maps; the
-- handshake of connections, sockets and threads; the deployment manager; the bindings to Lua,
-- WebAssembly and V8, whose engines are parameters of the actors; the platforms.
pub mod Prelude
pub mod Publication
pub mod Float
pub mod Constraint
pub mod Filter
pub mod Arguments
pub mod Index
pub mod Subscription
pub mod ActorIdentifier
pub mod Router
pub mod Remote
pub mod CodeStore
pub mod Receiver
pub mod Runtime
pub mod Topology
pub mod CodeStoreActor
pub mod Examples
