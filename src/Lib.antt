-- ===== src/Lib.antt =====
-- A model of the client library, a Discord API wrapper in C (source/wineberry/discord and
-- include/wineberry/discord), by shallow embedding.
--
-- The parts and their files:
-- - Prelude: shared names, Boolean tests, lists measured by native numbers, signed integers.
-- - Chash: the interface of the hash table that several parts use (chash.h, not in the repository),
--   and an association list that meets it.
-- - Refcount (winecord-refcount.c): the reference counter. A state is the table and the effects of
--   the cleanups so far; Refcount.incr_no_lock is _winecord_refcounter_incr_no_lock, and so on.
--   Refcount/Entry is the machine of one entry; Entry, Bounds, Cleanup and Ledger hold the proofs,
--   and Visits those about data that is held while callbacks run.
-- - Gateway (winecord-gateway.c, winecord-gateway_dispatch.c): the session with Discord's gateway.
--   Gateway/Event reads event names, Close holds what ends a connection, Send and Receive the frames,
--   Connect the beginning and end of a session. Life, Frames, Buffers and Retry hold the proofs.
--   Gateway.Receive.on_text is _ws_on_text, Gateway.Connect.start is winecord_gateway_start.
-- - Fifo: the interface of the intrusive queue (queue.h, not in the repository), and lists that meet
--   it.
-- - Rest (winecord-rest_ratelimit.c, winecord-rest_request.c): the rate limiter with its buckets, and
--   the requests that wait in them. A state is the table of buckets, the queue of the pending ones, the
--   requests and what has gone out. Rest/Queueing puts requests and buckets into their queues and
--   selects the next request of each, Match reads the headers of a response, with the assertion on the
--   size of a bucket's hash, whose text is only logged, Transfer is
--   winecord_requestor_info_read and the dispatch of responses, Begin the beginning of a request.
--   Select, Pass, Again, Filter and Sound hold the proofs; Sound/History is the step relation of the REST
--   thread and its clients.
-- - Timer (winecord-timer.c): callbacks that run at a time, over the interface of the priority queue
--   (priority-queue.h, not in the repository). Timer/Trigger is how long the loops may sleep, Control
--   makes and changes timers, Run is winecord_timers_run. Due says when a timer is due and what of it is
--   stored; Due, Start and Fate hold the proofs, and Slots a queue that meets the
--   interface.
-- - Anomap: the interface of the ordered map (anomap.h, not in the repository), and sorted lists that
--   meet it; Anomap/Counts is how the changes that a map reports follow its entries.
-- - Cache (winecord-cache.c): the guilds and messages of each shard. A handler gives the new shards and
--   the calls of the reference counter that it makes; Cache.step is the handlers. Balance, History,
--   Collect, Stale and Lookup hold the proofs.
-- - Commands (winecord-messagecommands.c): the commands of messages. Commands/Words is which callback a
--   message finds, Release what becomes of the message.
-- - Once (winecord-once.c, winecord-worker.c): the initialisation of what all clients share, with its
--   counter and its failures; what libcurl, the thread pool and the system return is an argument.
--   Once/Counter and Effects hold the proofs.
-- - Rest/Key (winecord-rest_ratelimit.c): winecord_ratelimiter_build_key, the key of the bucket of a
--   request. Fits and Majors hold the lemmas, Shared says which requests share a key.
-- - Endpoint (winecord-rest.c and the files with a function for each endpoint of Discord): a function is
--   its checks, in their order, and then a request with its method, the length of its body, the reason
--   for the audit log, the format of its endpoint and the arguments of the format. Endpoint.rest_run is
--   winecord_rest_run. A module under Endpoint has the functions of one file; its Calls lists the calls
--   of them, and Endpoint/Calls those of all files.
-- - Voice (winecord-voice.c): the voice connections. Voice/Slots is the search for the slot of a guild,
--   Voice/Thread a connection and the thread that connects again. Slots/Chosen, Thread/Ends and
--   Thread/Close hold the proofs.
-- - Events (winecord-events.c): the callbacks and the intents. Events/Setters has a setter for each event,
--   Setters/Calls lists the calls of them, and Setters/History holds the proof. Events/Dispatch
--   (winecord-gateway_dispatch.c, winecord_cache_enable of winecord-cache.c) has the table of the structs
--   of the events and the handlers of the cache; Dispatch/Deliver is winecord_gateway_dispatch, which asks
--   the message commands first and holds the data in the reference counter while the callbacks run.
--   Parameters, Typed, Fit and Released hold the proofs, and Cached is the dispatch of a message to the
--   cache, whose calls the reference counter runs.
-- - Loop (winecord-loop.c): winecord_run. Loop.turn is a round up to the test of the status SHUTDOWN,
--   Loop.advance a round or an attempt to connect, and Loop.run_loop some of them. Waits and Ends hold
--   the proofs, and Wakeup has the wake-up timer.
-- - Client (winecord-client.c): the variables of the environment in a token. Client/Expand holds the
--   proofs.
--
-- The parts meet in the session: the loop runs the timers of the gateway and of the user, the REST
-- thread wakes buckets by timers, and a response hands its data to the reference counter. Each part is
-- modelled with what it reads of the others as arguments.
--
-- Every endpoint function ends in winecord_rest_run, which builds the key by which the rate limiter finds
-- the bucket of the request.
--
-- Bounds and fuel: `Timer.Run.visit` takes fuel, and is run with 2, which is enough whatever the
-- callbacks do; the loop of the timers has the bound of 100000 rounds that the code gives it.
-- `Client.parse_loop` takes fuel, and is run with one more than the length of the template. `digits` takes
-- the number of digits at most, 20 for an id of 64 bits. `Loop.run_loop` takes the number of attempts and
-- rounds, since winecord_run may run for ever; where it is shut down, every larger number gives the same.
-- Every other loop is a recursion on a list or a
-- number. The counter `visits` of the reference counter is tested against INT_MAX by the code;
-- `claims`, `retry.attempt`, `concurrent` and the times of timers are numbers without a bound, since
-- the code does not guard their increments and a signed overflow has no meaning in C. Timestamps of the
-- gateway and of voice connections are 64 bits wide where they are subtracted.
--
-- Not modelled: logging, JSON parsing and printing, sockets, curl handles, the allocation of memory,
-- and locks (each public operation holds its lock throughout, so a history is a sequence of
-- operations). Of the REST endpoints those with a query string have no model, nor have
-- winecord_get_channel_at_pos, and winecord_create_stage_instance and winecord_modify_stage_instance,
-- which call themselves with the wrong arguments. The audio of a voice connection and the client's glue
-- have no model.
pub mod Prelude
pub mod Chash
pub mod Anomap
pub mod Endpoint
pub mod Events
pub mod Fifo
pub mod Refcount
pub mod Gateway
pub mod Rest
pub mod Cache
pub mod Voice
pub mod Client
pub mod Commands
pub mod Loop
pub mod Once
pub mod Timer
