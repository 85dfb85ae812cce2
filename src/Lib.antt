-- ===== src/Lib.antt =====
-- A verification library for Broko, a message broker that speaks AMQP 0-9-1.
--
-- The program. The server accepts connections. A connection reads frames and hands their methods to
-- its channels; a channel calls the virtual host, which keeps the exchanges and queues by name. A
-- published message is routed by its exchange to queue names, and put into these queues; a queue
-- hands its messages to the consumers that are registered with it, expires them, and passes those
-- that died to the virtual host's dead-letter handler. A delivery is posted to the consumer's
-- connection, whose channel keeps it until it is acknowledged. What is durable is logged by the
-- message store, from which the virtual host is rebuilt at the next start. The user store decides
-- who may log in.
--
-- The files, and the code that they model.
--   Base            tests, lists, byte strings, integers and maps that all parts share
--   Amqp            src/amqp: Amqp/FieldValue has the struct FieldValue of types.h, Amqp/Buffer the
--                   integers and strings of its Buffer, Amqp/Table readFieldTable, readFieldValue,
--                   writeFieldTable and writeFieldValue, Amqp/Properties and Amqp/Content the
--                   struct BasicProperties of content.h, its decode and encode, Amqp/Frame frame.h,
--                   Amqp/Methods methods.h, a module for each of its namespaces
--   Broker/Exchange src/broker/exchange.h: addBinding, removeBinding, the four route functions;
--                   Broker/Exchange/Topic has splitDot and topicMatch
--   Broker/Message, Broker/Consumer
--                   src/broker/message.h and src/broker/consumer.h
--   Broker/Queue    src/broker/queue.h: all operations of MessageQueue; below it Dispatch has
--                   dispatchLocked, Expiry collectExpired and effectiveTtl, Sort the sort by
--                   priority, Stoll the std::stoll of an expiration
--   Broker/VirtualHost
--                   src/broker/vhost.h: State has the members and the constructor, Exchanges,
--                   Queues, Delivery, Cleanup and Recovery the operations, Snapshots the handler of
--                   dead letters and the snapshots; Requests makes a transition system of them
--   Broker/Channel  src/broker/channel.h and channel.cpp: State has the members and what a channel
--                   sends, Frames the bytes of that (sendMethodFrame, sendContentFrames),
--                   Publishing basic.publish and its content, Declaring the methods on exchanges
--                   and queues, Consuming qos, consume, cancel, get and the delivery to a consumer,
--                   Settling ack, reject, nack, recover and the end of a channel, Methods the
--                   dispatch of handleMethod
--   Broker/Connection
--                   src/broker/connection.h and connection.cpp: State has the members, Handshake
--                   the methods from Start to Close, Channels those that open and close channels,
--                   Methods handleFrame and the dispatch, Reading the reads of the socket,
--                   Heartbeat the timer, Writing the queue of writes; Events makes a transition
--                   system of them
--   Broker/Server   src/broker/server.h and server.cpp: the map of the connections; Events runs the
--                   events of all connections and the calls of the dead-letter handler on it
--   Broker/Stats    src/broker/stats_writer.h: jsonEscape, writeSnapshot
--   Broker/Auth     src/broker/auth.h: loadFromFile, verify, listUsers
--   Storage         src/storage/message_store.h: Storage/Entry has the entries and their payloads,
--                   Storage/Wal writeEntry, crc32, recoverLocked and compactIfNeeded on the bytes
--                   of the log, Storage/Store the operations of MessageStore
--   Tests           the theorems at concrete inputs, and runs of the code
-- Each of these has the proofs about it in modules below it.
--
-- Representation. A std::string and a vector of bytes are lists of numbers; a struct is a record;
-- a std::map is a sorted association list, an unordered map one in some order. A field value has
-- one constructor for each factory function of FieldValue. Machine integers are native numbers
-- with their wrap-around written out; `|` of disjoint bits is a sum. A float is its bit pattern; the
-- code keeps it in a double, which may make a signalling NaN quiet. Times are nanoseconds of the steady clock, and an operation that reads the clock takes the time;
-- one that makes a shared consumer takes its address, by which channel and queue name the same one.
-- An operation on an object is a function from the old state to the new one and its results; a
-- mutex makes each of them one step, so no finer interleaving is modelled. An exception is a value
-- of Result; the connection answers it by a Close and reads nothing more, so that what a handler
-- changed of its channel before it threw is dropped. The calls that a queue makes to others, to
-- consumers and to the dead-letter handler, are results of its operations; a consumer's callback is
-- modelled by whether it is set, and its delivery, which the code posts to the connection's strand,
-- is an event of the connection.
--
-- Loops are structural recursion, but for five that run on fuel. read_table gives a table twice
-- its number of bytes and two more, and running out would be the result `stuck`, which is none of
-- the code's errors. recover_loop gets the length of the log, as every round takes at least four
-- bytes. to_string gets 20 digits, as many as a 64-bit number has. chunk_loop gets one more than
-- the length of the body, as each of its rounds but the last takes a byte. The rounds of feed are
-- the number of reads that are made of an input.
--
-- Not modelled: the sockets and timers that call a connection and the server, start-up and signals
-- in src/main.cpp, the messages on the console, the opening, renaming and syncing of files, and
-- what fails in these. The messages that a virtual host puts into several queues are one object in
-- the code; here each queue has its own copy. The code runs the handler of dead letters inside the
-- operation that makes a queue call it, before the operation goes on to another queue; here the
-- operation returns the calls, and events of the server make them afterwards, newer ones first. The
-- events of a server end when it is stopped. The client in sdk, the demos and the web page are in
-- other languages.
pub mod Base
pub mod Amqp
pub mod Broker
pub mod Storage
pub mod Tests
