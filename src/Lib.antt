-- ===== src/Lib.antt =====
-- wstester: a websocket test bench for a market data protocol. A server publishes table responses to
-- clients; between them stand caches, which keep the state of a table, and channels, which hand
-- responses on.
--
-- * Prices (utils/common.go: UniPriceSearch, UniPriceAdd, UniPriceRemove): the sorted price lists.
-- * Sets (utils/set_float.go, utils/set_string.go): the sets, one definition for both key types.
-- * Slices (utils/slice.go): RangeSlice, Slice and ReverseFloat64Slice, the last of which the order book
--   uses, where Mbl takes the library's reverse for it.
-- * Mbl (utils/cache_mbl.go, models/mbl.go): the order book cache. Mbl has its types and
--   handleDelete, handleInsert, handleUpdate; Mbl.View the quotes, depths and snapshots; Mbl.Apply
--   applyData and dispatchRsp; Mbl.Apply.Merge handlePartial and handleInput. Mbl.Level and Mbl.Sound
--   prove the invariant, Mbl.Faults what breaks it, Mbl.Top and Mbl.Feed what a client of a
--   depth-limited channel sees, Mbl.Snapshot what a snapshot leaves in the cache that is filled with it.
-- * Trade (utils/cache_trade.go) and Instruments (utils/cache_instrument.go): the other two caches.
-- * Channels (utils/channel.go: rspChannel) and Tables (utils/cache.go: tableCache): who gets what, and
--   the life of a channel and of a cache; Tables.Trades puts the trade cache behind the pipeline;
--   Tables.Made has the constructors of all three caches and NewDepthChannel.
-- * Heartbeat (models/heartbeat.go, heartbeatHandler of client/client.go, heartbeatLoop of
--   server/session.go): the counters of both ends.
-- * Linq (utils/linq.go): conditions and unions; Linq.Table: parseTable, parseColumns and the map that
--   GetFilter makes of a row.
-- * Client (client/client.go, client/config.go): topics; Client.Messages: the handlers of messages;
--   Client.Reading: the loop over what is read.
-- * Server (server/server.go): the sessions; Server.Subscribe: handleSubscribe with the goroutines that
--   it starts; Server.Upgrade, with server/session.go: ReadMessage and wsUpgrader; Server.Sending:
--   sendMessageLoop; Server.Args, of models/common.go: the arguments of a request.
-- * Wire (client/client.go and server/server.go together): the client's connection and the server's
--   answers to it; Wire.Query reads a query as net/url does.
-- * Prelude has the shared types and lemmas, Examples the theorems at small inputs.
--
-- A message travels so: a cache's pipeline is handled in order (Tables.run, and handle_input of each
-- cache); what a cache publishes goes to its channels (published of the cache's record, publish_data of
-- Channels), whose loop hands it to destinations and child channels (Channels.handle).
--
-- Code that can panic returns a Run, whose panic stands for an index out of range, a nil pointer or
-- map, a nil function, or a write to a closed Go channel. A Go map is an association list; a loop over a
-- map takes the list's order, and what is proved holds for every list; GetFilter's loop over the selected
-- columns takes its order as an argument. l2Cache of the order book may be nil, which its field made says. Prices and sizes are ticks and
-- contracts, natural numbers, which the floats hold exactly. Integers of the machine are not bounded,
-- but for historyCount, which wraps; lengths of slices stay far below.
--
-- What goroutines beside the modelled one do is a parameter: which destinations are read (reads of
-- Channels), which loops come to a breakpoint (pipeline_answers and channel_answers of Server.Subscribe),
-- and how many heartbeats and replies the loops of both ends still receive from channels without a buffer
-- (takes and sends of Server.Upgrade and Client.Reading). Where no one receives, the code waits for ever,
-- which the results have as a case of their own.
--
-- Fuel: search_loop takes n + 1 rounds for n entries and add_loop one round for each entry; both halve
-- a range that is at most as long, so that the fuel never runs out; the proofs in Prices.Search and
-- Prices.Insert carry that. reverse_loop needs a round for two entries. ws_loop and
-- message_handler take one round for each message, and so need more fuel than there are frames.
--
-- Not modelled: the websocket, JSON, logs, HTTP and timers (they are given as outcomes), the
-- interleaving of goroutines other than by the order of a queue's inputs, pointers that a cache shares
-- with the responses it was given, float rounding, and the packages kafka, mock and examples.
pub mod Prelude
pub mod Prices
pub mod Sets
pub mod Slices
pub mod Mbl
pub mod Trade
pub mod Instruments
pub mod Channels
pub mod Tables
pub mod Heartbeat
pub mod Linq
pub mod Client
pub mod Server
pub mod Wire
pub mod Examples
