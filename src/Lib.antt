-- ===== src/Lib.antt =====
-- bsrvcore: the routing, the sessions, the cookies, the server tasks, and two parts of the
-- connections of an HTTP server library.
--
-- The program's parts. A server owns a route table (src/route) and a session map (src/session).
-- For each request a connection (src/connection/server) asks the table for a handler with its
-- aspects, limits and parameters, and runs them as a task; a handler may ask the map for the
-- session of a client; what the handler sends goes through the message queue of the connection. The
-- client side (src/connection/client) reads event streams with a parser of its own, and keeps the
-- cookies that servers set.
--
-- Base: shared names, the Boolean tests, lists over the native numbers, texts as lists of bytes,
--   and the 64-bit times of the clocks.
-- Route.Segments: src/route/include/internal/http_route_table_detail.h (StripQuery,
--   IsParameterSegment, ExtractParamName, SplitTargetSegments) and ExtractParamNames and
--   NormalizeRouteTemplate of http_route_table_match.cc. The loop runs on fuel, one round more
--   than the target has bytes, since each round takes a byte at least.
-- Route.Validator: src/route/impl/http_route_target_validator.cc. The regular expression is data,
--   boost::regex_match a parameter; Validator/Matcher holds one that can be run.
-- Route.Layer, Route.Registry: http_route_table_layer.cc, http_route_table_registry.cc. A layer is
--   a tree, an owned pointer is what it owns. `at_segments` is the walk of
--   GetOrCreateRouteTableLayer together with the caller's change of the layer that it finds.
--   Registry/Teardown is the destruction of a tree; its fuel is the number of layers.
-- Route.Match: http_route_table_match.cc, from RouteInternal down. parse_uri_reference is a
--   parameter.
-- Route.Mount, Route.Mount.Copy: http_route_table_mount.cc, the mount by move and the mount by
--   copy. Whether an object can be cloned, and to what, is a parameter of the latter.
-- Session.Heap: src/session/include_exported/bsrvcore/internal/session/detail/heap.h, a vector
--   whose element 0 is not used; both loops run on fuel, the vector's length, since the index is
--   halved or doubled in each round.
-- Session.Map: session_map.cc and session_map_cleaner.cc. A call holds the lock, so it is one
--   step; Map/Calls runs any sequence of them. The readings of the clock are arguments; a time is
--   a 64-bit count that wraps, and a timeout is made one of those. The loop
--   of ThoroughClean runs on fuel, the heap's length, since each round takes an element off it.
--   A map is valid if its heap is ordered and has each session at its present expiry.
-- Connection.Sse: src/connection/client/sse_event_parser.cc. std::from_chars is a parameter. The
--   loop runs on fuel, one round more than the buffer has bytes.
-- Connection.Queue: stream_server_connection_message_queue.h. What runs on the strand is one step,
--   the end of a write is an event with its error code, and what a step sees of the connection is
--   an argument. Queue/Delivery runs any sequence of events. What a failed write put on the wire
--   does not count as delivered.
-- Connection.Text: the string helpers that several of those files repeat.
-- Connection.Cookies.Server: src/connection/server/server_set_cookie.cc, and the reading of a Cookie
--   header in http_server_task_detail.h and http_server_task_base.cc.
-- Connection.Cookies.Jar, Connection.Cookies.Time: SessionRequestAssembler of
--   src/connection/client/request_assembler.cc. A call holds the lock, so it is one step, and its
--   readings of the clock are arguments; a time is a 64-bit count that wraps. The loop of
--   SplitSetCookieTokens runs on fuel, one round more than the text has bytes.
-- Connection.Cookies.RoundTrip: what the server writes against what the client parses, keeps and
--   sends back.
-- Connection.Task: http_server_task_detail.h and http_server_task_lifecycle.cc, the life cycle of a
--   server task. Aspects and the handler are any functions on the shared state; the answers to the
--   checks of the server and the stream are arguments; the calls are listed in their order.
-- Route/Tests, Route/Mount/Tests, Session/Tests, Connection/Tests, Connection/Cookies/Tests,
-- Connection/Task/Tests: runs at concrete inputs.
--
-- Not modelled: allocation and its failures, capacities, what handlers and aspects do, the wake-up
-- of `Wait`; and the parts of the program that are input and output or glue: sockets, TLS, the
-- client's tasks, files, plugins, the C binding, the allocator. The configuration of bsrvrun,
-- multipart bodies and the life cycle of a connection are not modelled either.
pub mod Base
pub mod Route
pub mod Session
pub mod Connection
