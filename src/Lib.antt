-- ===== src/Lib.antt =====
-- Verification of the C programs of kore.io_websocket, a collection of modules for the Kore web server.
-- Nine of its programs are modelled, each by a tree of modules.
--
-- websocket_9, a chat over websockets (modules under Websocket):
--   Websocket/Frame: `websocket_frame_build` of websocket_9/src/helper.c, byte by byte. Kore's
--     big-endian writers are the parameter `Wire` (Websocket/Wire).
--   Websocket/Decode: a peer's reader after RFC 6455, which is not code of the repository; the frames
--     are judged by it in Websocket/RoundTrip.
--   Websocket/Rooms: `kore_websocket_broadcast_room` and `kore_websocket_broadcast_room_char` over
--     Kore's list of connections. Their calls of Kore are a trace of effects.
--   Websocket/Sessions: the three websocket handlers of websocket_9/src/websocket_9.c with the counter
--     `ab`. `Step` is what Kore does between them, `Reach` its closure.
--
-- mediasoup, a client of a C++ media worker (modules under Soup):
--   Soup/World: the memory and the calls that leave the program. A pointer is a number; a run is `ok`,
--     a `fault` where the code reads NULL or memory that is not allocated, or `starved` where the
--     answers of the system (`malloc`, `rand`, `kore_timer_add`, `uv_callback_fire`), which the world
--     lists, are used up.
--   Soup/Random, Soup/Names: `rand32`, `random_u32` and the names of events.
--   Soup/Rooms: mediasoup/src/room.c. Soup/Server: mediasoup/src/soup_server.c and the start and end of
--     the worker. Soup/Clients: `websocket_message` and `websocket_disconnect`.
--   Soup/Channel and Soup/Requests: mediasoup/src/channel.c with `we_can_work_it_out` of
--     mediasoup/src/mediasoup.c: a request is a letter in a list, with a timer, until a response, its
--     timeout or the end of the channel.
--   Soup/Letters: the order of letters, timers and clients, and in Soup/Letters/System the events that
--     change it: clients that come, speak and leave, responses and timeouts. A client that leaves while
--     its letter waits is not among them.
--   The JSON library jansson is the parameter `Jansson` (Soup/Jansson) with its documented laws. Its
--   reference counts are not modelled, and neither is the event emitter, whose calls are recorded.
--
-- mediasoup_1, a later start of that client (modules under Media):
--   Media.antt: the memory of mediasoup_1/src/kore_media.c; a run is `none` where the code reads NULL or
--     freed memory, or counts past the largest `int`.
--   Media/Rooms: the rooms of a media object and their reference counts. GLib's hash table is the
--     parameter `HashTable` (Media/Table), which keeps the pointer to the key as well as the value.
--   Media/Registry: the abstract registry, Media/Registry/Represents: the memory that stands for it,
--     Media/Registry/Refines: that the calls do what the registry does.
--   Media/Numbers: mediasoup_1/src/soup_utils.c. Media/Messages: the handlers of
--     mediasoup_1/src/mediasoup_1.c, over the parameter `Jansson`.
--
-- websocket_13, a worker that polls a job queue in a database (modules under Jobs):
--   Jobs.antt: the memory of websocket_13/src/websocket_13.c: the clients of the database by address, the
--     job in work, and the calls that were made. Kore's pgsql client is the parameter `Database`
--     (Jobs/Database); the texts of the two SQL commands are arguments.
--   Jobs/Sending: `db_query`, `db_query_params`, `tick` and `boss_job_complete`. Jobs/Callbacks:
--     `db_state_change` with what it calls. Jobs/Connections: the handlers of a websocket.
--   Jobs/Worker: the start and the end of a worker, and its page.
--   Jobs/System: what the timer, the library and Kore may do between them, as a list of events.
--
-- auth2, pages behind a session in a database (modules under Auth):
--   Auth/Request: the request with the state that Kore keeps for it, and its calls of Kore, in order.
--     Kore's pgsql client is the parameter `Pgsql`.
--   Auth/Session: the validators `auth_session` and `auth_session_user`, and `db_state_change`.
--   Auth/Pages: the pages, the login form and the logout. Auth/Session/Steps: any sequence of these.
--   Auth/Machine: the query machine (`mystates`), one handler call at a time. The loop that calls them
--     is Kore's: it is a relation (Auth/Machine/Runs and Progress), with no fuel.
--
-- auth1, the program that auth2 grew from (Auth1): its own validator, callback, pages and global `sess`
-- from auth1/src/auth1.c. Its query machine is the text that auth2 has too, so Auth/Machine stands for
-- both; auth2 keeps the table, and only the page of auth1 starts it.
--
-- auth, the first stage of auth1 (modules under Login): its pages, validators and global `sess` from
-- auth/src/auth.c in Login.antt, and the routes of auth/conf/auth.conf in Login/Cookies.
--
-- janus, the WebRTC gateway Janus inside a Kore worker (modules under Janus):
--   Janus.antt: the table of sessions, what is stored of each, the `struct usi` of each websocket, and the
--     calls that were made. Janus/Core: what is taken from the parts of Janus that are not here.
--   Janus/Sessions: the table and the reference counts of sessions, from janus/src/pjanus.c. Those of
--     handles belong to the ICE agent: their changes are recorded.
--   Janus/Requests, Janus/Requests/Handles: `janus_process_incoming_request` up to the request claim. The
--     requests message and trickle and those of an administrator are recorded and handed on.
--   Janus/Replies, Janus/Target: the replies, and `kore_websocket_target` with its own frame builder.
--   Janus/Handlers: the websocket handlers of janus/src/janus.c, `del_sess` and `del_han`.
--   The identifiers that are drawn are an argument: the loop runs over them. Mutexes, the event handlers,
--   `source` and the flags `timeout` and `transport_gone` of a session are left out.
--
-- websocket_12, the stage before websocket_13 (modules under Listen):
--   Listen.antt: websocket_12/src/websocket_12.c, a worker with a client of the database that listens and
--     one that all websockets share, over the parameter `Database`; its page is that of Jobs/Worker.
--   Listen/Events: any sequence of the events that Kore and the database cause, and what is due then.
--
-- Loops are structural recursion, over the list that they walk. The loop of `channel_send` that draws
-- an id has fuel: each round uses up a value of `rand()`, so one more than their number is enough
-- (Soup/Channel/Ids). The first loop of `rand32` runs over these values too. `uint32_t` sums carry
-- their `% 2 ^ 32`.
--
-- Base holds what they share: tests on numbers, lists, and lists with distinct keys. The tests of
-- each tree are in its module Examples, which gives concrete values for its parameters.
--
-- Not modelled: log lines, the GLib loop and the plugins of websocket_9, the task that runs the C++
-- worker, code copied from other projects (Kore's pgsql.c, the core of Janus, mediasoup's C++, uv_callback, the
-- event emitter), and the other programs of the repository, which are earlier stages of these or
-- experiments with one library.
pub mod Base
pub mod Auth
pub mod Auth1
pub mod Janus
pub mod Listen
pub mod Jobs
pub mod Login
pub mod Media
pub mod Websocket
pub mod Soup
