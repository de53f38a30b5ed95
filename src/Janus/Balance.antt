-- ===== src/Janus/Balance.antt =====
-- The counts of the sessions: what a request takes it gives back.
use kore_io_websocket.Soup.Jansson.{Jansson}
use kore_io_websocket.Janus.Core.{Core}
