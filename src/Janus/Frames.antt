-- ===== src/Janus/Frames.antt =====
-- The frames of janus/src/pjanus.c beside those of websocket_9/src/helper.c.
use kore_io_websocket.Websocket.Wire.{Wire}
use kore_io_websocket.Janus.Target as T
