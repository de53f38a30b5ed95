-- ===== src/Soup/Server/Ending.antt =====
-- The exit of the worker: `han` of mediasoup/src/mediasoup.c.
use kore_io_websocket.Base.{◌≡◌, ◌≢◌, [], ◌∷◌, true, false, none, some, ◌==◌, if◌then◌else◌, arith}
use kore_io_websocket.Soup.World.{Server, utils_crypto_class_destroy, World, ok, update}
use kore_io_websocket.Soup.Requests.Closing.{TimersOf, pending_close_ends}
use kore_io_websocket.Soup.Server.{at_exit}

-- What is left: no letter and no timer, the channel and the server are freed, and the worker of the
-- C++ side is destroyed if it was there.
abbrev pub ended : World → Server → World
ended w sv = record w {
  channels = update w.channels sv.ch false;
  servers = update w.servers w.md_server none;
  letters = [];
  timers = [];
  md_server = 0;
  trace = if w.soup_unavailable == 0 then utils_crypto_class_destroy ∷ w.trace else w.trace;
}

-- `han` on a server that is up, where each letter has its timer: all of it is taken down without a
-- fault, and running it again changes nothing.
pub exit_frees :
    (w : World) (sv : Server)
    → w.md_server ≢ 0
    → w.servers w.md_server ≡ some sv
    → sv.ch ≢ 0
    → w.channels sv.ch ≡ true
    → TimersOf w.letters w.timers
    → (at_exit w ≡ ok tt (ended w sv)) × (at_exit (ended w sv) ≡ ok tt (ended w sv))
unfolding at_exit
exit_frees w sv up serves linked live armed = (
  ground (
    arith,
    pending_close_ends w armed,
    pending_close_ends (record w { trace = utils_crypto_class_destroy ∷ w.trace }) armed,
  ),
  ground arith,
)
