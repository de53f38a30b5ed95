-- ===== src/Soup/Examples/Reached.antt =====
-- The theorems on the letters of mediasoup/src after one client has come.
use kore_io_websocket.Soup.World.{Soup, Timer}

abbrev clock : Timer
clock = record { handle = 7; arg = 60 }
