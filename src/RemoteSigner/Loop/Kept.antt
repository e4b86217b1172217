-- ===== src/RemoteSigner/Loop/Kept.antt =====
-- The request loop of signer/remote_signer.go keeps hold of its connection and of the watch on it.
use horcrux.Prelude.{ℕ, ◌==◌, Option, some, false, Bool, true, ◌&&◌, ◌||◌, not}
use horcrux.RemoteSigner.{Privval}
use horcrux.RemoteSigner.Loop.{Place, top, parked, dialing, connected, finished, Loop, has_conn}

module _ (p : Privval) (gated : Bool) where
  -- what a place says of the connection and of the watch
  unfoldable pub place_ok : Place p → (has watch_stop : Bool) → Bool
  place_ok top has watch_stop = true
  place_ok parked has watch_stop = not has
  place_ok dialing has watch_stop = not has
  place_ok finished has watch_stop = not has
  place_ok connected has watch_stop = has
  place_ok _ has watch_stop = has && (not gated || watch_stop)

  abbrev pub is_shut : Option Bool → Bool
  is_shut (some false) = true
  is_shut _ = false

  -- how many sockets a connection holds open
  abbrev pub open_sockets : Option Bool → ℕ
  open_sockets (some true) = 1
  open_sockets _ = 0

  unfoldable pub kept : Loop p → Bool
  kept s =
      place_ok s.place (has_conn p s.conn) s.watch_stop
      && (not s.watch_stop || has_conn p s.conn)
      && (not s.watching || s.watch_stop)
      && (not s.watch_stop || s.watching || is_shut s.conn)
      && (s.sockets == open_sockets s.conn)
