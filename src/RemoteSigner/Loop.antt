-- ===== src/RemoteSigner/Loop.antt =====
-- The request loop of signer/remote_signer.go and the goroutine that watches the leadership, as steps of
-- one system with the moves of their surroundings.
pub mod Kept
pub mod Answered
use horcrux.Prelude.{
  ℕ, suc, ◌-◌, Bool, true, false, ◌&&◌, ◌||◌, not, List, [], ◌∷◌, Option, none, some, ◌≡◌,
  if◌then◌else◌,
}
use horcrux.RemoteSigner.{Privval, Request, Response, handle_request_safely}

module _ (p : Privval) where
  -- where the loop stands
  pub data Place : Type 0 where
    top parked dialing connected reading finished : Place
    handling : Request p → Place
    writing : Request p → Response p → Place

  pub record Loop : Type 0 where
    pub running : Bool  -- `IsRunning`
    pub leads : Bool  -- `isLeader()`
    pub conn : Option Bool  -- `conn`, and whether its socket is open still
    pub sockets : ℕ  -- how many sockets that were dialed are not closed
    pub watch_stop : Bool  -- whether `watchStop` is not nil
    pub watching : Bool  -- whether the goroutine of the watch runs
    pub place : Place
    pub answers : List (Request p × Response p)  -- what was written, the latest first

  -- the start of `loop`
  abbrev pub started : (leads : Bool) → Loop
  started leads = record {
    running = true;
    leads = leads;
    conn = none;
    sockets = 0;
    watch_stop = false;
    watching = false;
    place = top;
    answers = [];
  }

  abbrev go : Place → Loop → Loop
  go place s = record s { place = place }

  -- `closeConn`: a second close does nothing
  unfoldable pub close_conn : Loop → Loop
  close_conn s = elim s.conn [
    | none ↦ s
    | some false ↦ s
    | some true ↦ record s { conn = some false; sockets = s.sockets - 1 }
  ]

  -- `dropConn`
  unfoldable pub drop_conn : Loop → Loop
  drop_conn s = record (close_conn s) { conn = none; watch_stop = false; watching = false }

  abbrev pub has_conn : Option Bool → Bool
  has_conn none = false
  has_conn (some is_open) = true

  -- `isLeader` is nil where the connection is not gated
  module _ (gated : Bool) where
    -- the top of the loop, with the first test of `waitForLeadership`
    unfoldable pub from_top : Loop → Loop
    from_top s =
        if not s.running
        then go finished (drop_conn s)
        else if has_conn s.conn
        then go connected s
        else if gated && not s.leads
        then go parked s
        else go dialing s

    -- a tick of `waitForLeadership`
    unfoldable pub park_tick : Loop → Loop
    park_tick s =
        if not s.running then go finished s else if s.leads then go dialing s else go parked s

    -- `establishConnection` has returned: with a connection, or the timer of the next attempt runs
    unfoldable pub dialed : (connects : Bool) → Loop → Loop
    dialed connects s =
        if connects
        then record s { conn = some true; sockets = suc s.sockets; place = connected }
        else s

    -- from the second test of `IsRunning` to the read
    unfoldable pub start_watch : Loop → Loop
    start_watch s =
        if not s.running
        then go finished (drop_conn s)
        else if gated && not s.watch_stop
        then record s { watch_stop = true; watching = true; place = reading }
        else go reading s

    -- `SetReadDeadline` and `ReadMsg`, which fail where there is no request
    unfoldable pub read_msg : Option (Request p) → Loop → Loop
    read_msg none s = go top (drop_conn s)
    read_msg (some req) s = go (handling req) s

    unfoldable pub handle : Request p → Loop → Loop
    handle req s =
        let (res, drop_req, panicked) = handle_request_safely p req in
        if drop_req || panicked then go top (drop_conn s) else go (writing req res) s

    -- `SetWriteDeadline` and `WriteMsg`
    unfoldable pub write_msg : (written : Bool) → Request p → Response p → Loop → Loop
    write_msg written req res s =
        if written
        then record s { place = top; answers = (req, res) ∷ s.answers }
        else go top (drop_conn s)

    -- a tick of `releaseConnOnLeadershipLoss`
    unfoldable pub watch_tick : Loop → Loop
    watch_tick s = if s.leads then s else record (close_conn s) { watching = false }

    -- One step of the loop, of the watch, or of what is around them. A closed socket neither reads nor
    -- writes, and the loop's context ends when the service was stopped.
    pub data Step : Loop → Loop → Type 0 where
      tops : {s : Loop} → s.place ≡ top → Step s (from_top s)
      parks : {s : Loop} → s.place ≡ parked → Step s (park_tick s)
      park_ends : {s : Loop} → s.place ≡ parked → s.running ≡ false → Step s (go finished s)
      dials : {s : Loop} (connects : Bool) → s.place ≡ dialing → Step s (dialed connects s)
      dial_ends : {s : Loop} → s.place ≡ dialing → s.running ≡ false → Step s (go finished s)
      watches : {s : Loop} → s.place ≡ connected → Step s (start_watch s)
      reads :
          {s : Loop} (req : Request p)
          → s.place ≡ reading
          → s.conn ≡ some true
          → Step s (read_msg (some req) s)
      read_fails : {s : Loop} → s.place ≡ reading → Step s (read_msg none s)
      handles : {s : Loop} (req : Request p) → s.place ≡ handling req → Step s (handle req s)
      writes :
          {s : Loop} (req : Request p) (res : Response p)
          → s.place ≡ writing req res
          → s.conn ≡ some true
          → Step s (write_msg true req res s)
      write_fails :
          {s : Loop} (req : Request p) (res : Response p)
          → s.place ≡ writing req res
          → Step s (write_msg false req res s)
      watch_ticks : {s : Loop} → s.watching ≡ true → Step s (watch_tick s)
      stops : {s : Loop} → Step s (record s { running = false })
      elects : {s : Loop} (leads : Bool) → Step s (record s { leads = leads })

    pub data Steps (s : Loop) : Loop → Type 0 where
      here : Steps s s
      more : {t u : Loop} → Steps s t → Step t u → Steps s u
