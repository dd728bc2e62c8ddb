-- ===== src/Routes/Events.antt =====
-- packages/server/src/routes/events.ts over the bus of lib/events.ts: the open streams, between their
-- awaits. The query of the first list reads the table at one time, and the handler goes on at a later
-- one. Heart-beats are left out; so is the database, whose change `publish` carries.
pub mod Laws
mod Tests
use circleftp_jellyfin.Base.{
  ℕ, List, [], ◌∷◌, ◌++◌, Bool, true, false, ◌&&◌, not, map, count, if◌then◌else◌, ◌==◌,
}
use circleftp_jellyfin.Downloads.Model.{Downloads}
use circleftp_jellyfin.Downloads.Service.{Event, snapshot}
use circleftp_jellyfin.Downloads.Listing.{every, list_downloads}

-- Where the handler of a stream stands: before the query of the list, between its answer and what
-- follows, subscribed, or unsubscribed.
pub data Stage : Type 0 where
  listing : Stage
  listed : Downloads → Stage
  subscribed unsubscribed : Stage

pub record Connection : Type 0 where
  pub id : ℕ
  pub stage : Stage
  -- Whether the browser has closed the connection.
  pub is_gone : Bool
  pub sent : List Event

pub record Hub : Type 0 where
  pub table : Downloads
  pub connections : List Connection

pub data Action : Type 0 where
  open_stream read resume close : ℕ → Action
  publish : Event → Downloads → Action

-- `send`; what is written to a closed connection goes nowhere.
unfoldable pub send : Event → Connection → Connection
send e c = record c { sent = if c.is_gone then c.sent else c.sent ++ e ∷ [] }

abbrev pub is_subscribed : Stage → Bool
is_subscribed subscribed = true
is_subscribed _ = false

-- A listener of the bus.
unfoldable pub receive : Event → Connection → Connection
unfolding send
receive e c = if is_subscribed c.stage then send e c else c

abbrev pub read_stage : Downloads → Stage → Stage
read_stage table listing = listed (list_downloads every 50 table)
read_stage table stage = stage

unfoldable pub read_table : Downloads → Connection → Connection
read_table table c = record c { stage = read_stage table c.stage }

-- What follows the await: the snapshot, then the subscription.
unfoldable pub go_on_at : Stage → Connection → Connection
unfolding send
go_on_at (listed ds) c = record (send (snapshot ds) c) { stage = subscribed }
go_on_at _ c = c

unfoldable pub go_on : Connection → Connection
unfolding go_on_at
go_on c = go_on_at c.stage c

-- `cleanup` is registered after the subscription; a connection that closes before is not noticed.
abbrev pub closed_stage : Stage → Stage
closed_stage subscribed = unsubscribed
closed_stage stage = stage

unfoldable pub hang_up : Connection → Connection
hang_up c = record c { is_gone = true; stage = if c.is_gone then c.stage else closed_stage c.stage }

abbrev pub at_id : ℕ → (Connection → Connection) → List Connection → List Connection
at_id id f = map (λ c. if c.id == id then f c else c)

unfoldable pub act : Action → Hub → Hub
unfolding receive read_table go_on hang_up
act (open_stream id) h =
    let new : Connection = record { id = id; stage = listing; is_gone = false; sent = [] } in
    record h { connections = h.connections ++ new ∷ [] }
act (read id) h = record h { connections = at_id id (read_table h.table) h.connections }
act (resume id) h = record h { connections = at_id id go_on h.connections }
act (close id) h = record h { connections = at_id id hang_up h.connections }
act (publish e table) h = record { table = table; connections = map (receive e) h.connections }

unfoldable pub act_all : List Action → Hub → Hub
unfolding act
act_all [] h = h
act_all (a ∷ rest) h = act_all rest (act a h)

-- `listenerCount`
unfoldable pub listener_count : Hub → ℕ
listener_count h = count (λ c. is_subscribed c.stage) h.connections
