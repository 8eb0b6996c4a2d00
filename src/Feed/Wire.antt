-- ===== src/Feed/Wire.antt =====
-- What the task of a feed writes to its websockets: the connections and the frames of `subscribe` and
-- `run_feed_loop` in crates/aggserver/src/service/sources/binance.rs and bitstamp.rs, next to the
-- task of Feed.Task. A text is its code points; `to_string` is the text that `serde_json` makes of the
-- message that subscribes to a channel.
pub mod Frames
use aggbook.Prelude.{
  ℕ, String, Option, none, some, List, [], ◌∷◌, ◌++◌, Outcome, codes, to_lowercase,
}
use aggbook.Book.{ContributorSnapshot}
use aggbook.Feed.Task as Task

pub data Frame : Type 0 where
  text : List ℕ → Frame
  ping pong : Frame

-- Where the task connects, and the message that it writes first.
pub record Exchange : Type 0 where
  pub ws_url : List ℕ
  pub sub_msg : Option (List ℕ)

abbrev pub binance_exchange : String → Exchange
binance_exchange symbol = record {
  ws_url =
      codes "wss://stream.binance.com:9443/ws/" ++ to_lowercase symbol ++ codes "@depth20@100ms";
  sub_msg = none;
}

abbrev pub bitstamp_exchange : (List ℕ → List ℕ) → String → Exchange
bitstamp_exchange to_string symbol = record {
  ws_url = codes "wss://ws.bitstamp.net";
  sub_msg = some (to_string (codes "order_book_" ++ to_lowercase symbol));
}

-- The frames that were given to the websocket, the latest first.
pub record Connection : Type 0 where
  pub url : List ℕ
  pub written : List Frame

abbrev pub greeting : Option (List ℕ) → List Frame
greeting none = []
greeting (some msg) = text msg ∷ []

abbrev pub connect : Exchange → Connection
connect x = record { url = x.ws_url; written = greeting x.sub_msg }

abbrev pub write : Frame → List Connection → List Connection
write f [] = []
write f (c ∷ cs) = record c { written = f ∷ c.written } ∷ cs

-- What an event makes the task write, by where it stands: the latest connection comes first. A
-- connection that fails, or on which the first message cannot be sent, is not among them.
pub wire : Exchange → Task.Phase → Task.Event → List Connection → List Connection
wire x Task.connecting Task.connected cs = connect x ∷ cs
wire x Task.running Task.ping_frame cs = write pong cs
wire x Task.running Task.ping_sent cs = write ping cs
wire x _ _ cs = cs

pub record System : Type 0 where
  pub task : Task.Task
  pub connections : List Connection

abbrev pub first_system : System
first_system = record { task = Task.start; connections = [] }

module _ (parse : String → ℕ → Outcome (Option ContributorSnapshot)) (x : Exchange) where
  unfoldable pub step : Task.Event → System → System
  unfolding wire
  step e y = record {
    task = Task.step parse e y.task;
    connections = wire x y.task.phase e y.connections;
  }

  unfoldable pub run : List Task.Event → System → System
  unfolding step
  run [] y = y
  run (e ∷ es) y = run es (step e y)
