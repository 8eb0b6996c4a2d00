-- ===== src/Service.antt =====
-- crates/aggserver/src/service.rs: the requests of clients, and crates/aggserver/src/stream.rs: what
-- a client's stream gives. A stream is named by the place of its feed.
pub mod Answers
use Prim.Native.String.{◌++◌ as append}
use text.Mathlib.Text.{◌==◌ as str_eq}
use aggbook.Prelude.{ℕ, Bool, String, List, [], ◌∷◌, Outcome, ok, err, panic, if◌then◌else◌}
use aggbook.Instrument.{Instrument, InstrumentMap}
use aggbook.Factory.{SummarySourceFactoryMap}
use aggbook.Manager.{Manager, open_feed}

-- The codes of `tonic::Status` that the service uses.
pub data Status : Type 0 where
  internal invalid_argument unavailable : String → Status

-- The answer to a request: a stream of a feed, an error, or none since the handler panicked.
pub data Reply : Type 0 where
  stream : ℕ → Reply
  refused : Status → Reply
  crashed : Reply

abbrev pub reply_of : {S : Type 0} → Outcome ℕ × Manager S → Reply × Manager S
reply_of (ok f, m) = (stream f, m)
reply_of (err e, m) = (refused (internal (append "Failed to open stream: " e)), m)
reply_of (panic, m) = (crashed, m)

module _ {S : Type 0} (instruments : InstrumentMap) (factories : SummarySourceFactoryMap S) where
  -- `open_summary_stream`.
  pub open_summary_stream : String → Manager S → Reply × Manager S
  open_summary_stream symbol m = reply_of (open_feed instruments factories symbol m)

  -- `book_summary`, with the service's `default_symbol`.
  pub book_summary : String → Manager S → Reply × Manager S
  unfolding open_summary_stream
  book_summary default_symbol m = open_summary_stream default_symbol m

  pub book_summary_for_symbol : String → Manager S → Reply × Manager S
  unfolding open_summary_stream
  book_summary_for_symbol symbol m =
      if str_eq symbol ""
      then (refused (invalid_argument "Symbol cannot be empty"), m)
      else open_summary_stream symbol m

-- An item of a stream.
pub data Item (T : Type 0) : Type 0 where
  item : T → Item T
  failure : Status → Item T

-- `into_grpc_stream`, on all that a closed channel has held.
unfoldable pub into_grpc_stream : {T : Type 0} → List (Item T) → List (Item T)
into_grpc_stream [] = failure (unavailable "stream ended") ∷ []
into_grpc_stream (x ∷ xs) = x ∷ into_grpc_stream xs
