-- ===== src/Tests/Clients.antt =====
-- Tests of a client next to a publisher, and of the requests.
use aggbook.Prelude.{arith, ℕ, ◌≡◌, refl, List, [], ◌∷◌}
use aggbook.Book.{push, update_snapshot}
use aggbook.Summary.{Summary, to_proto}
use aggbook.Publisher as Publisher
use aggbook.Publisher.{fine, failed}
use aggbook.Client.{
  System, Event, of_publisher, of_client, new_client, looks, watches, changes, sends, taken,
  waiting, ended, run,
}
use aggbook.Client.Changes.{run-missed, run-closing}
use aggbook.Instrument.{instruments, new_map}
use aggbook.Factory.{new_factory_map}
use aggbook.Manager.{new_manager}
use aggbook.Service.{
  item, failure, unavailable, book_summary, book_summary_for_symbol, into_grpc_stream,
}
use aggbook.Service.Answers.{IsAnswer, book_summary_for_symbol-IsAnswer}
use aggbook.Tests.Sample.{push_to, first_book}

abbrev first_system : System
first_system = record { publisher = Publisher.start 2; client = new_client }

-- The client looks in vain, watches, and is sent the first summary.
abbrev visit : List Event
visit =
    of_client looks
    ∷ of_client watches
    ∷ of_publisher (Publisher.snapshot first_book)
    ∷ of_client changes
    ∷ of_client (sends taken)
    ∷ []

visit_runs :
    (s : Summary) × ((run (push_to 2) 2 visit first_system).client
      ≡ record { phase = waiting; seen = 1; sent = s ∷ [] })
unfolding run Publisher.on_event update_snapshot push to_proto
visit_runs = (_, refl)

abbrev waiting_system : System
waiting_system = record {
  publisher = Publisher.start 2;
  client = record { phase = waiting; seen = 0; sent = [] };
}

run-missed_example :
    let y =
      run
        (push_to 2)
        2
        (of_client looks
          ∷ of_publisher (Publisher.snapshot first_book)
          ∷ of_client watches
          ∷ of_client changes
          ∷ [])
        first_system in
    y.client ≡ record { phase = waiting; seen = y.publisher.watch; sent = [] }
run-missed_example =
    run-missed (push_to 2) 2 (Publisher.snapshot first_book) (Publisher.start 2) refl

-- A stream that ends tells so.
stream_runs :
    into_grpc_stream {T = ℕ} (item 1 ∷ item 2 ∷ [])
    ≡ item 1 ∷ item 2 ∷ failure (unavailable "stream ended") ∷ []
unfolding into_grpc_stream
stream_runs = refl

book_summary_for_symbol-IsAnswer_example :
    IsAnswer instruments
      (new_factory_map 10)
      "ETH-BTC"
      new_manager
      (book_summary_for_symbol (new_map instruments) (new_factory_map 10) "ETH-BTC" new_manager)
    × IsAnswer instruments
        (new_factory_map 10)
        "ETH-BTC"
        new_manager
        (book_summary (new_map instruments) (new_factory_map 10) "ETH-BTC" new_manager)
book_summary_for_symbol-IsAnswer_example =
    book_summary_for_symbol-IsAnswer instruments (new_factory_map 10) "ETH-BTC" new_manager

-- The publisher is closed while the client waits; a snapshot that comes later changes nothing.
run-closing_example :
    let p =
      Publisher.run
        (push_to 2)
        2
        (Publisher.close ∷ Publisher.snapshot first_book ∷ [])
        (Publisher.start 2) in
    (p.latest ≡ failed Publisher.shutdown)
    × (p.watch ≡ 1)
    × ((run
          (push_to 2)
          2
          (of_publisher Publisher.close
            ∷ of_publisher (Publisher.snapshot first_book)
            ∷ of_client changes
            ∷ of_client changes
            ∷ [])
          waiting_system).client
        ≡ record { phase = ended; seen = 1; sent = [] })
run-closing_example =
    run-closing (push_to 2) 2 (Publisher.snapshot first_book ∷ []) (of_client changes ∷ [])
      waiting_system refl refl (omega arith)
