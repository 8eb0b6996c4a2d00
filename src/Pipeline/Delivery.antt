-- ===== src/Pipeline/Delivery.antt =====
-- How a message of one source gets to a client.
use aggbook.Prelude.{
  ℕ, ◌+◌, ◌≤◌, ◌≡◌, refl, ap, ◌∙◌, String, Option, some, List, [], ◌∷◌, ◌++◌, get_elem?, set,
  Outcome, ok, arith,
}
use aggbook.Book.{ContributorSnapshot, update_snapshot}
use aggbook.Summary.{Level, Summary, to_proto}
use aggbook.Feed.Task as Task
use aggbook.Publisher as Publisher
use aggbook.Publisher.{Publisher, SummaryResult, fine, running}
use aggbook.Pipeline.{Pipeline, receives, run}
use aggbook.Pipeline.Turns.{
  waiting_source, relay_turn, waiting_client, client_turn, run-relay, step-receives, run-client,
}

module _ (array_push : List Level → Level → Outcome (List Level)) (n : ℕ)
    (parse : ℕ → String → ℕ → Outcome (Option ContributorSnapshot)) where
  -- A message goes all the way: while the loops of a source and of the publisher run and the channel
  -- is empty, the summary of the book with the message's snapshot is what a waiting client is sent
  -- next, by seven steps of the source, its relay, the publisher and the client. Nothing else of the
  -- feed changes, and all are ready for the next message.
  pub run-delivers :
      (i j : ℕ) (txt : String) (now seen seen' : ℕ) (s : ContributorSnapshot) (m : Summary)
      (f : Task.Feed) (old : List ContributorSnapshot) (sent : List Summary) (y : Pipeline)
      → get_elem? y.sources i ≡ some (waiting_source f seen old)
      → seen ≤ f.watch
      → get_elem? y.clients j ≡ some (waiting_client seen' sent)
      → seen' ≤ y.publisher.watch
      → y.publisher.phase ≡ running
      → y.queue ≡ []
      → parse i txt now ≡ ok (some s)
      → to_proto array_push n (update_snapshot s y.publisher.combined) ≡ ok m
      → run array_push n parse (relay_turn i txt now ++ receives ∷ client_turn j) y ≡ record {
        sources = set y.sources i (waiting_source (Task.publish (ok s) f) (f.watch + 1) (s ∷ old));
        queue = [];
        publisher =
            Publisher.publish
              (fine (some m))
              (record y.publisher { combined = update_snapshot s y.publisher.combined });
        clients = set y.clients j (waiting_client (y.publisher.watch + 1) (m ∷ sent));
      }
  unfolding run
  run-delivers i j txt now seen seen' s m f old sent y a b c d p q e h =
      let r = waiting_source (Task.publish (ok s) f) (f.watch + 1) (s ∷ old) in
      let y1 : Pipeline = record y { sources = set y.sources i r; queue = s ∷ [] } in
      let y2 : Pipeline = record y1 {
        queue = [];
        publisher =
            Publisher.publish (fine (some m))
              (record y.publisher { combined = update_snapshot s y.publisher.combined });
      } in
      ap (run array_push n parse (receives ∷ client_turn j))
        (run-relay array_push n parse i txt now seen s f old y a b e p q)
      ∙ ap (run array_push n parse (client_turn j))
          (step-receives array_push n parse s m y1 p refl h)
      ∙ run-client array_push n parse j seen' m sent y2 c (λ k. absurd (omega (arith, d, k))) refl
