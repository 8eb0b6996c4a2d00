-- ===== src/Pipeline/Turns.antt =====
-- The turns of a source, of the publisher and of a client on the way of a message.
use aggbook.Prelude.{
  ℕ, ◌+◌, ◌≤◌, ◌≡◌, ◌≢◌, refl, sym, ap, ap₂, ◌&&◌, ◌∙◌, true, String, Option, some, List, [], ◌∷◌,
  ◌++◌, map, length, get_elem?, set, set-get_elem?, set-set, get_elem?-set_self, Outcome, ok, All,
  ltb, if◌then◌else◌,
}
use mathlib.Core.List.{append-nil}
use aggbook.Book.{ContributorSnapshot, update_snapshot}
use aggbook.Summary.{Level, Summary, to_proto}
use aggbook.Feed.Task as Task
use aggbook.Relay as Relay
use aggbook.Relay.Feeding.{run-message}
use aggbook.Publisher as Publisher
use aggbook.Publisher.{Publisher, SummaryResult, fine, running}
use aggbook.Client as Client
use aggbook.Client.{Client}
use aggbook.Client.Changes.{act-changes}
use aggbook.Pipeline.{
  Pipeline, Event, of_source, receives, of_client, on_source, on_receive, on_client, is_running,
  backlog_size, step, run,
}

-- What does not touch the publisher's channel.
abbrev pub IsFree : Relay.Event → Type 0
IsFree (Relay.of_relay (Relay.sends Client.taken)) = ⊥
IsFree (Relay.of_relay (Relay.sends Client.dropped)) = ⊥
IsFree _ = Unit

nothing_sent :
    (i : ℕ) (xs : List Relay.System) (y : Pipeline)
    → record y { sources = xs; queue = y.queue ++ [] } ≡ record y { sources = xs }
nothing_sent i xs y = ap (λ q. record y { sources = xs; queue = q }) (append-nil y.queue)

-- A source whose task reads messages and whose relay waits.
abbrev pub waiting_source : Task.Feed → ℕ → List ContributorSnapshot → Relay.System
waiting_source f seen old = record {
  task = record { phase = Task.running; feed = f };
  relay = record { phase = Relay.waiting; seen = seen; forwarded = old };
}

abbrev taking_up : String → ℕ → List Relay.Event
taking_up txt now =
    Relay.of_task (Task.message txt now)
    ∷ Relay.of_relay Relay.changes
    ∷ Relay.of_relay Relay.reads
    ∷ []

-- The message comes, and the relay takes it up and sends it.
abbrev pub relay_turn : ℕ → String → ℕ → List Event
relay_turn i txt now =
    of_source i (Relay.of_task (Task.message txt now))
    ∷ of_source i (Relay.of_relay Relay.changes)
    ∷ of_source i (Relay.of_relay Relay.reads)
    ∷ of_source i (Relay.of_relay (Relay.sends Client.taken))
    ∷ []

abbrev pub waiting_client : ℕ → List Summary → Client
waiting_client seen sent = record { phase = Client.waiting; seen = seen; sent = sent }

-- The client sees the new version and is sent its summary.
abbrev pub client_turn : ℕ → List Event
client_turn j = of_client j Client.changes ∷ of_client j (Client.sends Client.taken) ∷ []

open_channel :
    (y : Pipeline)
    → y.publisher.phase ≡ running
    → y.queue ≡ []
    → (is_running y.publisher.phase && ltb (length y.queue) backlog_size) ≡ true
open_channel y p k =
    ap₂ (λ f (q : List ContributorSnapshot). is_running f && ltb (length q) backlog_size) p k

module _ (array_push : List Level → Level → Outcome (List Level)) (n : ℕ)
    (parse : ℕ → String → ℕ → Outcome (Option ContributorSnapshot)) where
  step-free :
      (i : ℕ) (e : Relay.Event) (r : Relay.System) (y : Pipeline)
      → get_elem? y.sources i ≡ some r
      → IsFree e
      → step array_push n parse (of_source i e) y
        ≡ record y { sources = set y.sources i (Relay.step (parse i) e r) }
  unfolding step
  step-free i (Relay.of_relay Relay.reads) r y q h =
      ap (λ o. on_source (parse i) i (Relay.of_relay Relay.reads) o y) q ∙ nothing_sent i _ y
  step-free i (Relay.of_relay Relay.changes) r y q h =
      ap (λ o. on_source (parse i) i (Relay.of_relay Relay.changes) o y) q ∙ nothing_sent i _ y
  step-free i (Relay.of_relay (Relay.sends Client.taken)) r y q h = absurd h
  step-free i (Relay.of_relay (Relay.sends Client.dropped)) r y q h = absurd h
  step-free i (Relay.of_relay (Relay.sends Client.shut_down)) r y q h =
      ap (λ o. on_source (parse i) i (Relay.of_relay (Relay.sends Client.shut_down)) o y) q
      ∙ nothing_sent i _ y
  step-free i (Relay.of_task e) r y q h =
      ap (λ o. on_source (parse i) i (Relay.of_task e) o y) q ∙ nothing_sent i _ y

  pub run-free :
      (i : ℕ) (es : List Relay.Event) (r : Relay.System) (y : Pipeline)
      → get_elem? y.sources i ≡ some r
      → All IsFree es
      → run array_push n parse (map (of_source i) es) y
        ≡ record y { sources = set y.sources i (Relay.run (parse i) es r) }
  unfolding run Relay.run
  run-free i [] r y q h = ap (λ xs. record y { sources = xs }) (sym (set-get_elem? y.sources i r q))
  run-free i (e ∷ es) r y q (h, hs) =
      let r' = Relay.step (parse i) e r in
      ap (run array_push n parse (map (of_source i) es)) (step-free i e r y q h)
      ∙ run-free i es r' (record y { sources = set y.sources i r' })
          (get_elem?-set_self y.sources i r' r q) hs
      ∙ ap (λ xs. record y { sources = xs }) (set-set y.sources i r' (Relay.run (parse i) es r'))

  -- The relay's turn: the message is read and passed on.
  pub run-relay :
      (i : ℕ) (txt : String) (now seen : ℕ) (s : ContributorSnapshot) (f : Task.Feed)
      (old : List ContributorSnapshot) (y : Pipeline)
      → get_elem? y.sources i ≡ some (waiting_source f seen old)
      → seen ≤ f.watch
      → parse i txt now ≡ ok (some s)
      → y.publisher.phase ≡ running
      → y.queue ≡ []
      → run array_push n parse (relay_turn i txt now) y ≡ record y {
        sources = set y.sources i (waiting_source (Task.publish (ok s) f) (f.watch + 1) (s ∷ old));
        queue = s ∷ [];
      }
  unfolding run step Relay.step Relay.act
  run-relay i txt now seen s f old y q h e p k =
      ap (step array_push n parse (of_source i (Relay.of_relay (Relay.sends Client.taken)))) (
        run-free i (taking_up txt now) (waiting_source f seen old) y q (tt, (tt, (tt, tt)))
        ∙ ap (λ r. record y { sources = set y.sources i r })
            (run-message (parse i) txt now seen s f old h e))
      ∙ ap
          (λ o.
            on_source (parse i) i (Relay.of_relay (Relay.sends Client.taken)) o
              (record y { sources = set y.sources i loaded }))
          (get_elem?-set_self y.sources i loaded (waiting_source f seen old) q)
      ∙ ap
          (λ b.
            if b
            then record y {
              sources = set (set y.sources i loaded) i done;
              queue = y.queue ++ s ∷ [];
            }
            else record y { sources = set y.sources i loaded })
          (open_channel y p k)
      ∙ ap₂ (λ xs q. record y { sources = xs; queue = q ++ s ∷ [] })
          (set-set y.sources i loaded done) k
    where
      loaded : Relay.System
      loaded = record {
        task = record { phase = Task.running; feed = Task.publish (ok s) f };
        relay = record { phase = Relay.sending s; seen = f.watch + 1; forwarded = old };
      }

      done : Relay.System
      done = waiting_source (Task.publish (ok s) f) (f.watch + 1) (s ∷ old)

  -- The publisher's turn.
  pub step-receives :
      (s : ContributorSnapshot) (m : Summary) (y : Pipeline)
      → y.publisher.phase ≡ running
      → y.queue ≡ s ∷ []
      → to_proto array_push n (update_snapshot s y.publisher.combined) ≡ ok m
      → step array_push n parse receives y ≡ record y {
        queue = [];
        publisher =
            Publisher.publish
              (fine (some m))
              (record y.publisher { combined = update_snapshot s y.publisher.combined });
      }
  unfolding step Publisher.on_event
  step-receives s m y p k e =
      ap₂ (λ f q. on_receive array_push n f q y) p k
      ∙ ap
          (λ o. record y {
            queue = [];
            publisher =
                Publisher.on_summary o
                  (record y.publisher { combined = update_snapshot s y.publisher.combined });
          })
          e

  -- The client's turn.
  pub run-client :
      (j seen : ℕ) (m : Summary) (sent : List Summary) (y : Pipeline)
      → get_elem? y.clients j ≡ some (waiting_client seen sent)
      → seen ≢ y.publisher.watch
      → y.publisher.latest ≡ fine (some m)
      → run array_push n parse (client_turn j) y
        ≡ record y { clients = set y.clients j (waiting_client y.publisher.watch (m ∷ sent)) }
  unfolding run step Client.act
  run-client j seen m sent y q d e =
      ap (step array_push n parse (of_client j (Client.sends Client.taken))) (
        ap (λ o. on_client j Client.changes o y) q
        ∙ ap (λ c. record y { clients = set y.clients j c })
            (act-changes y.publisher.watch y.publisher.latest Client.waiting
                (waiting_client seen sent) refl d
              ∙ ap (λ l. Client.on_latest l (waiting_client y.publisher.watch sent)) e))
      ∙ ap
          (λ o.
            on_client j (Client.sends Client.taken) o
              (record y { clients = set y.clients j loaded }))
          (get_elem?-set_self y.clients j loaded (waiting_client seen sent) q)
      ∙ ap (λ cs. record y { clients = cs })
          (set-set y.clients j loaded (waiting_client y.publisher.watch (m ∷ sent)))
    where
      loaded : Client
      loaded = record { phase = Client.sending m; seen = y.publisher.watch; sent = sent }
