-- ===== src/Pipeline/Sound.antt =====
-- The invariant of a whole feed: where its snapshots come from, and what its clients hold.
use mathlib.Core.List.{append-nil}
use aggbook.Prelude.{
  ℕ, ◌≡◌, refl, sym, ap, subst, true, false, Bool, String, Option, some, none, List, [], ◌∷◌, ◌++◌,
  get_elem?, set, Outcome, ok, All, All-set, All-get_elem?, All-append, All-imp, if◌then◌else◌,
}
use aggbook.Book.{ContributorSnapshot, update_snapshot}
use aggbook.Summary.{Level, to_proto}
use aggbook.Feed.Task as Task
use aggbook.Relay as Relay
use aggbook.Relay.Feeding.{IsFed, step-IsFed}
use aggbook.Publisher as Publisher
use aggbook.Publisher.{Publisher, SummaryResult, fine, failed, running, closed, crashed}
use aggbook.Client as Client
use aggbook.Client.{Client, new_client}
use aggbook.Client.History.{held}
use aggbook.Pipeline.{
  Pipeline, Event, of_source, receives, closes, joins, of_client, can_happen, passed, on_source,
  on_receive, on_client, step,
}
use aggbook.Pipeline.Order.{
  InOrder, InOrder-append, Published, client-sound, close-sound, on_summary-sound,
}

module _ (array_push : List Level → Level → Outcome (List Level)) (n : ℕ) where
  module _ (P : ContributorSnapshot → Type 0) where
    -- The history, the snapshots on their way to it, and what the clients hold.
    pub record IsSound (ss : List ContributorSnapshot) (y : Pipeline) : Type 0 where
      pub taken : All P ss
      pub fed : All (IsFed P) y.sources
      pub queued : All P y.queue
      pub published : Published array_push n ss y.publisher
      pub served : All (λ c. InOrder array_push n ss (held c)) y.clients

    -- What the channel takes from a relay is what the relay was sending.
    passed-sound :
        (e : Relay.Event) (f : Relay.Phase) → All P (Relay.pending f) → All P (passed e f)
    passed-sound (Relay.of_relay (Relay.sends Client.taken)) f h = h
    passed-sound (Relay.of_relay (Relay.sends Client.shut_down)) f h = tt
    passed-sound (Relay.of_relay (Relay.sends Client.dropped)) f h = tt
    passed-sound (Relay.of_relay Relay.reads) f h = tt
    passed-sound (Relay.of_relay Relay.changes) f h = tt
    passed-sound (Relay.of_task e) f h = tt

    module _ (parse : ℕ → String → ℕ → Outcome (Option ContributorSnapshot)) where
      -- What a message of the event is parsed into is such a snapshot.
      abbrev pub Accepts : Event → Type 0
      Accepts e =
          (i : ℕ) (txt : String) (now : ℕ) (s : ContributorSnapshot)
          → e ≡ of_source i (Relay.of_task (Task.message txt now))
          → parse i txt now ≡ ok (some s)
          → P s

      source-IsSound :
          (ss : List ContributorSnapshot) (i : ℕ) (e : Relay.Event) (o : Option Relay.System)
          (y : Pipeline)
          → get_elem? y.sources i ≡ o
          → Accepts (of_source i e)
          → IsSound ss y
          → IsSound ss (on_source (parse i) i e o y)
      source-IsSound ss i e none y q f w = w
      source-IsSound ss i e (some r) y q f w = guarded (can_happen e y)
        where
          fed : IsFed P r
          fed = All-get_elem? (IsFed P) y.sources i q w.fed

          guarded :
              (b : Bool)
              → IsSound ss (
                  if b
                  then record y {
                    sources = set y.sources i (Relay.step (parse i) e r);
                    queue = y.queue ++ passed e r.relay.phase;
                  }
                  else y)
          guarded false = w
          guarded true = record {
            taken = w.taken;
            fed = All-set (IsFed P) y.sources i (Relay.step (parse i) e r) w.fed (
                step-IsFed P (parse i) e r (λ txt now s q p. f i txt now s (ap (of_source i) q) p)
                  fed);
            queued =
                All-append P y.queue (passed e r.relay.phase) w.queued
                  (passed-sound e r.relay.phase fed.1);
            published = w.published;
            served = w.served;
          }

      -- The history goes on by what the publisher takes.
      receive-IsSound :
          (ss : List ContributorSnapshot) (f : Publisher.Phase) (q : List ContributorSnapshot)
          (y : Pipeline)
          → y.publisher.phase ≡ f
          → y.queue ≡ q
          → IsSound ss y
          → (ts : List ContributorSnapshot) × IsSound (ss ++ ts) (on_receive array_push n f q y)
      unfolding Publisher.on_event
      receive-IsSound ss running (s ∷ q) y h e w =
          let (p, ps) = subst (All P) e w.queued in
          let (ts, t, w') =
            on_summary-sound array_push n P ss s y.publisher
              (to_proto array_push n (update_snapshot s y.publisher.combined))
              (w.published.combines h) refl p w.published in
          (
            ts,
            record {
              taken = All-append P ss ts w.taken t;
              fed = w.fed;
              queued = ps;
              published = w';
              served =
                  All-imp (λ c h. InOrder-append array_push n ss ts (held c) h) y.clients w.served;
            },
          )
      receive-IsSound ss running [] y h e w =
          ([], subst (λ xs. IsSound xs y) (sym (append-nil ss)) w)
      receive-IsSound ss closed q y h e w = ([], subst (λ xs. IsSound xs y) (sym (append-nil ss)) w)
      receive-IsSound ss crashed q y h e w =
          ([], subst (λ xs. IsSound xs y) (sym (append-nil ss)) w)

      unchanged :
          (ss : List ContributorSnapshot) (y : Pipeline)
          → IsSound ss y
          → (ts : List ContributorSnapshot) × IsSound (ss ++ ts) y
      unchanged ss y w = ([], subst (λ xs. IsSound xs y) (sym (append-nil ss)) w)

      served-IsSound :
          (ss : List ContributorSnapshot) (j : ℕ) (a : Client.Action) (o : Option Client)
          (y : Pipeline)
          → get_elem? y.clients j ≡ o
          → IsSound ss y
          → IsSound ss (on_client j a o y)
      served-IsSound ss j a none y q w = w
      served-IsSound ss j a (some c) y q w = record {
        taken = w.taken;
        fed = w.fed;
        queued = w.queued;
        published = w.published;
        served =
            All-set (λ c. InOrder array_push n ss (held c)) y.clients j
              (Client.act y.publisher.watch y.publisher.latest c.phase a c) w.served
              (client-sound array_push n ss y.publisher.watch y.publisher.latest a c
                w.published.current
                (All-get_elem? (λ c. InOrder array_push n ss (held c)) y.clients j q w.served));
      }

      pub step-IsSound :
          (ss : List ContributorSnapshot) (e : Event) (y : Pipeline)
          → Accepts e
          → IsSound ss y
          → (ts : List ContributorSnapshot) × IsSound (ss ++ ts) (step array_push n parse e y)
      unfolding step
      step-IsSound ss (of_source i e) y f w =
          unchanged ss _ (source-IsSound ss i e (get_elem? y.sources i) y refl f w)
      step-IsSound ss receives y f w = receive-IsSound ss y.publisher.phase y.queue y refl refl w
      step-IsSound ss closes y f w = unchanged ss _ (record {
        taken = w.taken;
        fed = w.fed;
        queued = w.queued;
        published = close-sound array_push n ss y.publisher.phase y.publisher refl w.published;
        served = w.served;
      })
      step-IsSound ss joins y f w = unchanged ss _ (record {
        taken = w.taken;
        fed = w.fed;
        queued = w.queued;
        published = w.published;
        served =
            All-append (λ c. InOrder array_push n ss (held c)) y.clients (new_client ∷ []) w.served
              (tt, tt);
      })
      step-IsSound ss (of_client j a) y f w =
          unchanged ss _ (served-IsSound ss j a (get_elem? y.clients j) y refl w)
