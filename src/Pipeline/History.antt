-- ===== src/Pipeline/History.antt =====
-- What the clients of a feed are sent, after any actions of all its tasks.
use aggbook.Prelude.{
  ℕ, ◌≡◌, ◌⊎◌, inl, inr, refl, String, Option, some, List, [], ◌∷◌, ◌++◌, Outcome, ok, All,
  All-replicate, All-imp,
}
use aggbook.Book.{ContributorSnapshot}
use aggbook.Summary.{Level}
use aggbook.Feed.Task as Task
use aggbook.Relay as Relay
use aggbook.Relay.Feeding.{IsFed}
use aggbook.Pipeline.{Pipeline, Event, of_source, opened, step, run}
use aggbook.Pipeline.Order.{InOrder, InOrder-sent}
use aggbook.Pipeline.Sound.{IsSound, Accepts, step-IsSound}

-- A source has read a message that its parser turned into the snapshot.
abbrev pub Received :
    (ℕ → String → ℕ → Outcome (Option ContributorSnapshot))
    → List Event
    → ContributorSnapshot
    → Type 0
Received parse [] s = ⊥
Received parse (e ∷ es) s =
    ((i : ℕ) × (txt : String) × (now : ℕ) × (e ≡ of_source i (Relay.of_task (Task.message txt now)))
      × (parse i txt now ≡ ok (some s)))
    ⊎ Received parse es s

module _ (array_push : List Level → Level → Outcome (List Level)) (n : ℕ) where
  module _ (P : ContributorSnapshot → Type 0) where
    module _ (parse : ℕ → String → ℕ → Outcome (Option ContributorSnapshot)) where
      run-IsSound :
          (es : List Event) (ss : List ContributorSnapshot) (y : Pipeline)
          → All (Accepts array_push n P parse) es
          → IsSound array_push n P ss y
          → (ts : List ContributorSnapshot) × IsSound array_push n P ts
              (run array_push n parse es y)
      unfolding run
      run-IsSound [] ss y _ w = (ss, w)
      run-IsSound (e ∷ es) ss y (f, fs) w =
          let (ts, w') = step-IsSound array_push n P parse ss e y f w in
          run-IsSound es (ss ++ ts) (step array_push n parse e y) fs w'

  opened-IsSound :
      (P : ContributorSnapshot → Type 0) (k : ℕ) → IsSound array_push n P [] (opened n k)
  opened-IsSound P k = record {
    taken = tt;
    fed = All-replicate (IsFed P) k Relay.first_system (tt, tt);
    queued = tt;
    published = record { combines = λ _. refl; current = λ m q. absurd (cc q) };
    served = tt;
  }

  module _ (parse : ℕ → String → ℕ → Outcome (Option ContributorSnapshot)) where
    -- What is received in a part of the history is received in all of it.
    all-Received :
        (es : List Event) (P : ContributorSnapshot → Type 0)
        → ((s : ContributorSnapshot) → Received parse es s → P s)
        → All (Accepts array_push n P parse) es
    all-Received [] P f = tt
    all-Received (e ∷ es) P f =
        (λ i txt now s q p. f s (inl (i, txt, now, q, p)), all-Received es P (λ s r. f s (inr r)))

    -- However the tasks of a feed of `k` sources are interleaved, there is one history of snapshots,
    -- each of which the parser of a source has made of a message that the source has read, and what
    -- any client has been sent are the summaries of the books of growing parts of that history.
    pub run-InOrder :
        (es : List Event) (k : ℕ)
        → (ss : List ContributorSnapshot) × All (Received parse es) ss
          × All
              (λ c. InOrder array_push n ss c.sent)
              (run array_push n parse es (opened n k)).clients
    run-InOrder es k =
        let (ss, w) =
          run-IsSound (Received parse es) parse es [] (opened n k)
            (all-Received es (Received parse es) (λ s r. r))
            (opened-IsSound (Received parse es) k) in
        (
          ss,
          w.taken,
          All-imp (λ c h. InOrder-sent array_push n ss c.phase c.sent h)
              (run array_push n parse es (opened n k)).clients w.served,
        )
