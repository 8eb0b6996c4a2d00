-- ===== src/Usage/Kept.antt =====
-- A feed that a client uses is kept.
use aggbook.Prelude.{
  ℕ, ◌≡◌, ◌≢◌, ◌<◌, refl, ap, ◌⊎◌, true, String, Option, some, List, get_elem?, length, Outcome,
  arith,
}
use aggbook.Book.{ContributorSnapshot}
use aggbook.Summary.{Level}
use aggbook.Instrument.{Instrument}
use aggbook.Client as Client
use aggbook.Client.{Client}
use aggbook.Manager.{Manager, usize, modify, waited, expire}
use aggbook.Manager.Use.{expire-used}
use aggbook.Usage.{Event, opened, is_active, run}
use aggbook.Usage.Clients.{one, active, one-active}
use aggbook.Usage.Count.{run-count}

ended_or : (p : Client.Phase) → p ≢ Client.ended → is_active p ≡ true
ended_or Client.ended h = absurd (h refl)
ended_or Client.subscribed h = refl
ended_or (Client.sending_first s) h = refl
ended_or Client.unwatched h = refl
ended_or Client.waiting h = refl
ended_or (Client.sending s) h = refl

module _ {S : Type 0} (array_push : List Level → Level → Outcome (List Level)) (n : ℕ)
    (parse : ℕ → String → ℕ → Outcome (Option ContributorSnapshot)) where
  -- The count of subscriptions of a feed is the number of its clients that have not left, whatever
  -- they, the other tasks of the feed and the waits do, as long as fewer than 2^64 clients have come.
  pub run-active :
      (es : List Event) (instrument : Instrument) (tasks : List S) (k : ℕ)
      → let u = run array_push n parse es (opened n instrument tasks k) in
        length u.feed.clients < usize → u.counts.subscriptions ≡ active u.feed.clients
  run-active es instrument tasks k h =
      run-count array_push n parse es (opened n instrument tasks k) refl h

  -- While a client of a feed has not left, of fewer than 2^64 that have come, the end of a wait neither
  -- removes nor shuts down the feed: but for the count of the waits, a manager that holds the feed
  -- stays as it is.
  pub expire-active :
      (es : List Event) (instrument : Instrument) (tasks : List S) (k f j : ℕ) (m : Manager S)
      (c : Client)
      → let u = run array_push n parse es (opened n instrument tasks k) in
        length u.feed.clients < usize
        → get_elem? m.store f ≡ some u.counts
        → get_elem? u.feed.clients j ≡ some c
        → c.phase ≢ Client.ended
        → (expire f m ≡ m) ⊎ (expire f m ≡ record m { store = modify f waited m.store })
  expire-active es instrument tasks k f j m c h e q p =
      let u = run array_push n parse es (opened n instrument tasks k) in
      expire-used f m u.counts e (λ z. omega (
        arith,
        z,
        run-active es instrument tasks k h,
        one-active u.feed.clients j c q,
        ap one (ended_or c.phase p),
      ))
