-- ===== src/Manager/Use.antt =====
-- Clients and feeds: which calls remove a feed, and what a manager that shuts down refuses.
use text.Mathlib.Text.{◌==◌ as str_eq}
use aggbook.Prelude.{
  ◌&&◌, Bool-cases, none, ℕ, ◌≡◌, ◌⊎◌, ◌≢◌, refl, ap, sym, subst, ◌∙◌, inl, inr, true, false,
  String, Option, none, some, List, [], ◌∷◌, get_elem?, Outcome, err, ◌==◌, if◌then◌else◌, arith,
}
use aggbook.HashMap.{remove, lookup}
use aggbook.Instrument.{Instrument, new_map}
use aggbook.Factory.{SummarySourceFactoryMap}
use aggbook.Manager.{
  waited, shut, Feed, Manager, new_manager, modify, remove_feed_if_unused, expire, begin_shutdown,
  drain, shut_at, open_feed,
}
use aggbook.Manager.Table.{IsLeaving, IsTracked}
use aggbook.Manager.Lifecycle.{
  Event, opens, subscribes, unsubscribes, waits, expires, begins_shutdown, drains, shuts_next, step,
  run, run-IsWellFormed, step-IsWellFormed, run-keeps,
}
use aggbook.Manager.Opening.{open_feed-refused}

module _ {S : Type 0} where
  remove-used :
      (f : ℕ) (s : Feed S) (m : Manager S) → s.subscriptions ≢ 0 → remove_feed_if_unused f s m ≡ m
  unfolding remove_feed_if_unused
  remove-used f s m h = at_symbol (lookup str_eq s.instrument.symbol m.feeds)
    where
      in_use : (current n : ℕ) → n ≢ 0 → ((current == f) && (n == 0)) ≡ false
      in_use current n k = ground (arith, k)

      at_symbol :
          (o : Option ℕ)
          → elim o [
            | none ↦ m
            | some current ↦
                if (current == f) && (s.subscriptions == 0)
                then record m {
                  feeds = remove str_eq s.instrument.symbol m.feeds;
                  store = modify f shut m.store;
                }
                else m
          ]
            ≡ m
      at_symbol none = refl
      at_symbol (some current) = rw (in_use current s.subscriptions h) refl

  -- The end of a wait neither removes nor shuts down a feed that a client uses: but for the count of
  -- the waits, the manager stays as it is.
  pub expire-used :
      (f : ℕ) (m : Manager S) (s : Feed S)
      → get_elem? m.store f ≡ some s
      → s.subscriptions ≢ 0
      → (expire f m ≡ m) ⊎ (expire f m ≡ record m { store = modify f waited m.store })
  unfolding expire
  expire-used f m s e h = elim (Bool-cases (s.waiting == 0)) [
    | inl z ↦ inl (rw (e, z, expire) refl)
    | inr z ↦ inr (
        rw (e, z, expire)
          (remove-used f (waited s) (record m { store = modify f waited m.store }) h))
  ]

module _ {S : Type 0} (is : List Instrument) (factories : SummarySourceFactoryMap S) where
  -- The table is empty for good.
  record IsClosed (m : Manager S) : Type 0 where
    empty : m.feeds ≡ []
    flag : m.is_shutting_down ≡ true

  expire-IsClosed : (f : ℕ) (m : Manager S) → IsClosed m → IsClosed (expire f m)
  unfolding expire remove_feed_if_unused lookup
  expire-IsClosed f m c = record { empty = ground (arith, c.empty); flag = ground (arith, c.flag) }

  drain-IsClosed : (m : Manager S) → m.is_shutting_down ≡ true → IsClosed (drain m)
  unfolding drain
  drain-IsClosed m h = record { empty = ground (arith, h); flag = ground (arith, h) }

  shut_at-IsClosed : (fs : List ℕ) (m : Manager S) → IsClosed m → IsClosed (shut_at fs m)
  shut_at-IsClosed [] m c = c
  shut_at-IsClosed (f ∷ fs) m c = record { empty = c.empty; flag = c.flag }

  step-IsClosed : (e : Event) (m : Manager S) → IsClosed m → IsClosed (step is factories e m)
  unfolding open_feed drain
  step-IsClosed (opens symbol) m c =
      subst IsClosed
        (ap (λ (r : Outcome ℕ × Manager S). r.1)
          (sym (open_feed-refused is factories symbol m c.flag)))
        c
  step-IsClosed (subscribes f) m c = record { empty = c.empty; flag = c.flag }
  step-IsClosed (unsubscribes f) m c = record { empty = c.empty; flag = c.flag }
  step-IsClosed (waits f) m c = record { empty = c.empty; flag = c.flag }
  step-IsClosed (expires f) m c = expire-IsClosed f m c
  step-IsClosed begins_shutdown m c = record { empty = c.empty; flag = refl }
  step-IsClosed drains m c = drain-IsClosed m c.flag
  step-IsClosed shuts_next m c = shut_at-IsClosed m.closing m c

  run-IsClosed : (es : List Event) (m : Manager S) → IsClosed m → IsClosed (run is factories es m)
  run-IsClosed [] m c = c
  run-IsClosed (e ∷ es) m c = run-IsClosed es (step is factories e m) (step-IsClosed e m c)

  -- Once the flag is set and the table has been drained, whatever is called afterwards, the table
  -- stays empty, a feed that was ever opened is shut down or in the queue to be shut down, and no
  -- feed is opened.
  pub run-drain :
      (before after : List Event) (symbol : String) (f : ℕ) (s : Feed S)
      → let m =
          run is factories after (drain (begin_shutdown (run is factories before new_manager))) in
        get_elem? m.store f ≡ some s
        → (m.feeds ≡ [])
          × IsLeaving m.closing f s
          × (open_feed (new_map is) factories symbol m ≡ (err "Manager is shutting down", m))
  unfolding lookup
  run-drain before after symbol f s e =
      let start = step is factories begins_shutdown (run is factories before new_manager) in
      let w = run-keeps is factories after (drain start) (
        step-IsWellFormed is factories drains start (
          step-IsWellFormed is factories begins_shutdown (run is factories before new_manager)
            (run-IsWellFormed is factories before))) in
      let c = run-IsClosed after (drain start) (drain-IsClosed start refl) in
      (
        c.empty,
        leaving (run is factories after (drain start)) c.empty (w.tracked f s e),
        open_feed-refused is factories symbol _ c.flag,
      )
    where
      leaving :
          (m : Manager S) → m.feeds ≡ [] → IsTracked m.closing m.feeds f s → IsLeaving m.closing f s
      leaving m h (inr (_, q)) = q
      leaving m h (inl (p, _)) = cc (sym p ∙ ap (lookup str_eq s.instrument.symbol) h)
