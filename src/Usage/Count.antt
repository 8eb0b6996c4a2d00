-- ===== src/Usage/Count.antt =====
-- The count of subscriptions is the number of clients.
use aggbook.Prelude.{
  ℕ, ◌+◌, ◌≤◌, ◌<◌, ◌≡◌, refl, sym, ap, ◌∙◌, true, false, Bool, String, Option, none, some, List,
  [], ◌∷◌, get_elem?, length, length-append, Outcome, arith,
}
use aggbook.Book.{ContributorSnapshot}
use aggbook.Summary.{Level}
use aggbook.Client as Client
use aggbook.Client.{Client, new_client}
use aggbook.Pipeline as Pipeline
use aggbook.Pipeline.{Pipeline, of_source, receives, closes, joins, of_client}
use aggbook.Manager as Manager
use aggbook.Manager.{usize, on_subscribe, on_unsubscribe, wait, waited}
use aggbook.Usage.{
  Usage, Event, of_feed, waits, expires, is_active, on_return, on_client, on_feed, on_expiry, step,
  run,
}
use aggbook.Usage.Clients.{
  one, active, active-length, active-append, active-set, act-ended, one-active, on_source-clients,
  on_client-length, on_receive-clients, feed-length,
}

module _ {S : Type 0} where
  subscriptions-on_subscribe :
      (s : Manager.Feed S)
      → s.subscriptions + 1 < usize
      → (on_subscribe s).subscriptions ≡ s.subscriptions + 1
  unfolding on_subscribe
  subscriptions-on_subscribe s h = ground (arith, h)

  subscriptions-on_unsubscribe :
      (s : Manager.Feed S)
      → 1 ≤ s.subscriptions
      → s.subscriptions < usize
      → (on_unsubscribe s).subscriptions + 1 ≡ s.subscriptions
  unfolding on_unsubscribe
  subscriptions-on_unsubscribe s h k = ground (arith, h, k)

  subscriptions-on_return :
      (b a : Bool) (s : Manager.Feed S)
      → (b ≡ false → a ≡ false)
      → one b ≤ s.subscriptions
      → s.subscriptions < usize
      → (on_return b a s).subscriptions + one b ≡ s.subscriptions + one a
  subscriptions-on_return true true s h k l = refl
  subscriptions-on_return true false s h k l = omega (arith, subscriptions-on_unsubscribe s k l)
  subscriptions-on_return false true s h k l = absurd (cc (h refl))
  subscriptions-on_return false false s h k l = refl

  client-count :
      (j : ℕ) (a : Client.Action) (o : Option Client) (y : Pipeline) (s : Manager.Feed S)
      → get_elem? y.clients j ≡ o
      → s.subscriptions ≡ active y.clients
      → length y.clients < usize
      → (on_client j a o y s).subscriptions ≡ active (Pipeline.on_client j a o y).clients
  client-count j a none y s e h k = h
  client-count j a (some c) y s e h k =
      let d = Client.act y.publisher.watch y.publisher.latest c.phase a c in
      omega (
        arith,
        h,
        active-set y.clients j c d e,
        subscriptions-on_return (is_active c.phase) (is_active d.phase) s
            (act-ended y.publisher.watch y.publisher.latest c.phase a c refl)
            (omega (arith, h, one-active y.clients j c e))
            (omega (arith, h, k, active-length y.clients)),
      )

  subscriptions-wait : (s : Manager.Feed S) → (wait s).subscriptions ≡ s.subscriptions
  unfolding wait
  subscriptions-wait s = ground arith

  subscriptions-on_expiry : (s : Manager.Feed S) → (on_expiry s).subscriptions ≡ s.subscriptions
  subscriptions-on_expiry s = ground arith

  module _ (array_push : List Level → Level → Outcome (List Level)) (n : ℕ)
      (parse : ℕ → String → ℕ → Outcome (Option ContributorSnapshot)) where
    feed-count :
        (e : Pipeline.Event) (y : Pipeline) (s : Manager.Feed S)
        → s.subscriptions ≡ active y.clients
        → length (Pipeline.step array_push n parse e y).clients < usize
        → (on_feed e y s).subscriptions ≡ active (Pipeline.step array_push n parse e y).clients
    unfolding Pipeline.step
    feed-count (of_source i e) y s h k =
        h ∙ ap active (sym (on_source-clients (parse i) i e (get_elem? y.sources i) y))
    feed-count receives y s h k =
        h ∙ ap active (sym (on_receive-clients array_push n parse y.publisher.phase y.queue y))
    feed-count closes y s h k = h
    feed-count joins y s h k = omega (
      arith,
      h,
      active-append y.clients,
      subscriptions-on_subscribe s
          (omega (arith, h, k, active-length y.clients, length-append y.clients (new_client ∷ []))),
    )
    feed-count (of_client j a) y s h k =
        client-count j a (get_elem? y.clients j) y s refl h
          (omega (arith, k, on_client-length j a (get_elem? y.clients j) y))

    run-length :
        (es : List Event) (u : Usage S)
        → length u.feed.clients ≤ length (run array_push n parse es u).feed.clients
    unfolding run step
    run-length [] u = omega arith
    run-length (of_feed e ∷ es) u = omega (
      arith,
      feed-length array_push n parse e u.feed,
      run-length es (step array_push n parse (of_feed e) u),
    )
    run-length (waits ∷ es) u = run-length es (record u { counts = wait u.counts })
    run-length (expires ∷ es) u = run-length es (record u { counts = on_expiry u.counts })

    pub run-count :
        (es : List Event) (u : Usage S)
        → u.counts.subscriptions ≡ active u.feed.clients
        → length (run array_push n parse es u).feed.clients < usize
        → let u' = run array_push n parse es u in u'.counts.subscriptions ≡ active u'.feed.clients
    unfolding run step
    run-count [] u h k = h
    run-count (of_feed e ∷ es) u h k =
        run-count es (step array_push n parse (of_feed e) u)
          (feed-count e u.feed u.counts h
            (omega (arith, k, run-length es (step array_push n parse (of_feed e) u))))
          k
    run-count (waits ∷ es) u h k =
        run-count es (record u { counts = wait u.counts }) (subscriptions-wait u.counts ∙ h) k
    run-count (expires ∷ es) u h k =
        run-count es (record u { counts = on_expiry u.counts })
          (subscriptions-on_expiry u.counts ∙ h) k
