-- ===== src/Client/Changes.antt =====
-- How a client that waits for a version of the publisher goes on, in `Feed::publish` of
-- crates/aggserver/src/service/manager.rs.
use aggbook.Prelude.{
  ℕ, ◌+◌, ◌≤◌, ◌≡◌, ◌≢◌, refl, ap, ◌∙◌, true, false, none, List, [], ◌∷◌, ◌++◌, map, Outcome, ◌==◌,
  if◌then◌else◌, arith,
}
use aggbook.Summary.{Level}
use aggbook.Publisher as Publisher
use aggbook.Publisher.{SummaryResult, fine, failed}
use aggbook.Publisher.History.{run-close}
use aggbook.Client.{
  Phase, waiting, ended, Client, new_client, taken, Action, looks, watches, changes, sends,
  on_latest, on_initial, act, System, Event, of_publisher, of_client, step, run,
}

fresh : (a b : ℕ) → a ≢ b → (a == b) ≡ false
fresh a b h = ground (arith, h)

stale : (a : ℕ) → (a == a) ≡ true
stale a = ground arith

pub act-changes :
    (watch : ℕ) (latest : SummaryResult) (p : Phase) (c : Client)
    → p ≡ waiting
    → c.seen ≢ watch
    → act watch latest p changes c ≡ on_latest latest (record c { seen = watch })
unfolding act
act-changes watch latest p c h d =
    ap (λ p. act watch latest p changes c) h
    ∙ ap (λ b. if b then c else on_latest latest (record c { seen = watch })) (fresh c.seen watch d)

act-ended :
    (watch : ℕ) (latest : SummaryResult) (a : Action) (c : Client) → act watch latest ended a c ≡ c
unfolding act
act-ended watch latest looks c = refl
act-ended watch latest (sends taken) c = refl
act-ended watch latest _ c = refl

module _ (array_push : List Level → Level → Outcome (List Level)) (n : ℕ) where
  run-ended :
      (es : List Event) (y : System)
      → y.client.phase ≡ ended
      → (run array_push n es y).client ≡ y.client
  unfolding run step
  run-ended [] y h = refl
  run-ended (of_publisher e ∷ es) y h =
      run-ended es
        (record y { publisher = Publisher.on_event array_push n y.publisher.phase e y.publisher }) h
  run-ended (of_client a ∷ es) y h =
      ap (λ (c : Client). (run array_push n es (record y { client = c })).client) still
      ∙ run-ended es y h
    where
      still : act y.publisher.watch y.publisher.latest y.client.phase a y.client ≡ y.client
      still =
          ap (λ p. act y.publisher.watch y.publisher.latest p a y.client) h
          ∙ act-ended y.publisher.watch y.publisher.latest a y.client

  -- A client that waits, while there is a version that it has not seen and the publisher is shut
  -- down, leaves when it takes the change, and it is sent nothing afterwards.
  run-failed :
      (es : List Event) (y : System) (e : Publisher.SummaryError)
      → y.client.phase ≡ waiting
      → y.client.seen ≢ y.publisher.watch
      → y.publisher.latest ≡ failed e
      → (run array_push n (of_client changes ∷ es) y).client
        ≡ record { phase = ended; seen = y.publisher.watch; sent = y.client.sent }
  unfolding run step act
  run-failed es y e h d k =
      ap
        (λ (c : Client).
          (run array_push n es (record { publisher = y.publisher; client = c })).client)
        (act-changes y.publisher.watch y.publisher.latest y.client.phase y.client h d
          ∙ ap (λ l. on_latest l (record y.client { seen = y.publisher.watch })) k)
      ∙ run-ended es
          (record {
            publisher = y.publisher;
            client = record { phase = ended; seen = y.publisher.watch; sent = y.client.sent };
          })
          refl

  run-publisher :
      (es : List Publisher.Event) (fs : List Event) (y : System)
      → run array_push n (map of_publisher es ++ fs) y
        ≡ run array_push n fs (record y { publisher = Publisher.run array_push n es y.publisher })
  unfolding run step Publisher.run
  run-publisher [] fs y = refl
  run-publisher (e ∷ es) fs y =
      run-publisher es fs
        (record y { publisher = Publisher.on_event array_push n y.publisher.phase e y.publisher })

  -- A client that waits for a publisher in its loop leaves when the publisher is closed and it takes
  -- the change, whatever the publisher is sent in between: the publisher then holds the error of a
  -- shutdown with one version more, and no later event makes the client send anything.
  pub run-closing :
      (es : List Publisher.Event) (rest : List Event) (y : System)
      → y.publisher.phase ≡ Publisher.running
      → y.client.phase ≡ waiting
      → y.client.seen ≤ y.publisher.watch
      → let p = Publisher.run array_push n (Publisher.close ∷ es) y.publisher in
        (p.latest ≡ failed Publisher.shutdown)
        × (p.watch ≡ y.publisher.watch + 1)
        × ((run array_push n
              (map of_publisher (Publisher.close ∷ es) ++ of_client changes ∷ rest)
              y).client
            ≡ record { phase = ended; seen = y.publisher.watch + 1; sent = y.client.sent })
  unfolding run step Publisher.run
  run-closing es rest y h w l =
      let es' = Publisher.close ∷ es in
      let p = Publisher.run array_push n es' y.publisher in
      let closed_one : p ≡ record y.publisher {
        phase = Publisher.closed;
        latest = failed Publisher.shutdown;
        watch = y.publisher.watch + 1;
      } =
        run-close array_push n [] es y.publisher h in
      let latest = ap (λ (p : Publisher.Publisher). p.latest) closed_one in
      let watch = ap (λ (p : Publisher.Publisher). p.watch) closed_one in
      (
        latest,
        watch,
        ap (λ (y : System). y.client) (run-publisher es' (of_client changes ∷ rest) y)
            ∙ run-failed rest (record y { publisher = p }) Publisher.shutdown w
                (λ e. omega (arith, e, watch, l)) latest
            ∙ ap (λ v. record { phase = ended; seen = v; sent = y.client.sent }) watch,
      )

  -- What a publisher without a summary stores after a new client has looked for the first one, and
  -- before it watches the publisher, is not sent: the client waits for a later version.
  pub run-missed :
      (e : Publisher.Event) (p : Publisher.Publisher)
      → p.latest ≡ fine none
      → let y =
          run array_push n
            (of_client looks ∷ of_publisher e ∷ of_client watches ∷ of_client changes ∷ [])
            (record { publisher = p; client = new_client }) in
        y.client ≡ record { phase = waiting; seen = y.publisher.watch; sent = [] }
  unfolding run step act
  run-missed e p h =
      let p' = Publisher.on_event array_push n p.phase e p in
      ap (λ (c : Client). act p'.watch p'.latest c.phase changes c)
        (ap (λ (c : Client). act p'.watch p'.latest c.phase watches c)
          (ap (λ l. on_initial l new_client) h))
      ∙ ap
          (λ b.
            let c : Client = record { phase = waiting; seen = p'.watch; sent = [] } in
            if b then c else on_latest p'.latest c)
          (stale p'.watch)
