-- ===== src/Closing/Returning.antt =====
-- How the shutdown of a feed comes to return.
use aggbook.Prelude.{
  ℕ, zero, suc, ◌+◌, ◌≡◌, refl, ap, ◌∙◌, true, false, Bool, String, Option, some, none, List, [],
  ◌∷◌, ◌++◌, not, ◌&&◌, map, get_elem?, set, length, length-set, get_elem?-set_self, Outcome,
  if◌then◌else◌, arith,
}
use aggbook.Book.{ContributorSnapshot}
use aggbook.Summary.{Level}
use aggbook.Relay as Relay
use aggbook.Relay.{Relay}
use aggbook.Publisher as Publisher
use aggbook.Pipeline as Pipeline
use aggbook.Pipeline.{Pipeline, of_source, closes, is_running}
use aggbook.Pipeline.Turns.{run-free}
use aggbook.Closing.{
  uncalled, joining, awaiting, returned, stored, awaited, Closing, Event, of_feed, goes_on,
  hears_signal, signalled, has_ended, wait_complete, join, advance, step, run,
}
use aggbook.Closing.Leaving.{
  CanEnd, AllCanEnd, leaving, run-leaving, past_end, before_end, AllCanEnd-set,
}

-- The relay of the source with this place leaves, and the call awaits it.
abbrev leaves : ℕ → List Event
leaves i = map of_feed (map (of_source i) leaving) ++ goes_on ∷ []

-- So do all from the place `i` on; then the call comes to the publisher, which takes the signal of
-- `close`.
abbrev pub winding_up : ℕ → ℕ → List Event
winding_up i zero = goes_on ∷ of_feed closes ∷ goes_on ∷ []
winding_up i (suc k) = leaves i ++ winding_up (i + 1) k

module _ (array_push : List Level → Level → Outcome (List Level)) (n : ℕ)
    (parse : ℕ → String → ℕ → Outcome (Option ContributorSnapshot)) where
  run-append :
      (es fs : List Event) (y : Closing)
      → run array_push n parse (es ++ fs) y
        ≡ run array_push n parse fs (run array_push n parse es y)
  unfolding run
  run-append [] fs y = refl
  run-append (e ∷ es) fs y = run-append es fs (step array_push n parse e y)

  step-of_source :
      (e : Relay.Event) (i j : ℕ) (y : Closing)
      → y.phase ≡ joining j
      → step array_push n parse (of_feed (of_source i e)) y
        ≡ record y { feed = Pipeline.step array_push n parse (of_source i e) y.feed }
  unfolding step
  step-of_source e i j y h =
      ap
        (λ b.
          if b
          then y
          else record y { feed = Pipeline.step array_push n parse (of_source i e) y.feed })
        (ap (λ f. hears_signal e && not (signalled f)) h ∙ and_false (hears_signal e))
    where
      and_false : (b : Bool) → (b && false) ≡ false
      and_false true = refl
      and_false false = refl

  -- After the signal no source is held back.
  run-of_source :
      (es : List Relay.Event) (i j : ℕ) (y : Closing)
      → y.phase ≡ joining j
      → run array_push n parse (map of_feed (map (of_source i) es)) y
        ≡ record y { feed = Pipeline.run array_push n parse (map (of_source i) es) y.feed }
  unfolding run Pipeline.run
  run-of_source [] i j y h = refl
  run-of_source (e ∷ es) i j y h =
      ap (run array_push n parse (map of_feed (map (of_source i) es))) (step-of_source e i j y h)
      ∙ run-of_source es i j
          (record y { feed = Pipeline.step array_push n parse (of_source i e) y.feed }) h

  -- One source's relay leaves, and the call goes on to the next.
  run-turn :
      (i : ℕ) (r : Relay.System) (y : Closing)
      → y.phase ≡ joining i
      → get_elem? y.feed.sources i ≡ some r
      → CanEnd r.relay.phase r.task.feed r.relay
      → run array_push n parse (leaves i) y ≡ record y {
        phase = joining (i + 1);
        feed = record y.feed { sources = set y.feed.sources i (Relay.run (parse i) leaving r) };
      }
  unfolding run step advance
  run-turn i r y h q k =
      run-append (map of_feed (map (of_source i) leaving)) (goes_on ∷ []) y
      ∙ ap (λ y. advance y.phase y)
          (run-of_source leaving i i y h
            ∙ ap (λ p. record y { feed = p })
                (run-free array_push n parse i leaving r y.feed q (tt, (tt, (tt, tt)))))
      ∙ ap (λ f. advance f left) h
      ∙ ap (λ o. join i o left)
          (get_elem?-set_self y.feed.sources i (Relay.run (parse i) leaving r) r q)
      ∙ ap (λ f. if has_ended f then record left { phase = joining (i + 1) } else left)
          (run-leaving (parse i) r.relay.phase r refl k)
    where
      left : Closing
      left = record y {
        feed = record y.feed { sources = set y.feed.sources i (Relay.run (parse i) leaving r) };
      }

  close-stops :
      (f : Publisher.Phase) (p : Publisher.Publisher)
      → p.phase ≡ f
      → is_running (Publisher.on_event array_push n f Publisher.close p).phase ≡ false
  unfolding Publisher.on_event
  close-stops Publisher.running p h = refl
  close-stops Publisher.closed p h = ap is_running h
  close-stops Publisher.crashed p h = ap is_running h

  run-past_end :
      (i : ℕ) (y : Closing)
      → y.phase ≡ joining i
      → y.handle ≡ stored
      → get_elem? y.feed.sources i ≡ none
      → step array_push n parse goes_on y ≡ record y { phase = awaiting; handle = awaited }
  unfolding step advance
  run-past_end i y p h e =
      ap (λ f. advance f y) p ∙ ap (λ o. join i o y) e ∙ ap (λ h. wait_complete h y) h

  -- The publisher takes the signal, and is awaited.
  run-close :
      (y : Closing)
      → y.phase ≡ awaiting
      → (run array_push n parse (of_feed closes ∷ goes_on ∷ []) y).phase ≡ returned
  unfolding run step advance Pipeline.step
  run-close y p =
      ap
        (λ f.
          (run array_push n parse (of_feed closes ∷ goes_on ∷ []) (record y { phase = f })).phase)
        p
      ∙ ap (λ b. (if b then closed_one else record closed_one { phase = returned }).phase)
          (close-stops y.feed.publisher.phase y.feed.publisher refl)
    where
      closed_one : Closing
      closed_one = record y {
        phase = awaiting;
        feed = Pipeline.step array_push n parse closes y.feed;
      }

  run-winding_up :
      (k i : ℕ) (y : Closing)
      → y.phase ≡ joining i
      → y.handle ≡ stored
      → i + k ≡ length y.feed.sources
      → AllCanEnd i y.feed
      → (run array_push n parse (winding_up i k) y).phase ≡ returned
  unfolding run
  run-winding_up zero i y p h l c =
      ap (λ (y : Closing). (run array_push n parse (of_feed closes ∷ goes_on ∷ []) y).phase)
        (run-past_end i y p h (past_end y.feed.sources i (omega (arith, l))))
      ∙ run-close (record y { phase = awaiting; handle = awaited }) refl
  run-winding_up (suc k) i y p h l c =
      let (r, e) = before_end y.feed.sources i (omega (arith, l)) in
      let xs = set y.feed.sources i (Relay.run (parse i) leaving r) in
      let z : Closing = record y {
        phase = joining (i + 1);
        feed = record y.feed { sources = xs };
      } in
      ap (λ (y : Closing). y.phase)
        (run-append (leaves i) (winding_up (i + 1) k) y
          ∙ ap (run array_push n parse (winding_up (i + 1) k))
              (run-turn i r y p e (c i r (omega arith) e)))
      ∙ run-winding_up k (i + 1) z refl h
          (omega (arith, l, length-set y.feed.sources i (Relay.run (parse i) leaving r)))
          (AllCanEnd-set i (Relay.run (parse i) leaving r) y.feed c)

  -- A shutdown that is called, with the handle of the publisher stored, returns when the relays of
  -- the sources leave one after the other and the publisher takes the signal of `close`, and they
  -- can do so if the relay of each source is at a send, has ended, or has a snapshot to take up that
  -- is the latest value of its feed.
  pub run-returned :
      (y : Closing)
      → y.phase ≡ uncalled
      → y.handle ≡ stored
      → AllCanEnd 0 y.feed
      → (run array_push n parse (goes_on ∷ winding_up 0 (length y.feed.sources)) y).phase ≡ returned
  unfolding run step advance
  run-returned y p h c =
      ap (λ f. (run array_push n parse (winding_up 0 (length y.feed.sources)) (advance f y)).phase)
        p
      ∙ run-winding_up (length y.feed.sources) 0
          (record y { phase = joining 0; told = length y.feed.clients }) refl h (omega arith) c
