-- ===== src/Viewer/Ending.antt =====
-- How the client's loop ends.
use aggbook.Prelude.{
  ℕ, suc, ◌≡◌, ◌≢◌, refl, sym, ap, subst, ◌∙◌, Bool, Option, List, [], ◌∷◌, ◌++◌, Outcome, ok, err,
  panic,
}
use mathlib.Core.List.{append_assoc, append-nil}
use aggbook.Nanos.{Duration}
use aggbook.Service.{Status, Item, item, failure, unavailable, into_grpc_stream}
use aggbook.Summary.{Summary}
use aggbook.Viewer.{
  display, Event, next, closed, interrupted, Exit, going, done, crashed, failed, lost, Viewer,
  first, print, on_event, run,
}

-- What ends the loop, and how the program then exits.
pub data Ends : Event → Exit → Type 0 where
  by_failure : (clock : Option ℕ) (e : Status) → Ends (next clock (failure e)) (failed e)
  by_close : Ends closed done
  by_signal : Ends interrupted done

-- The items of a stream, each at what the clock shows then, and the end of the stream.
abbrev pub streamed : (ℕ → Option ℕ) → ℕ → List (Item Summary) → List Event
streamed clock i [] = closed ∷ []
streamed clock i (x ∷ xs) = next (clock i) x ∷ streamed clock (suc i) xs

module _ (checks : Bool) (format_duration : Duration → List ℕ) where
  -- The summaries of the events, one for each text.
  abbrev pub Shows : List Event → List (List ℕ) → Type 0
  Shows [] [] = Unit
  Shows (e ∷ es) (t ∷ ts) =
      ((clock : Option ℕ) × (s : Summary) × (e ≡ next clock (item s))
        × (display checks format_duration clock s ≡ ok t))
      × Shows es ts
  Shows _ _ = ⊥

  on_event-ended :
      (x : Exit) (e : Event) (v : Viewer) → x ≢ going → on_event checks format_duration x e v ≡ v
  on_event-ended going e v h = absurd (h refl)
  on_event-ended done e v h = refl
  on_event-ended crashed e v h = refl
  on_event-ended (failed s) e v h = refl
  on_event-ended (lost m) e v h = refl

  run-ended : (es : List Event) (v : Viewer) → v.exit ≢ going → run checks format_duration es v ≡ v
  unfolding run
  run-ended [] v h = refl
  run-ended (e ∷ es) v h =
      ap (run checks format_duration es) (on_event-ended v.exit e v h) ∙ run-ended es v h

  run-end :
      (e : Event) (x : Exit) (rest : List Event) (texts : List (List ℕ))
      → Ends e x
      → run checks format_duration (e ∷ rest) (record { printed = texts; exit = going })
        ≡ record { printed = texts; exit = x }
  unfolding run
  run-end e x rest texts (by_failure clock s) =
      run-ended rest (record { printed = texts; exit = failed s }) (λ q. cc q)
  run-end e x rest texts by_close =
      run-ended rest (record { printed = texts; exit = done }) (λ q. cc q)
  run-end e x rest texts by_signal =
      run-ended rest (record { printed = texts; exit = done }) (λ q. cc q)

  run-Shows :
      (es : List Event) (ts texts : List (List ℕ)) (e : Event) (x : Exit) (rest : List Event)
      → Shows es ts
      → Ends e x
      → run checks format_duration (es ++ e ∷ rest) (record { printed = texts; exit = going })
        ≡ record { printed = texts ++ ts; exit = x }
  unfolding run
  run-Shows [] [] texts e x rest _ h =
      run-end e x rest texts h
      ∙ ap (λ ts. record { printed = ts; exit = x }) (sym (append-nil texts))
  run-Shows (e' ∷ es) (t ∷ ts) texts e x rest ((clock, s, q, d), shows) h =
      ap
        (λ e'.
          run checks format_duration (es ++ e ∷ rest)
            (on_event checks format_duration going e' (record { printed = texts; exit = going })))
        q
      ∙ ap
          (λ o.
            run checks format_duration (es ++ e ∷ rest)
              (print o (record { printed = texts; exit = going })))
          d
      ∙ run-Shows es ts (texts ++ t ∷ []) e x rest shows h
      ∙ ap (λ ts. record { printed = ts; exit = x }) (append_assoc texts (t ∷ []) ts)
  run-Shows [] (t ∷ ts) texts e x rest shows h = absurd shows
  run-Shows (e' ∷ es) [] texts e x rest shows h = absurd shows

  -- The client prints the texts of the summaries that come before the first failure, the end of the
  -- stream or the signal, each of them once and in order, and then it exits as what has ended it says;
  -- what would come later is not printed.
  pub run-Ends :
      (es : List Event) (ts : List (List ℕ)) (e : Event) (x : Exit) (rest : List Event)
      → Shows es ts
      → Ends e x
      → run checks format_duration (es ++ e ∷ rest) first ≡ record { printed = ts; exit = x }
  run-Ends es ts e x rest shows h = run-Shows es ts [] e x rest shows h

  on_next-ne-done :
      (x : Exit) (clock : Option ℕ) (y : Item Summary) (v : Viewer)
      → v.exit ≡ x
      → x ≢ done
      → (on_event checks format_duration x (next clock y) v).exit ≢ done
  on_next-ne-done going clock (item s) v q h = printed (display checks format_duration clock s)
    where
      printed : (o : Outcome (List ℕ)) → (print o v).exit ≢ done
      printed (ok t) e = cc (sym q ∙ e)
      printed (err m) e = cc e
      printed panic e = cc e
  on_next-ne-done going clock (failure s) v q h = λ e. cc e
  on_next-ne-done done clock y v q h = absurd (h refl)
  on_next-ne-done crashed clock y v q h = λ e. cc (sym q ∙ e)
  on_next-ne-done (failed s) clock y v q h = λ e. cc (sym q ∙ e)
  on_next-ne-done (lost m) clock y v q h = λ e. cc (sym q ∙ e)

  on_failure-ne-going :
      (x : Exit) (clock : Option ℕ) (s : Status) (v : Viewer)
      → v.exit ≡ x
      → (on_event checks format_duration x (next clock (failure s)) v).exit ≢ going
  on_failure-ne-going going clock s v q = λ e. cc e
  on_failure-ne-going done clock s v q = λ e. cc (sym q ∙ e)
  on_failure-ne-going crashed clock s v q = λ e. cc (sym q ∙ e)
  on_failure-ne-going (failed t) clock s v q = λ e. cc (sym q ∙ e)
  on_failure-ne-going (lost m) clock s v q = λ e. cc (sym q ∙ e)

  run-ne-done :
      (xs : List (Item Summary)) (clock : ℕ → Option ℕ) (i : ℕ) (v : Viewer)
      → v.exit ≢ done
      → (run checks format_duration (streamed clock i (into_grpc_stream xs)) v).exit ≢ done
  unfolding run into_grpc_stream
  run-ne-done [] clock i v h =
      let e = next (clock i) (failure (unavailable "stream ended")) in
      let v' = on_event checks format_duration v.exit e v in
      subst (λ (w : Viewer). w.exit ≢ done)
        (sym (run-ended (closed ∷ []) v' (on_failure-ne-going v.exit (clock i) _ v refl)))
        (on_next-ne-done v.exit (clock i) _ v refl h)
  run-ne-done (x ∷ xs) clock i v h =
      run-ne-done xs clock (suc i) (on_event checks format_duration v.exit (next (clock i) x) v)
        (on_next-ne-done v.exit (clock i) x v refl h)

  -- The client never sees the clean end of a stream of this server: whatever its channel has held,
  -- what comes through `into_grpc_stream` does not end the client's loop without an error.
  pub run-into_grpc_stream :
      (xs : List (Item Summary)) (clock : ℕ → Option ℕ)
      → (run checks format_duration (streamed clock 0 (into_grpc_stream xs)) first).exit ≢ done
  run-into_grpc_stream xs clock = run-ne-done xs clock 0 first (λ e. cc e)
