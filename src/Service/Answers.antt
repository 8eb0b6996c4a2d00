-- ===== src/Service/Answers.antt =====
-- What the answer to a request tells about the manager.
use text.Mathlib.Text.{◌==◌ as str_eq}
use aggbook.Prelude.{
  subst, ℕ, ◌≡◌, refl, ap, sym, Bool, true, false, Bool-cases, inl, inr, String, Option, some, none,
  List, Outcome, ok, err, panic, if◌then◌else◌,
}
use aggbook.HashMap.{lookup}
use aggbook.Instrument.{Instrument, new_map}
use aggbook.Factory.{SummarySourceFactoryMap}
use aggbook.Manager.{Feed, Manager, make_feed, insert_feed, open_feed}
use aggbook.Manager.Opening.{opening, open_feed-opening, open_feed-found}
use aggbook.Service.{
  invalid_argument, Reply, stream, refused, crashed, reply_of, open_summary_stream, book_summary,
  book_summary_for_symbol,
}

module _ {S : Type 0} (is : List Instrument) (factories : SummarySourceFactoryMap S) where
  -- A stream is of the feed that the table has under the symbol, while the manager does not shut
  -- down; a request without a stream has changed nothing.
  abbrev pub IsAnswer : String → Manager S → Reply × Manager S → Type 0
  IsAnswer symbol m (stream f, m') =
      (lookup str_eq symbol m'.feeds ≡ some f) × (m'.is_shutting_down ≡ false)
  IsAnswer symbol m (refused status, m') = m' ≡ m
  IsAnswer symbol m (crashed, m') = m' ≡ m

  -- An `open` that fails has changed nothing.
  IsKept : Manager S → Outcome ℕ × Manager S → Type 0
  IsKept m (ok f, m') = Unit
  IsKept m (err e, m') = m' ≡ m
  IsKept m (panic, m') = m' ≡ m

  inserted-IsKept :
      (symbol : String) (m : Manager S) (o : Outcome (Feed S))
      → IsKept m (insert_feed (new_map is) factories symbol o m)
  unfolding IsKept
  inserted-IsKept symbol m (ok s) = tt
  inserted-IsKept symbol m (err e) = refl
  inserted-IsKept symbol m panic = refl

  opening-IsKept :
      (symbol : String) (m : Manager S) (b : Bool) (o : Option ℕ)
      → IsKept m (opening is factories symbol m b o)
  unfolding IsKept opening
  opening-IsKept symbol m true o = refl
  opening-IsKept symbol m false none =
      inserted-IsKept symbol m (make_feed (new_map is) factories symbol)
  opening-IsKept symbol m false (some f) = tt

  reply_of-IsAnswer :
      (symbol : String) (m : Manager S) (r : Outcome ℕ × Manager S)
      → open_feed (new_map is) factories symbol m ≡ r
      → IsKept m r
      → IsAnswer symbol m (reply_of r)
  unfolding IsKept
  reply_of-IsAnswer symbol m (ok f, m') e k =
      let (p, q) = open_feed-found is factories symbol m m' f e in (q, p)
  reply_of-IsAnswer symbol m (err x, m') e k = k
  reply_of-IsAnswer symbol m (panic, m') e k = k

  open_summary_stream-IsAnswer :
      (symbol : String) (m : Manager S)
      → IsAnswer symbol m (open_summary_stream (new_map is) factories symbol m)
  unfolding open_summary_stream
  open_summary_stream-IsAnswer symbol m =
      reply_of-IsAnswer symbol m (open_feed (new_map is) factories symbol m) refl (
        subst (IsKept m) (sym (open_feed-opening is factories symbol m))
          (opening-IsKept symbol m m.is_shutting_down (lookup str_eq symbol m.feeds)))

  -- Both requests: a stream is of the feed that the manager's table then has under the symbol, and
  -- the manager does not shut down; a request that is refused, or whose handler panics, has left the
  -- manager as it was.
  pub book_summary_for_symbol-IsAnswer :
      (symbol : String) (m : Manager S)
      → IsAnswer symbol m (book_summary_for_symbol (new_map is) factories symbol m)
        × IsAnswer symbol m (book_summary (new_map is) factories symbol m)
  unfolding book_summary_for_symbol book_summary
  book_summary_for_symbol-IsAnswer symbol m = (
    elim (Bool-cases (str_eq symbol "")) [
      | inl e ↦
          subst (IsAnswer symbol m)
            (sym (
              ap
                (λ b.
                  if b
                  then (refused (invalid_argument "Symbol cannot be empty"), m)
                  else open_summary_stream (new_map is) factories symbol m)
                e))
            refl
      | inr e ↦
          subst (IsAnswer symbol m)
            (sym (
              ap
                (λ b.
                  if b
                  then (refused (invalid_argument "Symbol cannot be empty"), m)
                  else open_summary_stream (new_map is) factories symbol m)
                e))
            (open_summary_stream-IsAnswer symbol m)
    ],
    open_summary_stream-IsAnswer symbol m,
  )
