-- ===== src/Manager/Opening.antt =====
-- `Manager::open`: what it finds, and what it refuses.
use text.Mathlib.Text.{◌==◌ as str_eq}
use aggbook.Prelude.{
  none, length, ok-injective, ℕ, ◌≡◌, refl, ap, sym, ◌∙◌, Bool, true, false, String, Option, none,
  some, List, Outcome, ok, err, panic, if◌then◌else◌,
}
use aggbook.HashMap.{lookup}
use aggbook.HashMap.Laws.{lookup-insert_hit}
use aggbook.Instrument.{Instrument, new_map}
use aggbook.Instrument.Laws.{str_eq-IsEq}
use aggbook.Factory.{SummarySourceFactoryMap}
use aggbook.Manager.{Feed, Manager, make_feed, insert_feed, open_feed}

module _ {S : Type 0} (is : List Instrument) (factories : SummarySourceFactoryMap S) where
  -- What `open` does by the flag and by what it finds.
  unfoldable pub opening : String → Manager S → Bool → Option ℕ → Outcome ℕ × Manager S
  opening symbol m b o = if b then (err "Manager is shutting down", m) else elim o [
    | some f ↦ (ok f, m)
    | none ↦ insert_feed (new_map is) factories symbol (make_feed (new_map is) factories symbol) m
  ]

  pub open_feed-opening :
      (symbol : String) (m : Manager S)
      → open_feed (new_map is) factories symbol m
        ≡ opening symbol m m.is_shutting_down (lookup str_eq symbol m.feeds)
  unfolding open_feed opening
  open_feed-opening symbol m = refl

  pub open_feed-refused :
      (symbol : String) (m : Manager S)
      → m.is_shutting_down ≡ true
      → open_feed (new_map is) factories symbol m ≡ (err "Manager is shutting down", m)
  unfolding opening
  open_feed-refused symbol m h =
      open_feed-opening symbol m ∙ ap (λ b. opening symbol m b (lookup str_eq symbol m.feeds)) h

  inserted-found :
      (symbol : String) (m m' : Manager S) (f : ℕ) (o : Outcome (Feed S))
      → m.is_shutting_down ≡ false
      → insert_feed (new_map is) factories symbol o m ≡ (ok f, m')
      → (m'.is_shutting_down ≡ false) × (lookup str_eq symbol m'.feeds ≡ some f)
  inserted-found symbol m m' f (ok s) h e =
      let new = ap (λ (r : Outcome ℕ × Manager S). r.1) e in
      (
        ap (λ (m : Manager S). m.is_shutting_down) (sym new) ∙ h,
        ap (λ (m : Manager S). lookup str_eq symbol m.feeds) (sym new)
            ∙ lookup-insert_hit str_eq str_eq-IsEq symbol symbol (length m.store) m.feeds
                ((str_eq-IsEq symbol symbol).1 refl)
            ∙ ap some (ok-injective (ap (λ (r : Outcome ℕ × Manager S). r.0) e)),
      )
  inserted-found symbol m m' f (err x) h e = absurd (cc (ap (λ (r : Outcome ℕ × Manager S). r.0) e))
  inserted-found symbol m m' f panic h e = absurd (cc (ap (λ (r : Outcome ℕ × Manager S). r.0) e))

  opening-found :
      (symbol : String) (m m' : Manager S) (f : ℕ) (b : Bool) (o : Option ℕ)
      → m.is_shutting_down ≡ b
      → lookup str_eq symbol m.feeds ≡ o
      → opening symbol m b o ≡ (ok f, m')
      → (m'.is_shutting_down ≡ false) × (lookup str_eq symbol m'.feeds ≡ some f)
  unfolding opening
  opening-found symbol m m' f true o h k e = absurd (cc (ap (λ (r : Outcome ℕ × Manager S). r.0) e))
  opening-found symbol m m' f false none h k e =
      inserted-found symbol m m' f (make_feed (new_map is) factories symbol) h e
  opening-found symbol m m' f false (some g) h k e =
      let same = ap (λ (r : Outcome ℕ × Manager S). r.1) e in
      (
        ap (λ (m : Manager S). m.is_shutting_down) (sym same) ∙ h,
        ap (λ (m : Manager S). lookup str_eq symbol m.feeds) (sym same)
            ∙ k
            ∙ ap some (ok-injective (ap (λ (r : Outcome ℕ × Manager S). r.0) e)),
      )

  pub open_feed-found :
      (symbol : String) (m m' : Manager S) (f : ℕ)
      → open_feed (new_map is) factories symbol m ≡ (ok f, m')
      → (m'.is_shutting_down ≡ false) × (lookup str_eq symbol m'.feeds ≡ some f)
  open_feed-found symbol m m' f e =
      opening-found symbol m m' f m.is_shutting_down (lookup str_eq symbol m.feeds) refl refl
        (sym (open_feed-opening symbol m) ∙ e)
