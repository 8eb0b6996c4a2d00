-- ===== src/Manager/Table.antt =====
-- The table of feeds and the list of all feeds agree: a feed stands in the table under its symbol
-- until it is shut down, and no longer.
pub mod Insert
pub mod Remove
use mathlib.Core.Option.{some-injective}
use text.Mathlib.Text.{◌==◌ as str_eq}
use aggbook.Prelude.{
  eq_of, get_elem?-concat_inv, get_elem?-append, get_elem?-concat_last, get_elem?-lt, ℕ, ◌≡◌, ◌≢◌,
  refl, ap, sym, subst, ◌∙◌, ◌⊎◌, inl, inr, Bool, true, false, Bool-cases, String, none, some, List,
  [], ◌∷◌, ◌++◌, length, get_elem?, ◌==◌, if◌then◌else◌, arith,
}
use aggbook.HashMap.{HashMap, insert, lookup, remove}
use aggbook.HashMap.Laws.{
  IsDistinct, lookup-insert_hit, lookup-insert_miss, insert-IsDistinct, lookup-remove_hit,
  lookup-remove_miss, remove-IsDistinct,
}
use aggbook.Instrument.{Instrument}
use aggbook.Instrument.Laws.{str_eq-IsEq}
use aggbook.Manager.{Feed, Manager, modify, shut}
use aggbook.Manager.Store.{get_elem?-modify_inv, get_elem?-modify}

-- The place is one of those.
abbrev pub IsIn : ℕ → List ℕ → Type 0
IsIn f [] = ⊥
IsIn f (g ∷ gs) = (g ≡ f) ⊎ IsIn f gs

module _ {S : Type 0} where
  abbrev pub IsLeaving : List ℕ → ℕ → Feed S → Type 0
  IsLeaving closing f s = (s.is_shut ≡ true) ⊎ IsIn f closing

  -- The feed at the place `f` is in the table and runs, or it is not in the table and is shut down or
  -- about to be.
  abbrev pub IsTracked : List ℕ → HashMap String ℕ → ℕ → Feed S → Type 0
  IsTracked closing feeds f s =
      ((lookup str_eq s.instrument.symbol feeds ≡ some f) × (s.is_shut ≡ false))
      ⊎ ((¬ (lookup str_eq s.instrument.symbol feeds ≡ some f)) × IsLeaving closing f s)

  -- A place of the table is that of a feed of the symbol.
  abbrev pub IsKnown : List (Feed S) → String → ℕ → Type 0
  IsKnown store symbol f =
      (s : Feed S) × (get_elem? store f ≡ some s) × (s.instrument.symbol ≡ symbol)

  pub record IsWellFormed (m : Manager S) : Type 0 where
    pub distinct : IsDistinct str_eq m.feeds
    pub tracked :
        (f : ℕ) (s : Feed S) → get_elem? m.store f ≡ some s → IsTracked m.closing m.feeds f s
    pub known :
        (symbol : String) (f : ℕ) → lookup str_eq symbol m.feeds ≡ some f → IsKnown m.store symbol f
    -- While feeds are about to be shut down the table is empty, and the manager is shutting down.
    pub idle : (m.closing ≡ []) ⊎ (m.feeds ≡ [])
    pub flagged : m.is_shutting_down ≡ false → m.closing ≡ []

  -- A method that touches neither the instrument nor the shutdown.
  abbrev pub IsQuiet : (Feed S → Feed S) → Type 0
  IsQuiet g = (s : Feed S) → ((g s).instrument ≡ s.instrument) × ((g s).is_shut ≡ s.is_shut)

  IsLeaving-same :
      (closing : List ℕ) (f : ℕ) (s t : Feed S)
      → t.is_shut ≡ s.is_shut
      → IsLeaving closing f s
      → IsLeaving closing f t
  IsLeaving-same closing f s t k (inl q) = inl (k ∙ q)
  IsLeaving-same closing f s t k (inr q) = inr q

  IsTracked-same :
      (closing : List ℕ) (feeds : HashMap String ℕ) (f : ℕ) (s t : Feed S)
      → t.instrument ≡ s.instrument
      → t.is_shut ≡ s.is_shut
      → IsTracked closing feeds f s
      → IsTracked closing feeds f t
  IsTracked-same closing feeds f s t h k (inl (p, q)) =
      inl (ap (λ (i : Instrument). lookup str_eq i.symbol feeds) h ∙ p, k ∙ q)
  IsTracked-same closing feeds f s t h k (inr (p, q)) = inr (
    (λ e. p (ap (λ (i : Instrument). lookup str_eq i.symbol feeds) (sym h) ∙ e)),
    IsLeaving-same closing f s t k q,
  )

  either-IsQuiet :
      (b : Bool) (g : Feed S → Feed S) (s : Feed S)
      → IsQuiet g
      → ((if b then g s else s).instrument ≡ s.instrument)
        × ((if b then g s else s).is_shut ≡ s.is_shut)
  either-IsQuiet true g s q = q s
  either-IsQuiet false g s q = (refl, refl)

  pub modify-IsWellFormed :
      (f : ℕ) (g : Feed S → Feed S) (m : Manager S)
      → IsQuiet g
      → IsWellFormed m
      → IsWellFormed (record m { store = modify f g m.store })
  modify-IsWellFormed f g m q w = record {
    idle = w.idle;
    flagged = w.flagged;
    distinct = w.distinct;
    tracked = λ j b e.
        let (a, h, k) = get_elem?-modify_inv f g m.store j e in
        let (i, d) = either-IsQuiet (f == j) g a q in
        IsTracked-same m.closing m.feeds j a b (ap (λ (s : Feed S). s.instrument) k ∙ i)
          (ap (λ (s : Feed S). s.is_shut) k ∙ d) (w.tracked j a h);
    known = λ symbol j e.
        let (a, h, k) = w.known symbol j e in
        (
          _,
          get_elem?-modify f g m.store j h,
          ap (λ (i : Instrument). i.symbol) (either-IsQuiet (f == j) g a q).0 ∙ k,
        );
  }

  IsTracked-lookup :
      (closing : List ℕ) (feeds feeds' : HashMap String ℕ) (f : ℕ) (s : Feed S)
      → lookup str_eq s.instrument.symbol feeds' ≡ lookup str_eq s.instrument.symbol feeds
      → IsTracked closing feeds f s
      → IsTracked closing feeds' f s
  IsTracked-lookup closing feeds feeds' f s h (inl (p, q)) = inl (h ∙ p, q)
  IsTracked-lookup closing feeds feeds' f s h (inr (p, q)) = inr ((λ e. p (sym h ∙ e)), q)
