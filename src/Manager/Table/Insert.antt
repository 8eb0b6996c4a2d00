-- ===== src/Manager/Table/Insert.antt =====
-- A feed that is opened keeps the table and the list of all feeds in agreement.
use mathlib.Core.Option.{some-injective}
use text.Mathlib.Text.{◌==◌ as str_eq}
use aggbook.Prelude.{
  get_elem?-concat_inv, get_elem?-append, get_elem?-concat_last, get_elem?-lt, ℕ, ◌≡◌, ap, sym,
  subst, ◌∙◌, inl, inr, false, Bool-cases, String, none, some, [], ◌∷◌, ◌++◌, length, get_elem?,
  arith,
}
use aggbook.HashMap.{insert, lookup}
use aggbook.HashMap.Laws.{lookup-insert_hit, lookup-insert_miss, insert-IsDistinct}
use aggbook.Instrument.Laws.{str_eq-IsEq}
use aggbook.Manager.{Feed, Manager}
use aggbook.Manager.Table.{IsTracked, IsWellFormed, IsTracked-lookup}

module _ {S : Type 0} where
  -- The feeds that were there before are not under the symbol of a new one.
  insert-IsTracked :
      (symbol : String) (m : Manager S) (j : ℕ) (b : Feed S)
      → lookup str_eq symbol m.feeds ≡ none
      → get_elem? m.store j ≡ some b
      → IsTracked m.closing m.feeds j b
      → IsTracked m.closing (insert str_eq symbol (length m.store) m.feeds) j b
  insert-IsTracked symbol m j b n old t = elim (Bool-cases (str_eq symbol b.instrument.symbol)) [
    | inl same ↦ elim t [
      | inl (p, _) ↦ absurd (
          cc (
            sym n
            ∙ ap (λ k. lookup str_eq k m.feeds) ((str_eq-IsEq symbol b.instrument.symbol).0 same)
            ∙ p))
      | inr (_, q) ↦ inr (
        (λ e.
            let d = some-injective _ _ (
              sym (
                lookup-insert_hit str_eq str_eq-IsEq symbol b.instrument.symbol (length m.store)
                  m.feeds same)
              ∙ e) in
            omega (arith, d, get_elem?-lt m.store j old)),
        q,
      )
    ]
    | inr other ↦
        IsTracked-lookup m.closing m.feeds (insert str_eq symbol (length m.store) m.feeds) j b
          (lookup-insert_miss str_eq str_eq-IsEq symbol b.instrument.symbol (length m.store) m.feeds
            other)
          t
  ]

  -- A new feed under a symbol that is not in the table.
  pub insert-IsWellFormed :
      (symbol : String) (s : Feed S) (m : Manager S)
      → m.is_shutting_down ≡ false
      → lookup str_eq symbol m.feeds ≡ none
      → s.instrument.symbol ≡ symbol
      → s.is_shut ≡ false
      → IsWellFormed m
      → IsWellFormed (record m {
        feeds = insert str_eq symbol (length m.store) m.feeds;
        store = m.store ++ s ∷ [];
      })
  insert-IsWellFormed symbol s m b n h k w = record {
    idle = inl (w.flagged b);
    flagged = w.flagged;
    distinct = insert-IsDistinct str_eq str_eq-IsEq symbol (length m.store) m.feeds w.distinct;
    tracked = λ j b e. elim (get_elem?-concat_inv m.store s j e) [
      | inl old ↦ insert-IsTracked symbol m j b n old (w.tracked j b old)
      | inr (p, q) ↦ inl (
        lookup-insert_hit str_eq str_eq-IsEq symbol b.instrument.symbol (length m.store) m.feeds (
              (str_eq-IsEq symbol b.instrument.symbol).1
                (sym (ap (λ (s : Feed S). s.instrument.symbol) q ∙ h)))
            ∙ ap some (sym p),
        ap (λ (s : Feed S). s.is_shut) q ∙ k,
      )
    ];
    known = λ key j e. elim (Bool-cases (str_eq symbol key)) [
      | inl same ↦
          let d = some-injective _ _ (
            sym (lookup-insert_hit str_eq str_eq-IsEq symbol key (length m.store) m.feeds same)
            ∙ e) in
          (
            s,
            subst (λ j. get_elem? (m.store ++ s ∷ []) j ≡ some s) d
                (get_elem?-concat_last m.store s),
            h ∙ (str_eq-IsEq symbol key).0 same,
          )
      | inr other ↦
          let (a, p, q) = w.known key j (
            sym (lookup-insert_miss str_eq str_eq-IsEq symbol key (length m.store) m.feeds other)
            ∙ e) in
          (a, get_elem?-append m.store (s ∷ []) j p, q)
    ];
  }
