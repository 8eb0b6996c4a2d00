-- ===== src/Manager/Table/Remove.antt =====
-- A feed that is removed from the table and shut down keeps the table and the list of all feeds in
-- agreement.
use mathlib.Core.Option.{some-injective}
use text.Mathlib.Text.{◌==◌ as str_eq}
use aggbook.Prelude.{
  eq_of, ℕ, ◌≡◌, ◌≢◌, refl, ap, sym, subst, ◌∙◌, inl, inr, Bool, true, false, Bool-cases, String,
  some, get_elem?, ◌==◌, if◌then◌else◌, arith,
}
use aggbook.HashMap.{lookup, remove}
use aggbook.HashMap.Laws.{lookup-remove_hit, lookup-remove_miss, remove-IsDistinct}
use aggbook.Instrument.Laws.{str_eq-IsEq}
use aggbook.Manager.{Feed, Manager, modify, shut}
use aggbook.Manager.Store.{get_elem?-modify_inv, get_elem?-modify}
use aggbook.Manager.Table.{IsTracked, IsWellFormed, IsTracked-lookup}

module _ {S : Type 0} where
  removed_self-IsTracked :
      (symbol : String) (f : ℕ) (m : Manager S) (a : Feed S)
      → IsWellFormed m
      → str_eq symbol a.instrument.symbol ≡ true
      → IsTracked m.closing (remove str_eq symbol m.feeds) f (shut a)
  removed_self-IsTracked symbol f m a w h = inr (
    (λ e. cc (
        sym (lookup-remove_hit str_eq str_eq-IsEq symbol a.instrument.symbol m.feeds w.distinct h)
        ∙ e)),
    inl refl,
  )

  removed_other-IsTracked :
      (symbol : String) (f j : ℕ) (m : Manager S) (a : Feed S)
      → lookup str_eq symbol m.feeds ≡ some f
      → f ≢ j
      → IsWellFormed m
      → IsTracked m.closing m.feeds j a
      → IsTracked m.closing (remove str_eq symbol m.feeds) j a
  removed_other-IsTracked symbol f j m a n d w t =
      elim (Bool-cases (str_eq symbol a.instrument.symbol)) [
        | inl same ↦ elim t [
          | inl (p, _) ↦ absurd (
              d (
                some-injective _ _ (
                  sym n
                  ∙ ap (λ k. lookup str_eq k m.feeds)
                      ((str_eq-IsEq symbol a.instrument.symbol).0 same)
                  ∙ p)))
          | inr (_, q) ↦ inr (
            (λ e. cc (
                sym (
                  lookup-remove_hit str_eq str_eq-IsEq symbol a.instrument.symbol m.feeds w.distinct
                    same)
                ∙ e)),
            q,
          )
        ]
        | inr other ↦
            IsTracked-lookup m.closing m.feeds (remove str_eq symbol m.feeds) j a
              (lookup-remove_miss str_eq str_eq-IsEq symbol a.instrument.symbol m.feeds w.distinct
                other)
              t
      ]

  removed-IsTracked :
      (symbol : String) (f j : ℕ) (m : Manager S) (a b : Feed S)
      → lookup str_eq symbol m.feeds ≡ some f
      → IsWellFormed m
      → get_elem? m.store j ≡ some a
      → b ≡ (if f == j then shut a else a)
      → IsTracked m.closing (remove str_eq symbol m.feeds) j b
  removed-IsTracked symbol f j m a b n w h k = elim (Bool-cases (f == j)) [
    | inl d ↦
        let (c, p, q) = w.known symbol f n in
        let same : c ≡ a = some-injective _ _ (sym p ∙ ap (get_elem? m.store) (eq_of f j d) ∙ h) in
        subst (IsTracked m.closing (remove str_eq symbol m.feeds) j) (sym (rw d at k)) (
          removed_self-IsTracked symbol j m a w (
            (str_eq-IsEq symbol a.instrument.symbol).1
              (sym q ∙ ap (λ (s : Feed S). s.instrument.symbol) same)))
    | inr d ↦
        subst (IsTracked m.closing (remove str_eq symbol m.feeds) j) (sym (rw d at k))
          (removed_other-IsTracked symbol f j m a n (λ e. ground (arith, e, d)) w (w.tracked j a h))
  ]

  -- The feed of a symbol is removed from the table and shut down.
  pub remove-IsWellFormed :
      (symbol : String) (f : ℕ) (m : Manager S)
      → lookup str_eq symbol m.feeds ≡ some f
      → IsWellFormed m
      → IsWellFormed
          (record m { feeds = remove str_eq symbol m.feeds; store = modify f shut m.store })
  unfolding lookup
  remove-IsWellFormed symbol f m n w = record {
    idle = elim w.idle [
      | inl e ↦ inl e
      | inr e ↦ absurd (cc (sym n ∙ ap (lookup str_eq symbol) e))
    ];
    flagged = w.flagged;
    distinct = remove-IsDistinct str_eq str_eq-IsEq symbol m.feeds w.distinct;
    tracked = λ j b e.
        let (a, h, k) = get_elem?-modify_inv f shut m.store j e in
        removed-IsTracked symbol f j m a b n w h k;
    known = λ key j e. elim (Bool-cases (str_eq symbol key)) [
      | inl same ↦
          absurd
            (cc (sym e ∙ lookup-remove_hit str_eq str_eq-IsEq symbol key m.feeds w.distinct same))
      | inr other ↦
          let (a, p, q) =
            w.known key j (
              sym (lookup-remove_miss str_eq str_eq-IsEq symbol key m.feeds w.distinct other)
              ∙ e) in
          (_, get_elem?-modify f shut m.store j p, shut_if-symbol (f == j) a ∙ q)
    ];
  }
    where
      shut_if-symbol :
          (b : Bool) (a : Feed S)
          → (if b then shut a else a).instrument.symbol ≡ a.instrument.symbol
      shut_if-symbol true a = refl
      shut_if-symbol false a = refl
