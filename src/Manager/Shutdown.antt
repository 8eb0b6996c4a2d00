-- ===== src/Manager/Shutdown.antt =====
-- The shutdown of the manager: the feeds of the table leave it, and are shut down in their order.
use mathlib.Core.Option.{some-injective}
use text.Mathlib.Text.{◌==◌ as str_eq}
use aggbook.Prelude.{
  ℕ, ◌≡◌, refl, ap, sym, subst, ◌∙◌, inl, inr, Bool, true, false, Bool-cases, String, some, List,
  [], ◌∷◌, ◌++◌, ◌==◌, if◌then◌else◌, arith,
}
use aggbook.HashMap.{HashMap, lookup}
use aggbook.Manager.{Feed, Manager, places, shut, shut_at, shut_next, drain}
use aggbook.Manager.Store.{get_elem?-modify_inv}
use aggbook.Manager.Table.{IsIn, IsLeaving, IsTracked, IsWellFormed}

IsIn-left : (f : ℕ) (xs ys : List ℕ) → IsIn f xs → IsIn f (xs ++ ys)
IsIn-left f [] ys h = absurd h
IsIn-left f (x ∷ xs) ys (inl e) = inl e
IsIn-left f (x ∷ xs) ys (inr h) = inr (IsIn-left f xs ys h)

IsIn-right : (f : ℕ) (xs ys : List ℕ) → IsIn f ys → IsIn f (xs ++ ys)
IsIn-right f [] ys h = h
IsIn-right f (x ∷ xs) ys h = inr (IsIn-right f xs ys h)

-- What the table finds is one of its places.
lookup-IsIn :
    (k : String) (f : ℕ) (m : HashMap String ℕ) → lookup str_eq k m ≡ some f → IsIn f (places m)
unfolding lookup
lookup-IsIn k f [] e = cc
lookup-IsIn k f ((j, g) ∷ m) e = elim (Bool-cases (str_eq j k)) [
  | inl h ↦ inl (some-injective _ _ (rw h at e))
  | inr h ↦ inr (lookup-IsIn k f m (rw h at e))
]

module _ {S : Type 0} where
  drained-IsTracked :
      (m : Manager S) (j : ℕ) (s : Feed S)
      → IsTracked m.closing m.feeds j s
      → IsTracked (m.closing ++ places m.feeds) [] j s
  unfolding lookup
  drained-IsTracked m j s (inl (p, _)) = inr (
    (λ e. cc e),
    inr (IsIn-right j m.closing (places m.feeds) (lookup-IsIn s.instrument.symbol j m.feeds p)),
  )
  drained-IsTracked m j s (inr (_, inl q)) = inr ((λ e. cc e), inl q)
  drained-IsTracked m j s (inr (_, inr q)) =
      inr ((λ e. cc e), inr (IsIn-left j m.closing (places m.feeds) q))

  -- All feeds of the table are about to be shut down.
  pub drain-IsWellFormed : (m : Manager S) → IsWellFormed m → IsWellFormed (drain m)
  unfolding drain lookup
  drain-IsWellFormed m w = drained m.is_shutting_down refl
    where
      drained :
          (b : Bool)
          → m.is_shutting_down ≡ b
          → IsWellFormed
              (if b then record m { feeds = []; closing = m.closing ++ places m.feeds } else m)
      drained true h = record {
        distinct = tt;
        tracked = λ j s e. drained-IsTracked m j s (w.tracked j s e);
        known = λ symbol j e. cc e;
        idle = inr refl;
        flagged = λ k. cc (sym h ∙ k);
      }
      drained false h = w

  -- The feed at the head of the queue is shut down, and the others are still in it.
  shut_one-IsLeaving :
      (f j : ℕ) (fs : List ℕ) (a b : Feed S)
      → b ≡ (if f == j then shut a else a)
      → IsLeaving (f ∷ fs) j a
      → IsLeaving fs j b
  shut_one-IsLeaving f j fs a b k h = elim (Bool-cases (f == j)) [
    | inl d ↦ inl (ap (λ (s : Feed S). s.is_shut) (rw d at k))
    | inr d ↦ elim h [
      | inl q ↦ inl (ap (λ (s : Feed S). s.is_shut) (rw d at k) ∙ q)
      | inr (inl e) ↦ absurd (ground (arith, e, d))
      | inr (inr q) ↦ inr q
    ]
  ]

  shut_at-IsWellFormed :
      (fs : List ℕ) (m : Manager S) → m.closing ≡ fs → IsWellFormed m → IsWellFormed (shut_at fs m)
  unfolding lookup
  shut_at-IsWellFormed [] m h w = w
  shut_at-IsWellFormed (f ∷ fs) m h w = record {
    distinct = w.distinct;
    tracked = λ j b e.
        let (a, p, k) = get_elem?-modify_inv f shut m.store j e in
        inr (
          gone (b.instrument.symbol) j,
          shut_one-IsLeaving f j fs a b k (leaving j a (w.tracked j a p)),
        );
    known = λ symbol j e. absurd (gone symbol j e);
    idle = inr empty;
    flagged = λ k. absurd (cc (sym h ∙ w.flagged k));
  }
    where
      empty : m.feeds ≡ []
      empty = elim w.idle [ inl e ↦ absurd (cc (sym h ∙ e)) | inr e ↦ e ]

      gone : (symbol : String) (j : ℕ) → ¬ (lookup str_eq symbol m.feeds ≡ some j)
      gone symbol j e = cc (sym e ∙ ap (lookup str_eq symbol) empty)

      leaving : (j : ℕ) (a : Feed S) → IsTracked m.closing m.feeds j a → IsLeaving (f ∷ fs) j a
      leaving j a (inl (p, _)) = absurd (gone a.instrument.symbol j p)
      leaving j a (inr (_, q)) = subst (λ c. IsLeaving c j a) h q

  pub shut_next-IsWellFormed : (m : Manager S) → IsWellFormed m → IsWellFormed (shut_next m)
  shut_next-IsWellFormed m w = shut_at-IsWellFormed m.closing m refl w
