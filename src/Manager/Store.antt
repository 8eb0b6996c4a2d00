-- ===== src/Manager/Store.antt =====
-- The list of all feeds: reads after a method has changed one of them.
use mathlib.Core.Option.{some-injective}
use aggbook.Prelude.{
  eq_of, ℕ, ◌≡◌, ap, sym, ◌∙◌, inl, inr, Bool-cases, some, Option-cases, List, get_elem?,
  get_elem?-set, get_elem?-set_inv, ◌==◌, if◌then◌else◌,
}
use aggbook.Manager.{Feed, modify}

module _ {S : Type 0} where
  pub get_elem?-modify_inv :
      (f : ℕ) (g : Feed S → Feed S) (st : List (Feed S)) (j : ℕ) {b : Feed S}
      → get_elem? (modify f g st) j ≡ some b
      → (a : Feed S) × (get_elem? st j ≡ some a) × (b ≡ (if f == j then g a else a))
  unfolding modify
  get_elem?-modify_inv f g st j {b} e = elim (Option-cases (get_elem? st f)) [
    | inl n ↦
        let e' = rw (n, modify) at e in
        (
          b,
          e',
          elim (Bool-cases (f == j)) [
            | inl h ↦ absurd (cc (sym e' ∙ ap (get_elem? st) (sym (eq_of f j h)) ∙ n))
            | inr h ↦ rw h
          ],
        )
    | inr (s, q) ↦
        let (a, h, k) = get_elem?-set_inv st f j (g s) (rw (q, modify) at e) in
        (
          a,
          h,
          elim (Bool-cases (f == j)) [
            | inl d ↦ rw d (
                rw d at k ∙ ap g (some-injective _ _ (sym q ∙ ap (get_elem? st) (eq_of f j d) ∙ h)))
            | inr d ↦ rw d (rw d at k)
          ],
        )
  ]

  pub get_elem?-modify :
      (f : ℕ) (g : Feed S → Feed S) (st : List (Feed S)) (j : ℕ) {a : Feed S}
      → get_elem? st j ≡ some a
      → get_elem? (modify f g st) j ≡ some (if f == j then g a else a)
  unfolding modify
  get_elem?-modify f g st j {a} e = elim (Option-cases (get_elem? st f)) [
    | inl n ↦ elim (Bool-cases (f == j)) [
      | inl h ↦ absurd (cc (sym e ∙ ap (get_elem? st) (sym (eq_of f j h)) ∙ n))
      | inr h ↦ rw (n, h, modify) e
    ]
    | inr (s, q) ↦ elim (Bool-cases (f == j)) [
      | inl d ↦
          rw (q, d, modify)
            (rw d at (get_elem?-set st f j (g s) a e)
              ∙ ap (λ x. some (g x))
                  (some-injective _ _ (sym q ∙ ap (get_elem? st) (eq_of f j d) ∙ e)))
      | inr d ↦ rw (q, d, modify) (rw d at (get_elem?-set st f j (g s) a e))
    ]
  ]
