-- ===== src/Book/Levels.antt =====
-- A bounded array of levels is a list that takes no more than `n` entries.
use native.Mathlib.Numerals.{add-one}
use aggbook.Prelude.{
  lt→ltb, ◌<◌, ◌+◌, refl, ℕ, ◌≤◌, ◌≡◌, [], ◌∷◌, ◌++◌, length, length-set, length-replicate,
  take-set_next, arith,
}
use aggbook.Book.{PriceLevel, ContributorLevels, new_levels, push, as_slice}

-- The array has its full size, and no more of it is in use.
pub record IsWellFormed (n : ℕ) (c : ContributorLevels) : Type 0 where
  pub sized : length c.levels ≡ n
  pub fits : c.depth ≤ n

pub new_levels-IsWellFormed : (n : ℕ) → IsWellFormed n (new_levels n)
new_levels-IsWellFormed n = record { sized = length-replicate n _; fits = omega arith }

pub push-IsWellFormed :
    (n : ℕ) (level : PriceLevel) (c : ContributorLevels)
    → IsWellFormed n c
    → IsWellFormed n (push n level c)
unfolding push
push-IsWellFormed n level c w = ground (arith, length-set c.levels c.depth level)

-- With room left the slice grows by the level.
pub push-room :
    (n : ℕ) (level : PriceLevel) (c : ContributorLevels)
    → IsWellFormed n c
    → c.depth < n
    → (as_slice (push n level c) ≡ as_slice c ++ level ∷ [])
      × ((push n level c).depth ≡ c.depth + 1)
unfolding push
push-room n level c w h =
    rw (lt→ltb c.depth n h)
      (rw add-one (take-set_next c.depth c.levels level (omega (arith, w.sized))), refl)
