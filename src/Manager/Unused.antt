-- ===== src/Manager/Unused.antt =====
-- The table of the manager when a client comes or goes, and when a wait ends: the calls of
-- `on_subscribe`, `on_unsubscribe` and `remove_feed_if_unused` in
-- crates/aggserver/src/service/manager.rs.
use text.Mathlib.Text.{◌==◌ as str_eq}
use aggbook.Prelude.{
  ℕ, ◌≡◌, refl, ap, ◌∙◌, Bool, true, false, Option, none, some, get_elem?, ◌==◌, ◌&&◌,
  if◌then◌else◌, arith,
}
use aggbook.HashMap.{lookup, remove}
use aggbook.Manager.{
  Feed, Manager, modify, shut, on_subscribe, on_unsubscribe, wait, waited, remove_feed_if_unused,
  expire,
}
use aggbook.Manager.Table.{IsQuiet, IsWellFormed, modify-IsWellFormed}
use aggbook.Manager.Table.Remove.{remove-IsWellFormed}

same_and : (a b c : ℕ) → ((a == b) && (c == 0)) ≡ true → (a ≡ b) × (c ≡ 0)
same_and a b c h = ground arith

module _ {S : Type 0} where
  pub on_subscribe-IsQuiet : IsQuiet {S = S} on_subscribe
  unfolding on_subscribe
  on_subscribe-IsQuiet s = ground arith

  pub on_unsubscribe-IsQuiet : IsQuiet {S = S} on_unsubscribe
  unfolding on_unsubscribe
  on_unsubscribe-IsQuiet s = ground arith

  pub wait-IsQuiet : IsQuiet {S = S} wait
  unfolding wait
  wait-IsQuiet s = ground arith

  either-IsWellFormed :
      (b : Bool) (m m' : Manager S)
      → IsWellFormed m
      → IsWellFormed m'
      → IsWellFormed (if b then m else m')
  either-IsWellFormed true m m' w w' = w
  either-IsWellFormed false m m' w w' = w'

  remove_feed_if_unused-IsWellFormed :
      (f : ℕ) (s : Feed S) (m : Manager S)
      → IsWellFormed m
      → IsWellFormed (remove_feed_if_unused f s m)
  unfolding remove_feed_if_unused
  remove_feed_if_unused-IsWellFormed f s m w =
      at_symbol (lookup str_eq s.instrument.symbol m.feeds) refl
    where
      unused :
          (b : Bool) (current : ℕ)
          → ((current == f) && (s.subscriptions == 0)) ≡ b
          → lookup str_eq s.instrument.symbol m.feeds ≡ some current
          → IsWellFormed (
              if b
              then record m {
                feeds = remove str_eq s.instrument.symbol m.feeds;
                store = modify f shut m.store;
              }
              else m)
      unused true current h q =
          remove-IsWellFormed s.instrument.symbol f m
            (q ∙ ap some (same_and current f s.subscriptions h).0) w
      unused false current h q = w

      at_symbol :
          (o : Option ℕ)
          → lookup str_eq s.instrument.symbol m.feeds ≡ o
          → IsWellFormed (elim o [
            | none ↦ m
            | some current ↦
                if (current == f) && (s.subscriptions == 0)
                then record m {
                  feeds = remove str_eq s.instrument.symbol m.feeds;
                  store = modify f shut m.store;
                }
                else m
          ])
      at_symbol none q = w
      at_symbol (some current) q = unused ((current == f) && (s.subscriptions == 0)) current refl q

  pub expire-IsWellFormed : (f : ℕ) (m : Manager S) → IsWellFormed m → IsWellFormed (expire f m)
  unfolding expire
  expire-IsWellFormed f m w = at_place (get_elem? m.store f)
    where
      at_place :
          (o : Option (Feed S))
          → IsWellFormed (elim o [
            | none ↦ m
            | some s ↦
                if s.waiting == 0
                then m
                else remove_feed_if_unused f
                    (waited s)
                    (record m { store = modify f waited m.store })
          ])
      at_place none = w
      at_place (some s) = either-IsWellFormed (s.waiting == 0) m _ w (
          remove_feed_if_unused-IsWellFormed f (waited s)
            (record m { store = modify f waited m.store })
            (modify-IsWellFormed f waited m (λ s. (refl, refl)) w))
