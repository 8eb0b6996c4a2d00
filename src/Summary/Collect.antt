-- ===== src/Summary/Collect.antt =====
-- The maps that `to_proto` builds: keys in order, under each the levels of that price, and no level
-- lost. One section for bids and asks: a key's `cmp` goes by its place.
pub mod Loop
pub mod Gather
use mathlib.Core.List.{perm_middle, append_assoc}
use mathlib.Core.List.Perm
use aggbook.Prelude.{
  ℕ, ◌+◌, ◌≤◌, ◌<◌, ◌≡◌, refl, ap, sym, subst, ◌∙◌, compare, Ordering, List, [], ◌∷◌, ◌++◌, map,
  Perm, length, length-append, Outcome, ok, panic, ◌>>=◌, >>=-eq-ok, ok-injective, ltb, ◌==◌,
  if◌then◌else◌, All, All-imp, All-left, All-right, All-append, Ordered, Ordered-insert,
  Ordered-split, Ordered-append, arith,
}
use aggbook.BTreeMap.{BTreeMap}
use aggbook.Keys.Order.{PriceKey}
use aggbook.Summary.{Level, level_proto, collect}

-- `ArrayVec::push` as documented: it appends, and panics where the array is full.
pub record IsArrayVec (n : ℕ) (array_push : List Level → Level → Outcome (List Level))
    : Type 0 where
  pub push_lem :
      (v : List Level) (x : Level)
      → array_push v x ≡ (if ltb (length v) n then ok (v ++ x ∷ []) else panic)

-- All the levels that stand in a map.
abbrev pub entries : {K : Type 0} → BTreeMap K (List Level) → List Level
entries [] = []
entries ((k, v) ∷ m) = v ++ entries m

pub entries-append :
    {K : Type 0} (l r : BTreeMap K (List Level)) → entries (l ++ r) ≡ entries l ++ entries r
entries-append [] r = refl
entries-append ((k, v) ∷ l) r =
    rw (entries-append l r) (sym (append_assoc v (entries l) (entries r)))

pub array_push-eq-ok :
    (n : ℕ) (array_push : List Level → Level → Outcome (List Level))
    (array : IsArrayVec n array_push) (v : List Level) (x : Level) {w : List Level}
    → array_push v x ≡ ok w
    → w ≡ v ++ x ∷ []
array_push-eq-ok n array_push array v x e = ground (arith, array.push_lem v x)

module _ (side : PriceKey) where
  open side use {Key, new, place, IsGood}

  -- The place of a level's price.
  abbrev pub place_of : Level → ℕ
  place_of l = place (new l.price)

  abbrev pub count_at : ℕ → List Level → ℕ
  count_at q [] = 0
  count_at q (l ∷ ls) = (if place_of l == q then 1 else 0) + count_at q ls

  -- What holds of one entry of a map that holds the levels `ls`.
  pub record IsEntry (ls : List Level) (p : Key × List Level) : Type 0 where
    pub good : IsGood p.0
    pub grouped : All (λ l. place_of l ≡ place p.0) p.1
    pub occupied_by : 0 < length p.1
    pub counted : length p.1 ≤ count_at (place p.0) ls

  abbrev pub KeyBefore : Key × List Level → Key × List Level → Type 0
  KeyBefore p q = place p.0 < place q.0

  -- The map `m` holds the levels `ls`.
  pub record Collected (m : BTreeMap Key (List Level)) (ls : List Level) : Type 0 where
    pub ordered : Ordered KeyBefore m
    pub each : All (IsEntry ls) m
    pub contents : Perm (entries m) ls

  IsEntry-cons :
      (x : Level) (ls : List Level) (p : Key × List Level) → IsEntry ls p → IsEntry (x ∷ ls) p
  IsEntry-cons x ls p e = record {
    good = e.good;
    grouped = e.grouped;
    occupied_by = e.occupied_by;
    counted = omega (arith, e.counted);
  }

  IsEntry-new :
      (k : Key) (x : Level) (ls : List Level)
      → IsGood k
      → place_of x ≡ place k
      → IsEntry (x ∷ ls) (k, x ∷ [])
  IsEntry-new k x ls g h = record {
    good = g;
    grouped = (h, tt);
    occupied_by = omega arith;
    counted = ground arith;
  }

  IsEntry-push :
      (x : Level) (ls : List Level) (j : Key) (w : List Level)
      → place_of x ≡ place j
      → IsEntry ls (j, w)
      → IsEntry (x ∷ ls) (j, w ++ x ∷ [])
  IsEntry-push x ls j w h e = record {
    good = e.good;
    grouped = All-append _ w (x ∷ []) e.grouped (h, tt);
    occupied_by = omega (arith, length-append w (x ∷ []));
    counted = ground (arith, length-append w (x ∷ []), e.counted);
  }

  pub push_vacant :
      (x : Level) (ls : List Level) (k : Key) (l r : BTreeMap Key (List Level))
      → IsGood k
      → place_of x ≡ place k
      → All (λ p. place p.0 < place k) l
      → All (λ p. place k < place p.0) r
      → Collected (l ++ r) ls
      → Collected (l ++ (k, x ∷ []) ∷ r) (x ∷ ls)
  push_vacant x ls k l r g h a b c = record {
    ordered = Ordered-insert KeyBefore l (k, x ∷ []) r c.ordered a b;
    each =
        All-append (IsEntry (x ∷ ls)) l ((k, x ∷ []) ∷ r)
          (All-imp (IsEntry-cons x ls) l (All-left (IsEntry ls) l r c.each))
          (
            IsEntry-new k x ls g h,
            All-imp (IsEntry-cons x ls) r (All-right (IsEntry ls) l r c.each),
          );
    contents = rw (entries-append l ((k, x ∷ []) ∷ r)) (
        Perm.trans (perm_middle (entries l) (entries r))
          (Perm.cons x (rw (entries-append l r) at c.contents)));
  }

  pub push_occupied :
      (x : Level) (ls : List Level) (j : Key) (w : List Level) (l r : BTreeMap Key (List Level))
      → place_of x ≡ place j
      → Collected (l ++ (j, w) ∷ r) ls
      → Collected (l ++ (j, w ++ x ∷ []) ∷ r) (x ∷ ls)
  push_occupied x ls j w l r h c =
      let (o, o', cross) = Ordered-split KeyBefore l ((j, w) ∷ r) c.ordered in
      let (e, es) = All-right (IsEntry ls) l ((j, w) ∷ r) c.each in
      record {
        ordered = Ordered-append KeyBefore l ((j, w ++ x ∷ []) ∷ r) o o' cross;
        each =
            All-append (IsEntry (x ∷ ls)) l ((j, w ++ x ∷ []) ∷ r)
              (All-imp (IsEntry-cons x ls) l (All-left (IsEntry ls) l ((j, w) ∷ r) c.each))
              (IsEntry-push x ls j w h e, All-imp (IsEntry-cons x ls) r es);
        contents =
            rw
              (
                entries-append l ((j, w ++ x ∷ []) ∷ r),
                append_assoc w (x ∷ []) (entries r),
                ← append_assoc (entries l) w (x ∷ entries r),
              )
              (Perm.trans (perm_middle (entries l ++ w) (entries r)) (
                Perm.cons x (
                  rw (entries-append l ((j, w) ∷ r), ← append_assoc (entries l) w (entries r)) at
                    c.contents)));
      }
