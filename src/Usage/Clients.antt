-- ===== src/Usage/Clients.antt =====
-- The clients of a feed, and how many of them have not left.
use mathlib.Core.Option.{some-injective}
use aggbook.Prelude.{
  ℕ, zero, suc, ◌+◌, ◌≤◌, ◌≡◌, refl, ap, inl, inr, true, false, Bool, Bool-cases, String, Option,
  none, some, List, [], ◌∷◌, ◌++◌, get_elem?, set, length, length-set, length-append, Outcome,
  arith,
}
use aggbook.Book.{ContributorSnapshot}
use aggbook.Summary.{Level}
use aggbook.Publisher.{SummaryResult}
use aggbook.Relay as Relay
use aggbook.Publisher as Publisher
use aggbook.Client as Client
use aggbook.Client.{Client, new_client}
use aggbook.Pipeline as Pipeline
use aggbook.Pipeline.{Pipeline, of_source, receives, closes, joins, of_client}
use aggbook.Usage.{is_active}

-- A client that has not left counts.
abbrev pub one : Bool → ℕ
one true = 1
one false = 0

abbrev pub active : List Client → ℕ
active [] = 0
active (c ∷ cs) = one (is_active c.phase) + active cs

pub active-length : (cs : List Client) → active cs ≤ length cs
active-length [] = omega arith
active-length (c ∷ cs) = omega (arith, active-length cs, one-le (is_active c.phase))
  where
    one-le : (b : Bool) → one b ≤ 1
    one-le true = omega arith
    one-le false = omega arith

pub active-append : (cs : List Client) → active (cs ++ new_client ∷ []) ≡ active cs + 1
active-append [] = omega arith
active-append (c ∷ cs) = omega (arith, active-append cs)

pub active-set :
    (cs : List Client) (j : ℕ) (c d : Client)
    → get_elem? cs j ≡ some c
    → active (set cs j d) + one (is_active c.phase) ≡ active cs + one (is_active d.phase)
active-set [] j c d e = absurd (cc e)
active-set (x ∷ cs) zero c d e =
    omega (arith, ap (λ (c : Client). one (is_active c.phase)) (some-injective _ _ e))
active-set (x ∷ cs) (suc j) c d e = omega (arith, active-set cs j c d e)

-- A client that has left does not come back.
pub act-ended :
    (watch : ℕ) (latest : SummaryResult) (p : Client.Phase) (a : Client.Action) (c : Client)
    → c.phase ≡ p
    → is_active p ≡ false
    → is_active (Client.act watch latest p a c).phase ≡ false
unfolding Client.act
act-ended watch latest Client.ended Client.looks c h k = ap is_active h
act-ended watch latest Client.ended _ c h k = ap is_active h
act-ended watch latest Client.subscribed a c h k = cc
act-ended watch latest (Client.sending_first s) a c h k = cc
act-ended watch latest Client.unwatched a c h k = cc
act-ended watch latest Client.waiting a c h k = cc
act-ended watch latest (Client.sending s) a c h k = cc

-- A client at its place is one of those that count.
pub one-active :
    (cs : List Client) (j : ℕ) (c : Client)
    → get_elem? cs j ≡ some c
    → one (is_active c.phase) ≤ active cs
one-active [] j c e = absurd (cc e)
one-active (x ∷ cs) zero c e =
    omega (arith, ap (λ (c : Client). one (is_active c.phase)) (some-injective _ _ e))
one-active (x ∷ cs) (suc j) c e = omega (arith, one-active cs j c e)

pub on_source-clients :
    (parse : String → ℕ → Outcome (Option ContributorSnapshot)) (i : ℕ) (e : Relay.Event)
    (o : Option Relay.System) (y : Pipeline)
    → (Pipeline.on_source parse i e o y).clients ≡ y.clients
on_source-clients parse i e none y = refl
on_source-clients parse i e (some r) y = elim (Bool-cases (Pipeline.can_happen e y)) [
  | inl h ↦ rw h
  | inr h ↦ rw h
]

pub on_client-length :
    (j : ℕ) (a : Client.Action) (o : Option Client) (y : Pipeline)
    → length (Pipeline.on_client j a o y).clients ≡ length y.clients
on_client-length j a none y = refl
on_client-length j a (some c) y =
    length-set y.clients j (Client.act y.publisher.watch y.publisher.latest c.phase a c)

module _ (array_push : List Level → Level → Outcome (List Level)) (n : ℕ)
    (parse : ℕ → String → ℕ → Outcome (Option ContributorSnapshot)) where
  pub on_receive-clients :
      (f : Publisher.Phase) (q : List ContributorSnapshot) (y : Pipeline)
      → (Pipeline.on_receive array_push n f q y).clients ≡ y.clients
  on_receive-clients Publisher.running (s ∷ q) y = refl
  on_receive-clients Publisher.running [] y = refl
  on_receive-clients Publisher.closed q y = refl
  on_receive-clients Publisher.crashed q y = refl

  pub feed-length :
      (e : Pipeline.Event) (y : Pipeline)
      → length y.clients ≤ length (Pipeline.step array_push n parse e y).clients
  unfolding Pipeline.step
  feed-length (of_source i e) y =
      omega (arith, ap length (on_source-clients (parse i) i e (get_elem? y.sources i) y))
  feed-length receives y = omega (arith, ap length (on_receive-clients y.publisher.phase y.queue y))
  feed-length closes y = omega arith
  feed-length joins y = omega (arith, length-append y.clients (new_client ∷ []))
  feed-length (of_client j a) y = omega (arith, on_client-length j a (get_elem? y.clients j) y)
