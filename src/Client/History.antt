-- ===== src/Client/History.antt =====
-- What a client has been sent, after any actions of its task and of the publisher.
use aggbook.Prelude.{
  ℕ, ◌≡◌, refl, sym, ap, true, false, Bool, some, none, List, [], ◌∷◌, ◌++◌, ◌==◌, if◌then◌else◌,
}
use aggbook.Summary.{Summary}
use aggbook.Publisher.{SummaryResult, fine, failed}
use aggbook.Client.{
  Phase, subscribed, sending_first, unwatched, waiting, sending, Client, taken, shut_down, dropped,
  Action, looks, watches, changes, sends, stops, on_latest, on_initial, act,
}

-- The summary that the task is about to send.
abbrev pub pending : Phase → List Summary
pending (sending_first s) = s ∷ []
pending (sending s) = s ∷ []
pending _ = []

-- What the task has sent or is about to send.
abbrev pub held : Client → List Summary
held c = pending c.phase ++ c.sent

-- What an action may do to what the task holds: nothing, the pending summary is dropped, or the
-- latest summary becomes the pending one.
pub data Acted (latest : SummaryResult) (c c' : Client) : Type 0 where
  same : held c' ≡ held c → Acted latest c c'
  lost : held c' ≡ c.sent → Acted latest c c'
  loaded : (s : Summary) → latest ≡ fine (some s) → held c' ≡ s ∷ c.sent → Acted latest c c'

on_latest-Acted :
    (latest : SummaryResult) (c c' : Client)
    → c'.sent ≡ c.sent
    → Acted latest c (on_latest latest c')
on_latest-Acted (fine (some s)) c c' h = loaded s refl (ap (λ xs. s ∷ xs) h)
on_latest-Acted (fine none) c c' h = lost h
on_latest-Acted (failed e) c c' h = lost h

on_initial-Acted : (latest : SummaryResult) (c : Client) → Acted latest c (on_initial latest c)
on_initial-Acted (fine (some s)) c = loaded s refl refl
on_initial-Acted (fine none) c = lost refl
on_initial-Acted (failed e) c = lost refl

on_change-Acted :
    (b : Bool) (watch : ℕ) (latest : SummaryResult) (c : Client)
    → Acted latest c (if b then c else on_latest latest (record c { seen = watch }))
on_change-Acted true watch latest c = same refl
on_change-Acted false watch latest c = on_latest-Acted latest c (record c { seen = watch }) refl

pub act-Acted :
    (watch : ℕ) (latest : SummaryResult) (p : Phase) (a : Action) (c : Client)
    → c.phase ≡ p
    → Acted latest c (act watch latest p a c)
unfolding act
act-Acted watch latest subscribed looks c h = on_initial-Acted latest c
act-Acted watch latest (sending_first s) (sends taken) c h =
    same (ap (λ p. pending p ++ c.sent) (sym h))
act-Acted watch latest (sending_first s) (sends shut_down) c h = lost refl
act-Acted watch latest (sending_first s) (sends dropped) c h = lost refl
act-Acted watch latest unwatched watches c h = lost refl
act-Acted watch latest waiting changes c h = on_change-Acted (c.seen == watch) watch latest c
act-Acted watch latest waiting stops c h = lost refl
act-Acted watch latest (sending s) (sends taken) c h = same (ap (λ p. pending p ++ c.sent) (sym h))
act-Acted watch latest (sending s) (sends shut_down) c h = lost refl
act-Acted watch latest (sending s) (sends dropped) c h = lost refl
act-Acted watch latest _ _ c h = same refl
