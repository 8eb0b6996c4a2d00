-- ===== src/Pipeline/Order.antt =====
-- The order in which summaries are published and sent.
use mathlib.Core.List.{append_assoc, append-nil}
use aggbook.Prelude.{
  ℕ, ◌≡◌, refl, sym, ap, subst, ◌∙◌, some, List, [], ◌∷◌, ◌++◌, Outcome, ok, err, panic, All,
}
use aggbook.Book.{ContributorSnapshot, CombinedSummary, new_combined, update_snapshot}
use aggbook.Book.Combined.{updates}
use aggbook.Summary.{Level, Summary, to_proto}
use aggbook.Publisher as Publisher
use aggbook.Publisher.{Publisher, SummaryResult, fine, failed, running, closed, crashed}
use aggbook.Client as Client
use aggbook.Client.{Client, new_client}
use aggbook.Client.History.{held, pending, same, lost, loaded, act-Acted}

-- Two histories, one after the other.
updates-append :
    (ss ts : List ContributorSnapshot) (c : CombinedSummary)
    → updates (ss ++ ts) c ≡ updates ts (updates ss c)
updates-append [] ts c = refl
updates-append (s ∷ ss) ts c = updates-append ss ts (update_snapshot s c)

module _ (array_push : List Level → Level → Outcome (List Level)) (n : ℕ) where
  -- The summaries, the latest first, are those of the books of growing parts of a history of
  -- snapshots.
  abbrev pub InOrder : List ContributorSnapshot → List Summary → Type 0
  InOrder ss [] = Unit
  InOrder ss (m ∷ ms) =
      (before : List ContributorSnapshot) × (after : List ContributorSnapshot) × (ss
        ≡ before ++ after)
      × (to_proto array_push n (updates before (new_combined n)) ≡ ok m)
      × InOrder before ms

  pub InOrder-append :
      (ss ts : List ContributorSnapshot) (ms : List Summary) → InOrder ss ms → InOrder (ss ++ ts) ms
  InOrder-append ss ts [] _ = tt
  InOrder-append ss ts (m ∷ ms) (before, after, e, h, r) =
      (before, after ++ ts, ap (λ xs. xs ++ ts) e ∙ append_assoc before after ts, h, r)

  InOrder-tail :
      (ss : List ContributorSnapshot) (m : Summary) (ms : List Summary)
      → InOrder ss (m ∷ ms)
      → InOrder ss ms
  InOrder-tail ss m ms (before, after, e, _, r) =
      subst (λ xs. InOrder xs ms) (sym e) (InOrder-append before after ms r)

  pub InOrder-sent :
      (ss : List ContributorSnapshot) (p : Client.Phase) (ms : List Summary)
      → InOrder ss (pending p ++ ms)
      → InOrder ss ms
  InOrder-sent ss (Client.sending_first s) ms h = InOrder-tail ss s ms h
  InOrder-sent ss (Client.sending s) ms h = InOrder-tail ss s ms h
  InOrder-sent ss Client.subscribed ms h = h
  InOrder-sent ss Client.unwatched ms h = h
  InOrder-sent ss Client.waiting ms h = h
  InOrder-sent ss Client.ended ms h = h

  -- The publisher has published the summaries of the history `ss`.
  pub record Published (ss : List ContributorSnapshot) (p : Publisher) : Type 0 where
    pub combines : p.phase ≡ running → p.combined ≡ updates ss (new_combined n)
    pub current :
        (m : Summary)
        → p.latest ≡ fine (some m)
        → to_proto array_push n (updates ss (new_combined n)) ≡ ok m

  pub client-sound :
      (ss : List ContributorSnapshot) (watch : ℕ) (latest : SummaryResult) (a : Client.Action)
      (c : Client)
      → ((m : Summary)
          → latest ≡ fine (some m)
          → to_proto array_push n (updates ss (new_combined n)) ≡ ok m)
      → InOrder ss (held c)
      → InOrder ss (held (Client.act watch latest c.phase a c))
  client-sound ss watch latest a c f h = elim (act-Acted watch latest c.phase a c refl) [
    | same q ↦ subst (InOrder ss) (sym q) h
    | lost q ↦ subst (InOrder ss) (sym q) (InOrder-sent ss c.phase c.sent h)
    | loaded m p q ↦
        subst (InOrder ss) (sym q)
          (ss, [], sym (append-nil ss), f m p, InOrder-sent ss c.phase c.sent h)
  ]

  crashed-Published :
      (ss : List ContributorSnapshot) (c : CombinedSummary) (p : Publisher)
      → Published ss p
      → Published (ss ++ []) (record p { combined = c; phase = crashed })
  crashed-Published ss c p w =
      let q : Publisher = record p { combined = c; phase = crashed } in
      subst (λ xs. Published xs q) (sym (append-nil ss))
        (record { combines = λ e. absurd (cc e); current = w.current })

  pub close-sound :
      (ss : List ContributorSnapshot) (f : Publisher.Phase) (p : Publisher)
      → p.phase ≡ f
      → Published ss p
      → Published ss (Publisher.on_event array_push n f Publisher.close p)
  unfolding Publisher.on_event
  close-sound ss running p h w = record {
    combines = λ q. absurd (cc q);
    current = λ m q. absurd (cc q);
  }
  close-sound ss closed p h w = w
  close-sound ss crashed p h w = w

  module _ (P : ContributorSnapshot → Type 0) where
    -- The publisher takes a snapshot: it publishes the summary of the longer history, or it panics
    -- and publishes nothing more.
    pub on_summary-sound :
        (ss : List ContributorSnapshot) (s : ContributorSnapshot) (p : Publisher)
        (o : Outcome Summary)
        → p.combined ≡ updates ss (new_combined n)
        → to_proto array_push n (update_snapshot s p.combined) ≡ o
        → P s
        → Published ss p
        → let q = Publisher.on_summary o (record p { combined = update_snapshot s p.combined }) in
          (ts : List ContributorSnapshot) × All P ts × Published (ss ++ ts) q
    on_summary-sound ss s p (ok m) c e h w =
        let longer : update_snapshot s p.combined ≡ updates (ss ++ s ∷ []) (new_combined n) =
          ap (update_snapshot s) c ∙ sym (updates-append ss (s ∷ []) (new_combined n)) in
        (
          s ∷ [],
          (h, tt),
          record {
            combines = λ _. longer;
            current = λ m' q. ap (to_proto array_push n) (sym longer) ∙ e ∙ published_is m m' q;
          },
        )
      where
        published_is : (m m' : Summary) → fine (some m) ≡ fine (some m') → ok m ≡ ok m'
        published_is m m' q = cc
    on_summary-sound ss s p (err x) c e h w =
        ([], tt, crashed-Published ss (update_snapshot s p.combined) p w)
    on_summary-sound ss s p panic c e h w =
        ([], tt, crashed-Published ss (update_snapshot s p.combined) p w)
