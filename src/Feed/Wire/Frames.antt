-- ===== src/Feed/Wire/Frames.antt =====
-- The frames on the connections of a feed.
use aggbook.Prelude.{
  ℕ, ◌+◌, ◌≤◌, length, ◌≡◌, refl, sym, ap, subst, String, Option, none, some, List, [], ◌∷◌, ◌++◌,
  All, Outcome, ok, err, panic, arith,
}
use aggbook.Book.{ContributorSnapshot}
use aggbook.Feed.Task as Task
use aggbook.Feed.Wire.{
  Frame, text, ping, pong, Exchange, Connection, greeting, connect, write, wire, System,
  first_system, step, run,
}

abbrev IsBeat : Frame → Type 0
IsBeat (text t) = ⊥
IsBeat _ = Unit

-- What was written, the latest first: the message that subscribes, if the exchange has one, and then
-- nothing but pings and pongs.
abbrev pub StartsWith : Option (List ℕ) → List Frame → Type 0
StartsWith none fs = All IsBeat fs
StartsWith (some msg) fs = (beats : List Frame) × (fs ≡ beats ++ text msg ∷ []) × All IsBeat beats

-- A connection of the exchange, on which the subscription was written first, once, and then nothing
-- but pings and pongs.
pub record IsGreeted (x : Exchange) (c : Connection) : Type 0 where
  pub same_url : c.url ≡ x.ws_url
  pub frames : StartsWith x.sub_msg c.written

greeting-StartsWith : (o : Option (List ℕ)) → StartsWith o (greeting o)
greeting-StartsWith none = tt
greeting-StartsWith (some msg) = ([], refl, tt)

beat-StartsWith :
    (o : Option (List ℕ)) (f : Frame) (fs : List Frame)
    → IsBeat f
    → StartsWith o fs
    → StartsWith o (f ∷ fs)
beat-StartsWith none f fs b s = (b, s)
beat-StartsWith (some msg) f fs b (beats, e, a) = (f ∷ beats, ap (λ fs. f ∷ fs) e, (b, a))

-- How many pongs were written.
abbrev pub pongs_in : List Frame → ℕ
pongs_in [] = 0
pongs_in (pong ∷ fs) = 1 + pongs_in fs
pongs_in (_ ∷ fs) = pongs_in fs

abbrev pub pongs : List Connection → ℕ
pongs [] = 0
pongs (c ∷ cs) = pongs_in c.written + pongs cs

write-IsGreeted :
    (x : Exchange) (f : Frame) (cs : List Connection)
    → IsBeat f
    → All (IsGreeted x) cs
    → All (IsGreeted x) (write f cs)
write-IsGreeted x f [] b _ = tt
write-IsGreeted x f (c ∷ cs) b (g, gs) = (
  record { same_url = g.same_url; frames = beat-StartsWith x.sub_msg f c.written b g.frames },
  gs,
)

wire-IsGreeted :
    (x : Exchange) (p : Task.Phase) (e : Task.Event) (cs : List Connection)
    → All (IsGreeted x) cs
    → All (IsGreeted x) (wire x p e cs)
unfolding wire
wire-IsGreeted x Task.connecting Task.connected cs g =
    (record { same_url = refl; frames = greeting-StartsWith x.sub_msg }, g)
wire-IsGreeted x Task.running Task.ping_frame cs g = write-IsGreeted x pong cs tt g
wire-IsGreeted x Task.running Task.ping_sent cs g = write-IsGreeted x ping cs tt g
wire-IsGreeted x _ _ cs g = g

-- A task that reads messages has a connection.
abbrev HasOne : Task.Phase → List Connection → Type 0
HasOne Task.running cs = 1 ≤ length cs
HasOne _ cs = Unit

-- Whether the task takes a ping.
abbrev heard : Task.Phase → Task.Event → ℕ
heard Task.running Task.ping_frame = 1
heard _ _ = 0

length-write : (f : Frame) (cs : List Connection) → length (write f cs) ≡ length cs
length-write f [] = refl
length-write f (c ∷ cs) = refl

pongs-write : (cs : List Connection) → 1 ≤ length cs → pongs (write pong cs) ≡ 1 + pongs cs
pongs-write [] h = absurd (omega (arith, h))
pongs-write (c ∷ cs) h = omega arith

pongs-write_ping : (cs : List Connection) → pongs (write ping cs) ≡ pongs cs
pongs-write_ping [] = refl
pongs-write_ping (c ∷ cs) = refl

pongs-connect : (x : Exchange) (cs : List Connection) → pongs (connect x ∷ cs) ≡ pongs cs
pongs-connect x cs = none_in x.sub_msg
  where
    none_in : (o : Option (List ℕ)) → pongs_in (greeting o) + pongs cs ≡ pongs cs
    none_in none = omega arith
    none_in (some msg) = omega arith

wire-pongs :
    (x : Exchange) (p : Task.Phase) (e : Task.Event) (cs : List Connection)
    → HasOne p cs
    → pongs (wire x p e cs) ≡ heard p e + pongs cs
unfolding wire
wire-pongs x Task.connecting Task.connected cs h = omega (arith, pongs-connect x cs)
wire-pongs x Task.running Task.ping_frame cs h = pongs-write cs h
wire-pongs x Task.running Task.ping_sent cs h = omega (arith, pongs-write_ping cs)
wire-pongs x _ _ cs h = omega arith

module _ (parse : String → ℕ → Outcome (Option ContributorSnapshot)) (x : Exchange) where
  -- The pings that the task takes in its loop.
  pub pings_heard : List Task.Event → Task.Task → ℕ
  pings_heard [] t = 0
  pings_heard (e ∷ es) t = heard t.phase e + pings_heard es (Task.step parse e t)

  on_parsed-HasOne :
      (o : Outcome (Option ContributorSnapshot)) (t : Task.Task) (cs : List Connection)
      → t.phase ≡ Task.running
      → HasOne Task.running cs
      → HasOne (Task.on_parsed o t).phase cs
  on_parsed-HasOne (ok (some s)) t cs h k = subst (λ p. HasOne p cs) (sym h) k
  on_parsed-HasOne (ok none) t cs h k = subst (λ p. HasOne p cs) (sym h) k
  on_parsed-HasOne (err e) t cs h k = tt
  on_parsed-HasOne panic t cs h k = tt

  on_event-HasOne :
      (p : Task.Phase) (e : Task.Event) (t : Task.Task) (cs : List Connection)
      → t.phase ≡ p
      → HasOne p cs
      → HasOne (Task.on_event parse p e t).phase (wire x p e cs)
  unfolding wire Task.on_event
  on_event-HasOne Task.connecting Task.connected t cs h k = omega arith
  on_event-HasOne Task.connecting (Task.connect_failed e) t cs h k = tt
  on_event-HasOne Task.running (Task.message txt now) t cs h k =
      on_parsed-HasOne (parse txt now) t cs h k
  on_event-HasOne Task.running (Task.read_error e) t cs h k = tt
  on_event-HasOne Task.running Task.disconnected t cs h k = tt
  on_event-HasOne Task.running (Task.ping_failed e) t cs h k = tt
  on_event-HasOne Task.running Task.shutdown t cs h k = tt
  on_event-HasOne Task.running Task.ping_frame t cs h k =
      subst (λ p. HasOne p (write pong cs)) (sym h) (omega (arith, k, length-write pong cs))
  on_event-HasOne Task.running Task.ping_sent t cs h k =
      subst (λ p. HasOne p (write ping cs)) (sym h) (omega (arith, k, length-write ping cs))
  on_event-HasOne Task.backoff Task.backoff_over t cs h k = tt
  on_event-HasOne Task.backoff Task.shutdown t cs h k = tt
  on_event-HasOne p _ t cs h k = subst (λ p. HasOne p cs) (sym h) k

  -- What holds after some events from any state where it held.
  run-frames :
      (es : List Task.Event) (y : System)
      → All (IsGreeted x) y.connections
      → HasOne y.task.phase y.connections
      → let y' = run parse x es y in
        All (IsGreeted x) y'.connections
        × (pongs y'.connections ≡ pings_heard es y.task + pongs y.connections)
  unfolding run step pings_heard Task.step
  run-frames [] y g h = (g, omega arith)
  run-frames (e ∷ es) y g h =
      let cs = wire x y.task.phase e y.connections in
      let (g', q) =
        run-frames es (record { task = Task.step parse e y.task; connections = cs })
          (wire-IsGreeted x y.task.phase e y.connections g)
          (on_event-HasOne y.task.phase e y.task y.connections refl h) in
      (g', omega (arith, q, wire-pongs x y.task.phase e y.connections h))

  -- After any events, on each connection that the task of a feed has made at its exchange, the
  -- message that subscribes to the channel was written first, if the exchange wants one, and then
  -- nothing but pings and pongs; and there was one pong for each ping that the task took.
  pub run-IsGreeted :
      (es : List Task.Event)
      → let y = run parse x es first_system in
        All (IsGreeted x) y.connections × (pongs y.connections ≡ pings_heard es Task.start)
  run-IsGreeted es = let (g, q) = run-frames es first_system tt tt in (g, omega (arith, q))
