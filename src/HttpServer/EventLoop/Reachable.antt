-- ===== src/HttpServer/EventLoop/Reachable.antt =====
-- What holds in every state of the event loop.
use network_system_hw.Base.{
  ℕ, zero, suc, ◌+◌, ◌≤◌, ◌≡◌, refl, ap, false, List, [], ◌∷◌, ◌++◌, Option, none, some, arith, leb,
  Ensures, Ensures-bind, Ensures-some, Ensures-all, Bool-cases, inl, inr, All, length,
  length-append,
}
use network_system_hw.HttpServer.Config.{Config}
use network_system_hw.HttpServer.Connection.{
  epollin, epollout, Interest, Connection, handle_in, handle_out,
}
use network_system_hw.HttpServer.Connection.Phases.{IsGood, handle_in-IsGood, handle_out-IsGood}
use network_system_hw.HttpServer.EventLoop.{
  epoll_size_max, Server, started, Event, incoming, readable, writable, fresh, handle_accept,
  at_connection, on_event, Registered, here, there, Reported, Reach, stay, next,
}

-- The listening socket and the connections are counted, within the bound of the epoll instance,
-- and every connection has the shape of its phase.
pub record IsSound (s : Server) : Type 0 where
  pub counted : s.events_count ≡ 1 + length s.connections
  pub bounded : s.events_count ≤ epoll_size_max
  pub phases : All IsGood s.connections

All-concat :
    (cs : List Connection) (c : Connection) → All IsGood cs → IsGood c → All IsGood (cs ++ (c ∷ []))
All-concat [] c a g = (g, tt)
All-concat (d ∷ cs) c a g = (a.0, All-concat cs c a.1 g)

abbrev Keeps : List Connection → List Connection → Type 0
Keeps cs cs' = All IsGood cs' × (length cs' ≡ length cs)

at_connection-Keeps :
    (want : Interest) (f : Connection → Option Connection) {i : ℕ} {cs : List Connection}
    → ((c : Connection) → c.interest ≡ want → IsGood c → Ensures IsGood (f c))
    → Registered want i cs
    → All IsGood cs
    → Ensures (Keeps cs) (at_connection f i cs)
unfolding at_connection
at_connection-Keeps want f good (here {c} {cs} e) a =
    Ensures-bind (Keeps (c ∷ cs)) (f c) _
      λ c' done. ((Ensures-some IsGood (f c) (good c e a.0) done, a.1), refl)
at_connection-Keeps want f good (there {c} {cs} {i} r) a =
    Ensures-bind (Keeps (c ∷ cs)) (at_connection f i cs) _ λ cs' done.
      let kept = Ensures-some (Keeps cs) _ (at_connection-Keeps want f good r a.1) done in
      ((a.0, kept.0), ap suc kept.1)

handle_accept-IsSound :
    (s : Server) (answer : Option ℕ)
    → leb epoll_size_max s.events_count ≡ false
    → IsSound s
    → IsSound (handle_accept s answer)
unfolding handle_accept
handle_accept-IsSound s none room good = good
handle_accept-IsSound s (some fd) room good = record {
  counted = omega (arith, good.counted, length-append s.connections (fresh fd ∷ []));
  bounded = ground arith;
  phases = All-concat s.connections (fresh fd) good.phases (refl, refl, refl);
}

-- What a handler has done to one connection leaves the rest of the state sound.
replaced :
    (s : Server) (cs : List Connection)
    → IsSound s
    → Keeps s.connections cs
    → IsSound (record s { connections = cs })
replaced s cs good kept = record {
  counted = omega (arith, good.counted, kept.1);
  bounded = good.bounded;
  phases = kept.0;
}

on_event-IsSound :
    (conf : Config) (s : Server) (e : Event)
    → Reported e s
    → IsSound s
    → Ensures IsSound (on_event conf s e)
unfolding on_event
on_event-IsSound conf s (incoming answer) r good =
    elim (Bool-cases (leb epoll_size_max s.events_count)) [
      | inl full ↦ rw full good
      | inr room ↦ rw room (handle_accept-IsSound s answer room good)
    ]
on_event-IsSound conf s (readable i r) reg good =
    Ensures-bind IsSound (at_connection (λ c. handle_in conf c r) i s.connections) _ λ cs done.
      replaced s cs good (
        Ensures-some (Keeps s.connections) _
          (at_connection-Keeps epollin (λ c. handle_in conf c r)
            (λ c w g. Ensures-all _ (λ c' h. handle_in-IsGood conf c r w g h)) reg good.phases)
          done)
on_event-IsSound conf s (writable i os) reg good =
    Ensures-bind IsSound (at_connection (λ c. handle_out conf os c) i s.connections) _ λ cs done.
      replaced s cs good (
        Ensures-some (Keeps s.connections) _
          (at_connection-Keeps epollout (λ c. handle_out conf os c)
            (λ c w g. Ensures-all _ (λ c' h. handle_out-IsGood conf os c w g h)) reg good.phases)
          done)

-- In every state that the loop can reach, `events_count` is one more than the open connections and
-- at most 1024, and every connection has the shape of its phase.
pub Reach-IsSound : (conf : Config) {s : Server} → Reach conf started s → IsSound s
Reach-IsSound conf stay = record { counted = omega arith; bounded = omega arith; phases = tt }
Reach-IsSound conf (next {t} e r reported h) =
    Ensures-some IsSound _ (on_event-IsSound conf t e reported (Reach-IsSound conf r)) h

at_connection-length :
    (f : Connection → Option Connection) (i : ℕ) (cs : List Connection)
    → Ensures (λ cs'. length cs' ≡ length cs) (at_connection f i cs)
unfolding at_connection
at_connection-length f i [] = tt
at_connection-length f zero (c ∷ cs) =
    Ensures-bind (λ cs'. length cs' ≡ length (c ∷ cs)) (f c) _ λ c' done. refl
at_connection-length f (suc i) (c ∷ cs) =
    Ensures-bind (λ cs'. length cs' ≡ length (c ∷ cs)) (at_connection f i cs) _
      λ cs' done.
        ap suc (Ensures-some (λ cs''. length cs'' ≡ length cs) _ (at_connection-length f i cs) done)

-- Neither number falls, and at the bound both stay.
abbrev Grows : Server → Server → Type 0
Grows s t =
    (s.events_count ≤ t.events_count)
    × (length s.connections ≤ length t.connections)
    × (epoll_size_max ≤ s.events_count
        → (t.events_count ≡ s.events_count) × (length t.connections ≡ length s.connections))

handle_accept-Grows :
    (s : Server) (answer : Option ℕ)
    → leb epoll_size_max s.events_count ≡ false
    → Grows s (handle_accept s answer)
unfolding handle_accept
handle_accept-Grows s none room = (omega arith, omega arith, λ h. (refl, refl))
handle_accept-Grows s (some fd) room = (
  omega arith,
  omega (arith, length-append s.connections (fresh fd ∷ [])),
  λ h. absurd (ground arith),
)

same_length :
    (s : Server) (cs : List Connection)
    → length cs ≡ length s.connections
    → Grows s (record s { connections = cs })
same_length s cs h = (omega arith, omega arith, λ full. (refl, h))

on_event-Grows : (conf : Config) (s : Server) (e : Event) → Ensures (Grows s) (on_event conf s e)
unfolding on_event
on_event-Grows conf s (incoming answer) = elim (Bool-cases (leb epoll_size_max s.events_count)) [
  | inl full ↦ rw full (omega arith, omega arith, λ h. (refl, refl))
  | inr room ↦ rw room (handle_accept-Grows s answer room)
]
on_event-Grows conf s (readable i r) =
    Ensures-bind (Grows s) (at_connection (λ c. handle_in conf c r) i s.connections) _
      λ cs done. same_length s cs (Ensures-some _ _ (at_connection-length _ i s.connections) done)
on_event-Grows conf s (writable i os) =
    Ensures-bind (Grows s) (at_connection (λ c. handle_out conf os c) i s.connections) _
      λ cs done. same_length s cs (Ensures-some _ _ (at_connection-length _ i s.connections) done)

-- No run of the loop ever gives up a connection: neither the number of open connections nor
-- `events_count` falls, whatever the events, so a server that has reached the bound of 1024 accepts
-- nobody any more.
pub Reach-Grows :
    (conf : Config) {s t : Server}
    → Reach conf s t
    → (s.events_count ≤ t.events_count)
      × (length s.connections ≤ length t.connections)
      × (epoll_size_max ≤ s.events_count
          → (t.events_count ≡ s.events_count) × (length t.connections ≡ length s.connections))
Reach-Grows conf stay = (omega arith, omega arith, λ h. (refl, refl))
Reach-Grows conf {s} (next {t = mid} {u} e r reported h) =
    let before = Reach-Grows conf r in
    let step = Ensures-some (Grows mid) _ (on_event-Grows conf mid e) h in
    (omega arith, omega arith, λ full. (omega arith, omega arith))
