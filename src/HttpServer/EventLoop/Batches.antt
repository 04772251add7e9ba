-- ===== src/HttpServer/EventLoop/Batches.antt =====
-- The rounds of the loop in `main` of http_server/server.c: one `epoll_wait`, then every event that
-- it reported.
use network_system_hw.Base.{
  ℕ, zero, suc, ◌≤◌, ◌≡◌, refl, ap, subst, List, [], ◌∷◌, ◌++◌, Option, none, some, some-injective,
  leb, ◌>>=◌, >>=-eq-some, All, length, Bool-cases, inl, inr,
}
use network_system_hw.HttpServer.Config.{Config}
use network_system_hw.HttpServer.Connection.{Interest, Connection}
use network_system_hw.HttpServer.EventLoop.{
  epoll_size_max, Server, Event, incoming, readable, writable, fresh, handle_accept, at_connection,
  on_event, Registered, here, there, Reported, Reach, stay, next,
}

-- `for (i = 0; i < n; ++i)`
unfoldable pub on_events : Config → Server → List Event → Option Server
on_events conf s [] = some s
on_events conf s (e ∷ es) = on_event conf s e >>= λ t. on_events conf t es

-- The connection that an event points to
abbrev position : Event → Option ℕ
position (incoming answer) = none
position (readable i r) = some i
position (writable i os) = some i

abbrev Apart : Event → Event → Type 0
Apart e f = (i : ℕ) → position e ≡ some i → ¬ (position f ≡ some i)

-- `epoll_wait` reports what is registered when it is called, each connection once.
abbrev pub Batch : List Event → Server → Type 0
Batch [] s = Unit
Batch (e ∷ es) s = Reported e s × All (Apart e) es × Batch es s

-- The states behind the rounds of the loop; `epoll_wait` may fail, and it reports at most
-- `events_count` events.
pub data Runs (conf : Config) (s : Server) : Server → Type 0 where
  begins : Runs conf s s
  fails : {t : Server} → Runs conf s t → Runs conf s t
  waits :
      {t u : Server} (es : List Event)
      → Runs conf s t
      → length es ≤ t.events_count
      → Batch es t
      → on_events conf t es ≡ some u
      → Runs conf s u

Registered-append :
    {want : Interest} {i : ℕ} {cs : List Connection} (ds : List Connection)
    → Registered want i cs
    → Registered want i (cs ++ ds)
Registered-append ds (here e) = here e
Registered-append ds (there r) = there (Registered-append ds r)

at_connection-Registered :
    (f : Connection → Option Connection) (i : ℕ) {want : Interest} {j : ℕ} {cs ds : List Connection}
    → ¬ (i ≡ j)
    → at_connection f i cs ≡ some ds
    → Registered want j cs
    → Registered want j ds
unfolding at_connection
at_connection-Registered f zero other h (here e) = absurd (other refl)
at_connection-Registered f zero {want} {j = suc j} other h (there {c} {cs} r) =
    let (c', done, whole) = >>=-eq-some (f c) _ h in
    subst (Registered want (suc j)) (some-injective _ _ whole) (there r)
at_connection-Registered f (suc i) {want} other h (here {c} {cs} e) =
    let (cs', done, whole) = >>=-eq-some (at_connection f i cs) _ h in
    subst (Registered want zero) (some-injective _ _ whole) (here e)
at_connection-Registered f (suc i) {want} {j = suc j} other h (there {c} {cs} r) =
    let (cs', done, whole) = >>=-eq-some (at_connection f i cs) _ h in
    subst (Registered want (suc j)) (some-injective _ _ whole)
      (there (at_connection-Registered f i (λ e. other (ap suc e)) done r))

handle_accept-Registered :
    (s : Server) (answer : Option ℕ) {want : Interest} {j : ℕ}
    → Registered want j s.connections
    → Registered want j (handle_accept s answer).connections
unfolding handle_accept
handle_accept-Registered s none r = r
handle_accept-Registered s (some fd) r = Registered-append (fresh fd ∷ []) r

-- What an event does leaves every other connection registered as it was.
on_event-Registered :
    (conf : Config) (s : Server) (e : Event) {u : Server} {want : Interest} {j : ℕ}
    → ¬ (position e ≡ some j)
    → on_event conf s e ≡ some u
    → Registered want j s.connections
    → Registered want j u.connections
unfolding on_event
on_event-Registered conf s (incoming answer) {u} {want} {j} other h r =
    let Q = λ (t : Server). Registered want j t.connections in
    subst Q (some-injective _ _ h) (elim (Bool-cases (leb epoll_size_max s.events_count)) [
      | inl full ↦ rw full r
      | inr room ↦ rw room (handle_accept-Registered s answer r)
    ])
on_event-Registered conf s (readable i input) {u} {want} {j} other h r =
    let (cs, done, whole) = >>=-eq-some (at_connection _ i s.connections) _ h in
    subst (λ t. Registered want j t.connections) (some-injective _ _ whole)
      (at_connection-Registered _ i (λ e. other (ap some e)) done r)
on_event-Registered conf s (writable i os) {u} {want} {j} other h r =
    let (cs, done, whole) = >>=-eq-some (at_connection _ i s.connections) _ h in
    subst (λ t. Registered want j t.connections) (some-injective _ _ whole)
      (at_connection-Registered _ i (λ e. other (ap some e)) done r)

on_event-Reported :
    (conf : Config) (s : Server) (e f : Event) {u : Server}
    → Apart e f
    → on_event conf s e ≡ some u
    → Reported f s
    → Reported f u
on_event-Reported conf s e (incoming answer) apart h r = r
on_event-Reported conf s e (readable i input) apart h r =
    on_event-Registered conf s e (λ p. apart i p refl) h r
on_event-Reported conf s e (writable i os) apart h r =
    on_event-Registered conf s e (λ p. apart i p refl) h r

on_event-Batch :
    (conf : Config) (s : Server) (e : Event) (es : List Event) {u : Server}
    → All (Apart e) es
    → on_event conf s e ≡ some u
    → Batch es s
    → Batch es u
on_event-Batch conf s e [] apart h b = tt
on_event-Batch conf s e (f ∷ es) apart h b =
    (on_event-Reported conf s e f apart.0 h b.0, b.1, on_event-Batch conf s e es apart.1 h b.2)

on_events-Reach :
    (conf : Config) {s : Server} (es : List Event) {t u : Server}
    → Reach conf s t
    → Batch es t
    → on_events conf t es ≡ some u
    → Reach conf s u
unfolding on_events
on_events-Reach conf {s} [] before b h = subst (Reach conf s) (some-injective _ _ h) before
on_events-Reach conf {s} (e ∷ es) {t} before b h =
    let (mid, done, rest) = >>=-eq-some (on_event conf t e) _ h in
    on_events-Reach conf es {t = mid} (next e before b.0 done)
      (on_event-Batch conf t e es b.1 done b.2) rest

-- The events of a round are still reported when their turn comes: rounds reach what single events
-- reach.
pub Runs-Reach : (conf : Config) {s t : Server} → Runs conf s t → Reach conf s t
Runs-Reach conf begins = stay
Runs-Reach conf (fails r) = Runs-Reach conf r
Runs-Reach conf (waits es r few b h) = on_events-Reach conf es (Runs-Reach conf r) b h
