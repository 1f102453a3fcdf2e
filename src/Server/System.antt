-- ===== src/Server/System.antt =====
-- `Server` of src/server.cpp: the thread that calls `Start` and `Stop`, the thread of the accept loop, and
-- the clients, interleaved in any order. `Start` and `Stop` are called by one thread, as `main` does.
pub mod Invariant
pub mod Drain
pub mod Stopping
pub mod Ending
mod Tests
use profile_service_cpp.Prelude.{
  ℕ, suc, String, Bool, true, false, Option, none, some, not, ◌&&◌, List, [], ◌∷◌, ◌++◌, ◌≡◌,
}
use profile_service_cpp.Platform.{Platform}
use profile_service_cpp.Effect.{Result, ok, throw}
use profile_service_cpp.Http.{HttpRequest, HttpResponse}
use profile_service_cpp.Server.ServerImpl.{ServerImpl, handle}
use profile_service_cpp.Server.Reply.{reply_to}

-- Where the accept loop's thread stands.
pub data Worker : Type 0 where
  absent : Worker  -- no thread: the `jthread` is not joinable
  opening : Worker  -- before the acceptor listens
  testing : Worker  -- at the head of the loop
  accepting : Worker  -- in `accept`
  reading : Worker  -- in `read`, on an accepted socket
  handling : HttpRequest → Worker  -- before `m_impl->Handle`
  failing : Worker  -- in the `catch` block, before it stores `false`
  ended : Worker  -- returned, and not joined yet

-- Where the calling thread stands.
pub data Caller : Type 0 where
  idle : Caller
  starting : Caller  -- in `Start`, before the new thread
  requesting : Caller  -- in `Stop`, before `request_stop`
  connecting : Caller  -- in `Stop`, before `connect`
  joining : Caller  -- in `Stop`, at `join`

-- the acceptor is open and listens
abbrev pub listening : Worker → Bool
listening testing = true
listening accepting = true
listening reading = true
listening (handling _) = true
listening _ = false

-- no code of the thread runs any more
abbrev pub is_gone : Worker → Bool
is_gone absent = true
is_gone ended = true
is_gone _ = false

-- What the network has for the call in which the loop's thread waits: it failed, or a request was read.
pub data Event : Type 0 where
  failed : Event
  received : HttpRequest → Event

module _ (P : Platform) where
  -- `backlog` counts the connections that the acceptor has not accepted yet, the one of `Stop` included.
  -- `event` is what the network has for `accept` or `read`, if anything: without one, `read` blocks, and so
  -- does `accept` without a connection.
  pub record System : Type 0 where
    pub running : Bool
    pub stop_requested : Bool
    pub worker : Worker
    pub caller : Caller
    pub backlog : ℕ
    pub event : Option Event
    pub sent : List HttpResponse
    pub world : P.World

  -- `Server::Server`, before `Start`
  abbrev pub new_system : P.World → System
  new_system w = record {
    running = false;
    stop_requested = false;
    worker = absent;
    caller = idle;
    backlog = 0;
    event = none;
    sent = [];
    world = w;
  }

  -- the test of the loop
  abbrev pub goes_on : System → Bool
  goes_on s = s.running && not s.stop_requested

  -- A step of the loop's thread. Errors of `write` and `shutdown` are dropped by the code, and `write` is
  -- taken to return.
  pub data WorkerStep (impl : ServerImpl) : System → System → Type 0 where
    listen :
        {s : System}
        → s.worker ≡ opening
        → WorkerStep impl s (record s { worker = testing; backlog = 0 })
    open_fails :
        {s : System} → s.worker ≡ opening → WorkerStep impl s (record s { worker = failing })
    enter :
        {s : System}
        → s.worker ≡ testing
        → goes_on s ≡ true
        → WorkerStep impl s (record s { worker = accepting })
    leave :
        {s : System}
        → s.worker ≡ testing
        → goes_on s ≡ false
        → WorkerStep impl s (record s { worker = ended })
    accept :
        {s : System} {n : ℕ}
        → s.worker ≡ accepting
        → s.backlog ≡ suc n
        → WorkerStep impl s (record s { worker = reading; backlog = n; event = none })
    accept_error :
        {s : System}
        → s.worker ≡ accepting
        → s.event ≡ some failed
        → WorkerStep impl s (record s { worker = testing; event = none })
    read :
        {s : System} (q : HttpRequest)
        → s.worker ≡ reading
        → s.event ≡ some (received q)
        → WorkerStep impl s (record s { worker = handling q; event = none })
    read_error :
        {s : System}
        → s.worker ≡ reading
        → s.event ≡ some failed
        → WorkerStep impl s (record s { worker = testing; event = none })
    answer :
        {s : System} {q : HttpRequest} {r : HttpResponse} {w : P.World}
        → s.worker ≡ handling q
        → handle P impl q s.world ≡ (ok r, w)
        → WorkerStep impl s
            (record s { worker = testing; sent = s.sent ++ reply_to P r ∷ []; world = w })
    handle_throws :
        {s : System} {q : HttpRequest} {e : String} {w : P.World}
        → s.worker ≡ handling q
        → handle P impl q s.world ≡ (throw e, w)
        → WorkerStep impl s (record s { worker = failing; world = w })
    catch_block :
        {s : System}
        → s.worker ≡ failing
        → WorkerStep impl s (record s { running = false; worker = ended })

  -- A step of the thread that calls `Start` and `Stop`.
  pub data CallerStep : System → System → Type 0 where
    start_refused : {s : System} → s.caller ≡ idle → s.running ≡ true → CallerStep s s
    start :
        {s : System}
        → s.caller ≡ idle
        → s.running ≡ false
        → CallerStep s (record s { running = true; caller = starting })
    -- the assignment of the new `jthread`, which replaces the old one
    spawn :
        {s : System}
        → s.caller ≡ starting
        → CallerStep s (record s { worker = opening; stop_requested = false; caller = idle })
    stop_returns : {s : System} → s.caller ≡ idle → s.running ≡ false → CallerStep s s
    stop :
        {s : System}
        → s.caller ≡ idle
        → s.running ≡ true
        → CallerStep s (record s { running = false; caller = requesting })
    request_stop :
        {s : System}
        → s.caller ≡ requesting
        → CallerStep s (record s { stop_requested = true; caller = connecting })
    -- a listening acceptor takes the connection; what `connect` throws without one is dropped
    connect :
        {s : System}
        → s.caller ≡ connecting
        → listening s.worker ≡ true
        → CallerStep s (record s { backlog = suc s.backlog; caller = joining })
    connect_throws :
        {s : System}
        → s.caller ≡ connecting
        → listening s.worker ≡ false
        → CallerStep s (record s { caller = joining })
    join :
        {s : System}
        → s.caller ≡ joining
        → is_gone s.worker ≡ true
        → CallerStep s (record s { worker = absent; caller = idle })

  -- What the network does: a client connects, `accept` fails, or whoever is connected sends a request or
  -- goes away.
  pub data NetworkStep : System → System → Type 0 where
    arrive :
        {s : System}
        → listening s.worker ≡ true
        → NetworkStep s (record s { backlog = suc s.backlog })
    accept_fails :
        {s : System}
        → s.worker ≡ accepting
        → s.event ≡ none
        → NetworkStep s (record s { event = some failed })
    peer_acts :
        {s : System} (e : Event)
        → s.worker ≡ reading
        → s.event ≡ none
        → NetworkStep s (record s { event = some e })

  pub data Step (impl : ServerImpl) : System → System → Type 0 where
    work : {s t : System} → WorkerStep impl s t → Step impl s t
    call : {s t : System} → CallerStep s t → Step impl s t
    network : {s t : System} → NetworkStep s t → Step impl s t

  pub data Reach (impl : ServerImpl) (w : P.World) : System → Type 0 where
    here : Reach impl w (new_system w)
    next : {s t : System} → Reach impl w s → Step impl s t → Reach impl w t
