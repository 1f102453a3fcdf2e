-- ===== src/Server/System/Stopping.antt =====
-- What `Start`, `Stop` and the loop may rely on.
use profile_service_cpp.Prelude.{
  ◌-◌, ◌<◌, true, false, Option, none, some, ◌⊎◌, not, [], ◌∷◌, ◌++◌, ◌≡◌, inl, inr, ap, refl,
  Bool-cases, arith,
}
use profile_service_cpp.Platform.{Platform}
use profile_service_cpp.Effect.{ok}
use profile_service_cpp.Http.{HttpRequest, HttpResponse}
use profile_service_cpp.Server.ServerImpl.{ServerImpl, handle}
use profile_service_cpp.Server.ServerImpl.Laws.{handle-answers}
use profile_service_cpp.Server.Reply.{reply_to}
use profile_service_cpp.Server.System.{
  Event, failed, received, Worker, absent, opening, testing, accepting, reading, handling, failing,
  ended, idle, starting, joining, is_gone, System, goes_on, WorkerStep, Reach, listen, open_fails,
  enter, leave, accept, accept_error, read, read_error, answer, handle_throws, catch_block,
}
use profile_service_cpp.Server.System.Invariant.{Inv, in_stop, Reach-Inv}
use profile_service_cpp.Server.System.Drain.{steps_left}

module _ (P : Platform) (impl : ServerImpl) where
  -- Between calls of `Start` and `Stop` the flag is set exactly while the loop's thread runs.
  pub running-eq-alive :
      {w : P.World} {s : System P}
      → Reach P impl w s
      → s.caller ≡ idle
      → s.running ≡ not (is_gone s.worker)
  running-eq-alive {s} r h = elim (Bool-cases s.running) [
    | inl on ↦ ground (arith, (Reach-Inv P r).alive h on)
    | inr off ↦ ground (arith, (Reach-Inv P r).stopped (ap in_stop h) off)
  ]

  -- When `Start` puts the new thread in place of the old one, no old one runs.
  pub start_replaces_none :
      {w : P.World} {s : System P}
      → Reach P impl w s
      → s.caller ≡ starting
      → is_gone s.worker ≡ true
  start_replaces_none r h = (Reach-Inv P r).replaced h

  -- No wake-up is lost: while `Stop` joins, a thread that waits in `accept` has a connection to accept.
  pub stop_wakes_accept :
      {w : P.World} {s : System P}
      → Reach P impl w s
      → s.caller ≡ joining
      → s.worker ≡ accepting
      → 0 < s.backlog
  stop_wakes_accept r h k = (Reach-Inv P r).woken h k

  -- Where the loop has a request, its next step sends the reply to what `Handle` answers and goes back to
  -- the head of the loop: a request is never dropped and never ends the loop.
  pub handling_replies :
      {s t : System P} (q : HttpRequest)
      → s.worker ≡ handling q
      → WorkerStep P impl s t
      → (r : HttpResponse) × (((handle P impl q s.world).0 ≡ ok r)
          × (t.sent ≡ s.sent ++ reply_to P r ∷ [])
          × (t.worker ≡ testing)
          × (t.world ≡ (handle P impl q s.world).1))
  handling_replies q h (listen a) = absurd (ground arith)
  handling_replies q h (open_fails a) = absurd (ground arith)
  handling_replies q h (enter a b) = absurd (ground arith)
  handling_replies q h (leave a b) = absurd (ground arith)
  handling_replies q h (accept a b) = absurd (ground arith)
  handling_replies q h (accept_error a b) = absurd (ground arith)
  handling_replies q h (read p a b) = absurd (ground arith)
  handling_replies q h (read_error a b) = absurd (ground arith)
  handling_replies q h (answer {r} a b) = (r, (ground arith, refl, refl, ground arith))
  handling_replies {s} q h (handle_throws {q = p} a b) =
      let (r, answered) = handle-answers P impl p s.world in absurd (ground arith)
  handling_replies q h (catch_block a) = absurd (ground arith)

  still_running : (s : System P) → s.running ≡ false → goes_on P s ≡ false
  still_running s h = ground arith

  -- `Stop` joins a thread that reads from a connection on which nothing comes.
  abbrev pub HeldUp : System P → Type 0
  HeldUp s = (s.caller ≡ joining) × (s.worker ≡ reading) × (s.event ≡ none)

  -- a step that leaves the thread fewer than it has
  abbrev pub Nearer : System P → Type 0
  Nearer s = (t : System P) × WorkerStep P impl s t × (steps_left t.worker < steps_left s.worker)

  read_ends :
      (o : Option Event) {s : System P}
      → s.event ≡ o
      → s.worker ≡ reading
      → s.caller ≡ joining
      → Nearer s ⊎ HeldUp s
  unfolding steps_left
  read_ends none e k h = inr (h, k, e)
  read_ends (some failed) e k h = inl (_, read_error k e, rw k (omega arith))
  read_ends (some (received q)) e k h = inl (_, read q k e, rw k (omega arith))

  -- the next step of the thread, by where it stands
  pub next_step :
      (k : Worker) {s : System P}
      → s.worker ≡ k
      → Inv P s
      → s.caller ≡ joining
      → is_gone k ≡ false
      → Nearer s ⊎ HeldUp s
  unfolding steps_left
  next_step absent e v h g = absurd (ground arith)
  next_step ended e v h g = absurd (ground arith)
  next_step opening e v h g = inl (_, listen e, rw e (omega arith))
  next_step testing {s} e v h g =
      inl (_, leave e (still_running s (v.cleared (ap in_stop h))), rw e (omega arith))
  next_step accepting {s} e v h g =
      let more = v.woken h e in
      inl (_, accept {n = s.backlog - 1} e (omega arith), rw e (omega arith))
  next_step reading {s} e v h g = read_ends s.event refl e h
  next_step (handling q) {s} e v h g =
      let (r, answered) = handle-answers P impl q s.world in
      inl (_, answer e (ap (λ a. (a, (handle P impl q s.world).1)) answered), rw e (omega arith))
  next_step failing e v h g = inl (_, catch_block e, rw e (omega arith))

  -- In every reachable state in which `Stop` joins a thread that runs, the thread can take a step that leaves
  -- it fewer, in `accept` by a connection that is there, or it reads from a connection on which nothing comes.
  pub stop_progresses :
      {w : P.World} {s : System P}
      → Reach P impl w s
      → s.caller ≡ joining
      → is_gone s.worker ≡ false
      → Nearer s ⊎ HeldUp s
  stop_progresses {s} r h g = next_step s.worker refl (Reach-Inv P r) h g
