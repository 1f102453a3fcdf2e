-- ===== src/Server/System/Drain.antt =====
-- How long the loop's thread goes on once the flag is cleared.
use profile_service_cpp.Prelude.{
  ℕ, zero, suc, ◌+◌, ◌≤◌, false, [], ◌∷◌, length, length-append, ◌≡◌, ◌∙◌, ap, refl, arith,
}
use profile_service_cpp.Platform.{Platform}
use profile_service_cpp.Server.ServerImpl.{ServerImpl}
use profile_service_cpp.Server.Reply.{reply_to}
use profile_service_cpp.Server.System.{
  Worker, opening, testing, accepting, reading, handling, failing, System, WorkerStep, CallerStep,
  Reach, listen, open_fails, enter, leave, accept, accept_error, read, read_error, answer,
  handle_throws, catch_block, start_refused, start, spawn, stop_returns, stop, request_stop,
  connect, connect_throws, join, work, call, network, arrive, accept_fails, peer_acts, NetworkStep,
}
use profile_service_cpp.Server.System.Invariant.{Inv, Step-Inv, Reach-Inv}

-- the steps that are left to the thread under a cleared flag
unfoldable pub steps_left : Worker → ℕ
steps_left opening = 2
steps_left testing = 1
steps_left accepting = 4
steps_left reading = 3
steps_left (handling _) = 2
steps_left failing = 1
steps_left _ = 0

-- the replies that are left to it
unfoldable pub replies_left : Worker → ℕ
replies_left accepting = 1
replies_left reading = 1
replies_left (handling _) = 1
replies_left _ = 0

module _ (P : Platform) (impl : ServerImpl) where
  -- A sequence of steps of both threads and the clients that never sets the flag, by the number of
  -- steps of the loop's thread.
  pub data Cleared : ℕ → System P → System P → Type 0 where
    done : {s : System P} → Cleared zero s s
    worked :
        {n : ℕ} {s t u : System P} → WorkerStep P impl s t → Cleared n t u → Cleared (suc n) s u
    called :
        {n : ℕ} {s t u : System P}
        → CallerStep P s t
        → t.running ≡ false
        → Cleared n t u
        → Cleared n s u
    arrived : {n : ℕ} {s t u : System P} → NetworkStep P s t → Cleared n t u → Cleared n s u

  -- one step, where the flag stays cleared
  pub WorkerStep-drains :
      {s t : System P}
      → WorkerStep P impl s t
      → s.running ≡ false
      → (t.running ≡ false)
        × (suc (steps_left t.worker) ≤ steps_left s.worker)
        × (length t.sent + replies_left t.worker ≤ length s.sent + replies_left s.worker)
  unfolding steps_left replies_left
  WorkerStep-drains (listen a) h = ground arith
  WorkerStep-drains (open_fails a) h = ground arith
  WorkerStep-drains (enter a b) h = ground arith
  WorkerStep-drains (leave a b) h = ground arith
  WorkerStep-drains (accept a b) h = ground arith
  WorkerStep-drains (accept_error a b) h = ground arith
  WorkerStep-drains (read q a b) h = ground arith
  WorkerStep-drains (read_error a b) h = ground arith
  WorkerStep-drains {s} (answer {r} a b) h =
      ground (arith, length-append s.sent (reply_to P r ∷ []))
  WorkerStep-drains (handle_throws a b) h = ground arith
  WorkerStep-drains (catch_block a) h = ground arith

  CallerStep-drains :
      {s t : System P}
      → CallerStep P s t
      → Inv P s
      → t.running ≡ false
      → (steps_left t.worker ≤ steps_left s.worker)
        × (length t.sent + replies_left t.worker ≤ length s.sent + replies_left s.worker)
  unfolding steps_left replies_left
  CallerStep-drains (start_refused a b) v h = omega arith
  CallerStep-drains (start a b) v h = omega arith
  CallerStep-drains (spawn a) v h = ground arith
  CallerStep-drains (stop_returns a b) v h = omega arith
  CallerStep-drains (stop a b) v h = omega arith
  CallerStep-drains (request_stop a) v h = omega arith
  CallerStep-drains (connect a b) v h = omega arith
  CallerStep-drains (connect_throws a b) v h = omega arith
  CallerStep-drains (join a b) v h = ground arith

  -- The network leaves the threads, the replies and the flag alone.
  pub NetworkStep-same :
      {s t : System P}
      → NetworkStep P s t
      → (t.worker ≡ s.worker) × (t.sent ≡ s.sent) × (t.caller ≡ s.caller) × (t.running ≡ s.running)
  NetworkStep-same (arrive a) = (refl, refl, refl, refl)
  NetworkStep-same (accept_fails a b) = (refl, refl, refl, refl)
  NetworkStep-same (peer_acts e a b) = (refl, refl, refl, refl)

  Cleared-drains :
      {n : ℕ} {s t : System P}
      → Cleared n s t
      → Inv P s
      → s.running ≡ false
      → (n + steps_left t.worker ≤ steps_left s.worker)
        × (length t.sent + replies_left t.worker ≤ length s.sent + replies_left s.worker)
  Cleared-drains done v h = omega arith
  Cleared-drains (worked st c) v h =
      let (h', fewer, sent) = WorkerStep-drains st h in
      let later = Cleared-drains c (Step-Inv P (work st) v) h' in omega arith
  Cleared-drains (called st h' c) v h =
      let fewer = CallerStep-drains st v h' in
      let later = Cleared-drains c (Step-Inv P {impl = impl} (call st) v) h' in omega arith
  Cleared-drains (arrived st c) v h =
      let (worker, sent, caller, running) = NetworkStep-same st in
      let later = Cleared-drains c (Step-Inv P {impl = impl} (network st) v) (running ∙ h) in
      let steps = ap steps_left worker in
      let replies = ap replies_left worker in let replied = ap length sent in omega arith

  pub steps_left-le : (k : Worker) → steps_left k ≤ 4
  unfolding steps_left
  steps_left-le opening = omega arith
  steps_left-le k = ground arith

  replies_left-le : (k : Worker) → replies_left k ≤ 1
  unfolding replies_left
  replies_left-le k = ground arith

  -- From any reachable state in which the flag is cleared, while it stays cleared, whatever the other
  -- thread and the clients do in between, the loop's thread takes at most four steps and sends at most one
  -- reply.
  pub loop_ends_soon :
      {w : P.World} {n : ℕ} {s t : System P}
      → Reach P impl w s
      → s.running ≡ false
      → Cleared n s t
      → (n ≤ 4) × (length t.sent ≤ length s.sent + 1)
  loop_ends_soon {s} r h c =
      let drained = Cleared-drains c (Reach-Inv P r) h in
      omega (arith, steps_left-le s.worker, replies_left-le s.worker)
