-- ===== src/Server/System/Ending.antt =====
-- A call of `Stop` ends.
use profile_service_cpp.Prelude.{
  ℕ, zero, suc, ◌+◌, ◌≤◌, true, false, ◌≡◌, ◌⊎◌, inl, inr, ◌∙◌, refl, Bool-cases, arith, ap,
}
use profile_service_cpp.Platform.{Platform}
use profile_service_cpp.Server.ServerImpl.{ServerImpl}
use profile_service_cpp.Server.System.{
  absent, Caller, idle, starting, requesting, connecting, joining, listening, is_gone, System,
  WorkerStep, CallerStep, Reach, listen, open_fails, enter, leave, accept, accept_error, read,
  read_error, answer, handle_throws, catch_block, start_refused, start, spawn, stop_returns, stop,
  request_stop, connect, connect_throws, join, work, call, network, NetworkStep,
}
use profile_service_cpp.Server.System.Invariant.{Inv, in_stop, Step-Inv, Reach-Inv}
use profile_service_cpp.Server.System.Drain.{
  NetworkStep-same, steps_left, steps_left-le, WorkerStep-drains,
}
use profile_service_cpp.Server.System.Stopping.{next_step, HeldUp}

-- the steps that are left to the thread in `Stop`
unfoldable pub calls_left : Caller → ℕ
calls_left requesting = 3
calls_left connecting = 2
calls_left joining = 1
calls_left _ = 0

module _ (P : Platform) (impl : ServerImpl) where
  -- A sequence of steps of both threads and the clients during a call of `Stop`, by the number of steps
  -- of the two threads. It ends where the call returns, or before.
  pub data During : ℕ → System P → System P → Type 0 where
    done : {s : System P} → During zero s s
    worked :
        {n : ℕ} {s t u : System P}
        → in_stop s.caller ≡ true
        → WorkerStep P impl s t
        → During n t u
        → During (suc n) s u
    called :
        {n : ℕ} {s t u : System P}
        → in_stop s.caller ≡ true
        → CallerStep P s t
        → During n t u
        → During (suc n) s u
    arrived : {n : ℕ} {s t u : System P} → NetworkStep P s t → During n t u → During n s u

  -- `Stop` has returned: no thread runs, and the flag is cleared
  pub record Stopped (s : System P) : Type 0 where
    pub returned : s.caller ≡ idle
    pub joined : s.worker ≡ absent
    pub cleared : s.running ≡ false

  -- a step of one of the two threads is possible
  abbrev pub CanStep : System P → Type 0
  CanStep s = (t : System P) × (WorkerStep P impl s t ⊎ CallerStep P s t)

  pub WorkerStep-caller : {s t : System P} → WorkerStep P impl s t → t.caller ≡ s.caller
  WorkerStep-caller (listen a) = refl
  WorkerStep-caller (open_fails a) = refl
  WorkerStep-caller (enter a b) = refl
  WorkerStep-caller (leave a b) = refl
  WorkerStep-caller (accept a b) = refl
  WorkerStep-caller (accept_error a b) = refl
  WorkerStep-caller (read q a b) = refl
  WorkerStep-caller (read_error a b) = refl
  WorkerStep-caller (answer a b) = refl
  WorkerStep-caller (handle_throws a b) = refl
  WorkerStep-caller (catch_block a) = refl

  -- the steps that are left to both threads
  abbrev left : System P → ℕ
  left s = steps_left s.worker + calls_left s.caller

  WorkerStep-left :
      {s t : System P} → WorkerStep P impl s t → s.running ≡ false → suc (left t) ≤ left s
  WorkerStep-left st h =
      let (h', fewer, sent) = WorkerStep-drains P impl st h in
      let same = ap calls_left (WorkerStep-caller st) in omega arith

  -- A step of the calling thread in `Stop` is one of the few that are left to it; the last one returns.
  CallerStep-left :
      {s t : System P}
      → CallerStep P s t
      → in_stop s.caller ≡ true
      → s.running ≡ false
      → (suc (left t) ≤ left s) × ((in_stop t.caller ≡ true) ⊎ Stopped t)
  unfolding calls_left steps_left
  CallerStep-left (start_refused a b) h off = absurd (ground arith)
  CallerStep-left (start a b) h off = absurd (ground arith)
  CallerStep-left (spawn a) h off = absurd (ground arith)
  CallerStep-left (stop_returns a b) h off = absurd (ground arith)
  CallerStep-left (stop a b) h off = absurd (ground arith)
  CallerStep-left (request_stop a) h off = (ground arith, inl refl)
  CallerStep-left (connect a b) h off = (ground arith, inl refl)
  CallerStep-left (connect_throws a b) h off = (ground arith, inl refl)
  CallerStep-left (join a b) h off =
      (ground arith, inr (record { returned = refl; joined = refl; cleared = off }))

  -- while `Stop` is under way, one of the threads can go on, or it is held up
  pub goes :
      (k : Caller) {s : System P}
      → s.caller ≡ k
      → in_stop k ≡ true
      → Inv P s
      → CanStep s ⊎ HeldUp P impl s
  goes idle e h v = absurd cc
  goes starting e h v = absurd cc
  goes requesting e h v = inl (_, inr (request_stop e))
  goes connecting {s} e h v = elim (Bool-cases (listening s.worker)) [
    | inl l ↦ inl (_, inr (connect e l))
    | inr l ↦ inl (_, inr (connect_throws e l))
  ]
  goes joining {s} e h v = elim (Bool-cases (is_gone s.worker)) [
    | inl gone ↦ inl (_, inr (join e gone))
    | inr runs ↦ elim (next_step P impl s.worker refl v e runs) [
      | inl (t, st, fewer) ↦ inl (t, inl st)
      | inr held ↦ inr held
    ]
  ]

  -- where a sequence of steps may stand: in `Stop`, or behind it
  abbrev Standing : System P → Type 0
  Standing s = (in_stop s.caller ≡ true) ⊎ Stopped s

  Standing-network : {s t : System P} → NetworkStep P s t → Standing s → Standing t
  Standing-network st (inl h) =
      let (worker, sent, caller, running) = NetworkStep-same P impl st in
      inl (ap in_stop caller ∙ h)
  Standing-network st (inr h) =
      let (worker, sent, caller, running) = NetworkStep-same P impl st in
      inr (record {
        returned = caller ∙ h.returned;
        joined = worker ∙ h.joined;
        cleared = running ∙ h.cleared;
      })

  During-left :
      {n : ℕ} {s t : System P}
      → During n s t
      → Inv P s
      → Standing s
      → (n + left t ≤ left s) × Inv P t × Standing t
  During-left done v at = (omega arith, v, at)
  During-left (worked h st rest) v at =
      let fewer = WorkerStep-left st (v.cleared h) in
      let same = WorkerStep-caller st in
      let (later, v', at') =
        During-left rest (Step-Inv P (work st) v) (inl (ap in_stop same ∙ h)) in
      (omega arith, v', at')
  During-left (called h st rest) v at =
      let (fewer, still) = CallerStep-left st h (v.cleared h) in
      let (later, v', at') = During-left rest (Step-Inv P {impl = impl} (call st) v) still in
      (omega arith, v', at')
  During-left (arrived st rest) v at =
      let (worker, sent, caller, running) = NetworkStep-same P impl st in
      let (later, v', at') =
        During-left rest (Step-Inv P {impl = impl} (network st) v) (Standing-network st at) in
      let steps = ap steps_left worker in let calls = ap calls_left caller in (omega arith, v', at')

  calls_left-le : (c : Caller) → calls_left c ≤ 3
  unfolding calls_left
  calls_left-le c = ground arith

  -- A call of `Stop` ends, in every interleaving: from any reachable state in it, the two threads take at
  -- most seven steps until it returns, whatever the network does in between. As long as it has not returned,
  -- one of the two can take a step, unless `Stop` is at its join and the loop's thread reads from a connection
  -- on which nothing comes. When it has returned, there is no thread of the loop any more and the flag is
  -- cleared.
  pub stop_ends :
      {w : P.World} {n : ℕ} {s t : System P}
      → Reach P impl w s
      → in_stop s.caller ≡ true
      → During n s t
      → (n ≤ 7) × (((in_stop t.caller ≡ true) × (CanStep t ⊎ HeldUp P impl t)) ⊎ Stopped t)
  stop_ends {s} {t} r h d =
      let (few, v, at) = During-left d (Reach-Inv P r) (inl h) in
      (
        omega (arith, steps_left-le P impl s.worker, calls_left-le s.caller),
        elim at [ inl still ↦ inl (still, goes t.caller refl still v) | inr stopped ↦ inr stopped ],
      )
