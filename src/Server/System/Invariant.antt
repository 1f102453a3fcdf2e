-- ===== src/Server/System/Invariant.antt =====
-- What holds of the flags and the threads in every state that the server reaches.
use profile_service_cpp.Prelude.{◌<◌, Bool, true, false, ◌≡◌, refl, arith}
use profile_service_cpp.Platform.{Platform}
use profile_service_cpp.Server.ServerImpl.{ServerImpl}
use profile_service_cpp.Server.System.{
  accepting, Caller, idle, starting, requesting, connecting, joining, is_gone, System, new_system,
  WorkerStep, CallerStep, Step, Reach, listen, open_fails, enter, leave, accept, accept_error, read,
  read_error, answer, handle_throws, catch_block, start_refused, start, spawn, stop_returns, stop,
  request_stop, connect, connect_throws, join, work, call, network, arrive, accept_fails, peer_acts,
  NetworkStep, here, next,
}

-- in `Stop`, after the flag has been cleared
abbrev pub in_stop : Caller → Bool
in_stop requesting = true
in_stop connecting = true
in_stop joining = true
in_stop _ = false

module _ (P : Platform) where
  pub record Inv (s : System P) : Type 0 where
    -- Outside `Stop` the loop's thread runs only under the flag.
    pub stopped : in_stop s.caller ≡ false → s.running ≡ false → is_gone s.worker ≡ true
    -- `Start` finds no thread that runs.
    pub replaced : s.caller ≡ starting → is_gone s.worker ≡ true
    pub started : s.caller ≡ starting → s.running ≡ true
    -- Between the calls a set flag means that the thread runs and has not been asked to stop.
    pub alive :
        s.caller ≡ idle → s.running ≡ true → (is_gone s.worker ≡ false) × (s.stop_requested ≡ false)
    pub cleared : in_stop s.caller ≡ true → s.running ≡ false
    -- Whoever waits in `accept` while `Stop` joins has a connection to accept.
    pub woken : s.caller ≡ joining → s.worker ≡ accepting → 0 < s.backlog

  pub new_system-Inv : (w : P.World) → Inv (new_system P w)
  new_system-Inv w = record {
    stopped = λ _ _. refl;
    replaced = λ e. cc;
    started = λ e. cc;
    alive = λ _ e. cc;
    cleared = λ e. cc;
    woken = λ e _. cc;
  }

  WorkerStep-Inv : {impl : ServerImpl} {s t : System P} → WorkerStep P impl s t → Inv s → Inv t
  WorkerStep-Inv (listen a) v = ground arith
  WorkerStep-Inv (open_fails a) v = ground arith
  WorkerStep-Inv (enter a b) v = ground arith
  WorkerStep-Inv (leave a b) v = ground arith
  WorkerStep-Inv (accept a b) v = ground arith
  WorkerStep-Inv (accept_error a b) v = ground arith
  WorkerStep-Inv (read q a b) v = ground arith
  WorkerStep-Inv (read_error a b) v = ground arith
  WorkerStep-Inv (answer a b) v = ground arith
  WorkerStep-Inv (handle_throws a b) v = ground arith
  WorkerStep-Inv (catch_block a) v = ground arith

  CallerStep-Inv : {s t : System P} → CallerStep P s t → Inv s → Inv t
  CallerStep-Inv (start_refused a b) v = v
  CallerStep-Inv (start a b) v = ground arith
  CallerStep-Inv (spawn a) v = ground arith
  CallerStep-Inv (stop_returns a b) v = v
  CallerStep-Inv (stop a b) v = ground arith
  CallerStep-Inv (request_stop a) v = ground arith
  CallerStep-Inv (connect a b) v = ground arith
  CallerStep-Inv (connect_throws a b) v = ground arith
  CallerStep-Inv (join a b) v = ground arith

  NetworkStep-Inv : {s t : System P} → NetworkStep P s t → Inv s → Inv t
  NetworkStep-Inv (arrive a) v = ground arith
  NetworkStep-Inv (accept_fails a b) v = ground arith
  NetworkStep-Inv (peer_acts e a b) v = ground arith

  pub Step-Inv : {impl : ServerImpl} {s t : System P} → Step P impl s t → Inv s → Inv t
  Step-Inv (work st) v = WorkerStep-Inv st v
  Step-Inv (call st) v = CallerStep-Inv st v
  Step-Inv (network st) v = NetworkStep-Inv st v

  pub Reach-Inv : {impl : ServerImpl} {w : P.World} {s : System P} → Reach P impl w s → Inv s
  Reach-Inv {w} here = new_system-Inv w
  Reach-Inv (next r st) = Step-Inv st (Reach-Inv r)
