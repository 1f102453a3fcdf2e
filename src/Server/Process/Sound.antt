-- ===== src/Server/Process/Sound.antt =====
-- What holds of the process at each stage.
use profile_service_cpp.Prelude.{true, false, ◌≡◌, ◌≢◌, ◌∙◌, refl, ap, subst, inl, inr, ◌⊎◌, arith}
use profile_service_cpp.Platform.{Platform}
use profile_service_cpp.Server.ServerImpl.{ServerImpl}
use profile_service_cpp.Server.System.{
  absent, idle, starting, System, WorkerStep, CallerStep, work, call, network, NetworkStep, arrive,
  accept_fails, peer_acts, start_refused, start, spawn, stop, request_stop, connect, connect_throws,
  join, listen, open_fails, enter, leave, accept, accept_error, read, read_error, answer,
  handle_throws, catch_block,
}
use profile_service_cpp.Server.System.Invariant.{Inv, in_stop, Step-Inv, new_system-Inv}
use profile_service_cpp.Server.System.Drain.{WorkerStep-drains}
use profile_service_cpp.Server.System.Ending.{WorkerStep-caller}
use profile_service_cpp.Server.Process.{
  By, by_main, by_destructor, Stage, before_start, within_start, waiting, before_stop, within_stop,
  ending_thread, returned, after_stop, Process, ThreadStep, ProcessStep, thread_goes, Runs,
  start_fails, start_begins, start_ends, signal, stop_skips, stop_begins, stop_goes_on,
  stop_returns, thread_ends, worker_goes, network_acts, begun, then_step,
}

-- whoever calls `Stop`, the code that `main` is to return is 0
abbrev pub IsClean : By → Type 0
IsClean by_main = Unit
IsClean (by_destructor code) = code ≡ 0

module _ (P : Platform) where
  -- what holds of the flags and the threads at each stage
  abbrev pub AtStage : Stage → System P → Type 0
  AtStage before_start s = (s.caller ≡ idle) × (s.running ≡ false) × (s.worker ≡ absent)
  AtStage within_start s = s.caller ≡ starting
  AtStage waiting s = s.caller ≡ idle
  AtStage (before_stop by_main) s = s.caller ≡ idle
  AtStage (before_stop (by_destructor code)) s =
      (s.caller ≡ idle) × (s.running ≡ false) × (code ≡ 0)
  AtStage (within_stop b) s = (in_stop s.caller ≡ true) × IsClean b
  AtStage (ending_thread code) s = (s.caller ≡ idle) × (s.running ≡ false) × (code ≡ 0)
  AtStage (returned code) s = (s.worker ≡ absent) × (s.running ≡ false) × (code ≡ 0)

  WorkerStep-present :
      {impl : ServerImpl} {s t : System P} → WorkerStep P impl s t → s.worker ≢ absent
  WorkerStep-present (listen a) e = cc
  WorkerStep-present (open_fails a) e = cc
  WorkerStep-present (enter a b) e = cc
  WorkerStep-present (leave a b) e = cc
  WorkerStep-present (accept a b) e = cc
  WorkerStep-present (accept_error a b) e = cc
  WorkerStep-present (read q a b) e = cc
  WorkerStep-present (read_error a b) e = cc
  WorkerStep-present (answer a b) e = cc
  WorkerStep-present (handle_throws a b) e = cc
  WorkerStep-present (catch_block a) e = cc

  -- a step of the calling thread in `Stop` stays there or returns
  pub call_stays :
      {s t : System P}
      → CallerStep P s t
      → in_stop s.caller ≡ true
      → (in_stop t.caller ≡ true) ⊎ (t.caller ≡ idle)
  call_stays (start_refused a b) h = inl h
  call_stays (start a b) h = absurd (ground arith)
  call_stays (spawn a) h = inr refl
  call_stays (CallerStep.stop_returns a b) h = inl h
  call_stays (stop a b) h = inl refl
  call_stays (request_stop a) h = inl refl
  call_stays (connect a b) h = inl refl
  call_stays (connect_throws a b) h = inl refl
  call_stays (join a b) h = inr refl

  -- a step that ends a call of `Stop` leaves the flag cleared
  CallerStep-off :
      {s t : System P}
      → CallerStep P s t
      → in_stop s.caller ≡ true
      → s.running ≡ false
      → t.caller ≡ idle
      → t.running ≡ false
  CallerStep-off (start_refused a b) h off c = off
  CallerStep-off (start a b) h off c = absurd (ground arith)
  CallerStep-off (spawn a) h off c = off
  CallerStep-off (CallerStep.stop_returns a b) h off c = off
  CallerStep-off (stop a b) h off c = refl
  CallerStep-off (request_stop a) h off c = off
  CallerStep-off (connect a b) h off c = off
  CallerStep-off (connect_throws a b) h off c = off
  CallerStep-off (join a b) h off c = off

  network_at : (k : Stage) {s t : System P} → NetworkStep P s t → AtStage k s → AtStage k t
  network_at before_start (arrive a) h = h
  network_at before_start (accept_fails a b) h = h
  network_at before_start (peer_acts e a b) h = h
  network_at within_start (arrive a) h = h
  network_at within_start (accept_fails a b) h = h
  network_at within_start (peer_acts e a b) h = h
  network_at waiting (arrive a) h = h
  network_at waiting (accept_fails a b) h = h
  network_at waiting (peer_acts e a b) h = h
  network_at (before_stop by_main) (arrive a) h = h
  network_at (before_stop by_main) (accept_fails a b) h = h
  network_at (before_stop by_main) (peer_acts e a b) h = h
  network_at (before_stop (by_destructor code)) (arrive a) h = h
  network_at (before_stop (by_destructor code)) (accept_fails a b) h = h
  network_at (before_stop (by_destructor code)) (peer_acts e a b) h = h
  network_at (within_stop x) (arrive a) h = h
  network_at (within_stop x) (accept_fails a b) h = h
  network_at (within_stop x) (peer_acts e a b) h = h
  network_at (ending_thread code) (arrive a) h = h
  network_at (ending_thread code) (accept_fails a b) h = h
  network_at (ending_thread code) (peer_acts e a b) h = h
  network_at (returned code) (arrive a) h = h
  network_at (returned code) (accept_fails a b) h = h
  network_at (returned code) (peer_acts e a b) h = h

  -- when a call of `Stop` has returned
  stopped_at :
      (b : By) (s : System P)
      → IsClean b
      → s.caller ≡ idle
      → s.running ≡ false
      → AtStage (after_stop b) s
  stopped_at by_main s clean c off = (c, off, refl)
  stopped_at (by_destructor code) s clean c off = (c, off, clean)

  idle_at : (b : By) (s : System P) → AtStage (before_stop b) s → (s.caller ≡ idle) × IsClean b
  idle_at by_main s c = (c, tt)
  idle_at (by_destructor code) s (c, off, clean) = (c, clean)

  -- what holds of the process: its stage fits, and its system obeys the invariant of the server
  abbrev pub Sound : Process P → Type 0
  Sound p = AtStage p.stage p.system × Inv P p.system

  ended_thread :
      (s : System P)
      → Inv P s
      → s.caller ≡ idle
      → s.running ≡ false
      → Inv P (record s { worker = absent; stop_requested = true })
  ended_thread s v c off = record {
    stopped = λ _ _. refl;
    replaced = λ e. refl;
    started = λ e. absurd (ground arith);
    alive = λ _ e. absurd (ground arith);
    cleared = λ e. off;
    woken = λ e k. absurd (ground arith);
  }

  module _ {impl : ServerImpl} where
    worker_at : (k : Stage) {s t : System P} → WorkerStep P impl s t → AtStage k s → AtStage k t
    worker_at before_start st (c, off, none) = absurd (WorkerStep-present st none)
    worker_at within_start st c = WorkerStep-caller P impl st ∙ c
    worker_at waiting st c = WorkerStep-caller P impl st ∙ c
    worker_at (before_stop by_main) st c = WorkerStep-caller P impl st ∙ c
    worker_at (before_stop (by_destructor code)) st (c, off, clean) =
        (WorkerStep-caller P impl st ∙ c, (WorkerStep-drains P impl st off).0, clean)
    worker_at (within_stop b) st (c, clean) = (ap in_stop (WorkerStep-caller P impl st) ∙ c, clean)
    worker_at (ending_thread code) st (c, off, clean) =
        (WorkerStep-caller P impl st ∙ c, (WorkerStep-drains P impl st off).0, clean)
    worker_at (returned code) st (none, off, clean) = absurd (WorkerStep-present st none)

    ThreadStep-Sound : {p q : Process P} → ThreadStep P impl p q → Sound p → Sound q
    ThreadStep-Sound {p} (start_fails a b) (h, v) =
        let (c, off, none) = subst (λ k. AtStage k p.system) a h in absurd (ground arith)
    ThreadStep-Sound (start_begins a st c) (h, v) = (c, Step-Inv P {impl = impl} (call st) v)
    ThreadStep-Sound (start_ends a st c) (h, v) = (c, Step-Inv P {impl = impl} (call st) v)
    ThreadStep-Sound {p} (signal a) (h, v) = (subst (λ k. AtStage k p.system) a h, v)
    ThreadStep-Sound {p} (stop_skips b a off) (h, v) =
        let (c, clean) = idle_at b p.system (subst (λ k. AtStage k p.system) a h) in
        (stopped_at b p.system clean c off, v)
    ThreadStep-Sound {p} (stop_begins b a st c) (h, v) =
        let (was, clean) = idle_at b p.system (subst (λ k. AtStage k p.system) a h) in
        ((ap in_stop c, clean), Step-Inv P {impl = impl} (call st) v)
    ThreadStep-Sound {p} (stop_goes_on b a st c) (h, v) =
        let (was, clean) = subst (λ k. AtStage k p.system) a h in
        ((c, clean), Step-Inv P {impl = impl} (call st) v)
    ThreadStep-Sound {p} (stop_returns {t} b a st c) (h, v) =
        let (was, clean) = subst (λ k. AtStage k p.system) a h in
        (
          stopped_at b t clean c (CallerStep-off st was (v.cleared was) c),
          Step-Inv P {impl = impl} (call st) v,
        )
    ThreadStep-Sound {p} (thread_ends {code} a gone) (h, v) =
        let (c, off, clean) = subst (λ k. AtStage k p.system) a h in
        ((refl, off, clean), ended_thread p.system v c off)
    ThreadStep-Sound {p} (worker_goes st) (h, v) = (worker_at p.stage st h, Step-Inv P (work st) v)

    ProcessStep-Sound : {p q : Process P} → ProcessStep P impl p q → Sound p → Sound q
    ProcessStep-Sound (thread_goes st) sound = ThreadStep-Sound st sound
    ProcessStep-Sound {p} (network_acts st) (h, v) =
        (network_at p.stage st h, Step-Inv P {impl = impl} (network st) v)

    pub Runs-Sound : {w : P.World} {p : Process P} → Runs P impl w p → Sound p
    Runs-Sound {w} begun = ((refl, refl, refl), new_system-Inv P w)
    Runs-Sound (then_step r st) = ProcessStep-Sound st (Runs-Sound r)
