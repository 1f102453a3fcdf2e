-- ===== src/Server/Process.antt =====
-- src/main.cpp from the call of `Start` on, with the destructor of `Server`: the main thread is the one that
-- calls `Start` and `Stop`.
pub mod Sound
pub mod Exit
mod Tests
use profile_service_cpp.Prelude.{ℕ, suc, true, false, ◌≡◌}
use profile_service_cpp.Platform.{Platform}
use profile_service_cpp.Server.ServerImpl.{ServerImpl}
use profile_service_cpp.Server.System.{
  NetworkStep, absent, idle, starting, requesting, is_gone, listening, System, new_system,
  WorkerStep, CallerStep,
}
use profile_service_cpp.Server.System.Invariant.{in_stop}

-- who calls `Stop`: `main`, or the destructor, before `main` returns a code
pub data By : Type 0 where
  by_main : By
  by_destructor : ℕ → By

-- Where the main thread stands.
pub data Stage : Type 0 where
  before_start : Stage
  within_start : Stage
  waiting : Stage  -- at `sigwait`
  before_stop : By → Stage
  within_stop : By → Stage
  ending_thread : ℕ → Stage  -- at the destructor of the `jthread`
  returned : ℕ → Stage

-- what comes after a call of `Stop`
abbrev pub after_stop : By → Stage
after_stop by_main = before_stop (by_destructor 0)
after_stop (by_destructor code) = ending_thread code

module _ (P : Platform) where
  pub record Process : Type 0 where
    pub stage : Stage
    pub system : System P

  -- the process when `main` has made its server
  abbrev pub new_process : P.World → Process
  new_process w = record { stage = before_start; system = new_system P w }

  -- a step of the main thread or of the loop's thread
  pub data ThreadStep (impl : ServerImpl) : Process → Process → Type 0 where
    start_fails :
        {p : Process}
        → p.stage ≡ before_start
        → p.system.running ≡ true
        → ThreadStep impl p (record p { stage = before_stop (by_destructor 1) })
    start_begins :
        {p : Process} {t : System P}
        → p.stage ≡ before_start
        → CallerStep P p.system t
        → t.caller ≡ starting
        → ThreadStep impl p (record { stage = within_start; system = t })
    start_ends :
        {p : Process} {t : System P}
        → p.stage ≡ within_start
        → CallerStep P p.system t
        → t.caller ≡ idle
        → ThreadStep impl p (record { stage = waiting; system = t })
    -- `sigwait` returns
    signal :
        {p : Process}
        → p.stage ≡ waiting
        → ThreadStep impl p (record p { stage = before_stop by_main })
    -- the flag is clear: `Stop` returns at once
    stop_skips :
        {p : Process} (b : By)
        → p.stage ≡ before_stop b
        → p.system.running ≡ false
        → ThreadStep impl p (record p { stage = after_stop b })
    stop_begins :
        {p : Process} {t : System P} (b : By)
        → p.stage ≡ before_stop b
        → CallerStep P p.system t
        → t.caller ≡ requesting
        → ThreadStep impl p (record { stage = within_stop b; system = t })
    stop_goes_on :
        {p : Process} {t : System P} (b : By)
        → p.stage ≡ within_stop b
        → CallerStep P p.system t
        → in_stop t.caller ≡ true
        → ThreadStep impl p (record { stage = within_stop b; system = t })
    stop_returns :
        {p : Process} {t : System P} (b : By)
        → p.stage ≡ within_stop b
        → CallerStep P p.system t
        → t.caller ≡ idle
        → ThreadStep impl p (record { stage = after_stop b; system = t })
    -- `~jthread` requests a stop and joins what is joinable
    thread_ends :
        {p : Process} {code : ℕ}
        → p.stage ≡ ending_thread code
        → is_gone p.system.worker ≡ true
        → ThreadStep impl p (record {
          stage = returned code;
          system = record p.system { worker = absent; stop_requested = true };
        })
    -- a step of the loop's thread
    worker_goes :
        {p : Process} {t : System P}
        → WorkerStep P impl p.system t
        → ThreadStep impl p (record p { system = t })

  pub data ProcessStep (impl : ServerImpl) : Process → Process → Type 0 where
    thread_goes : {p q : Process} → ThreadStep impl p q → ProcessStep impl p q
    network_acts :
        {p : Process} {t : System P}
        → NetworkStep P p.system t
        → ProcessStep impl p (record p { system = t })

  pub data Runs (impl : ServerImpl) (w : P.World) : Process → Type 0 where
    begun : Runs impl w (new_process w)
    then_step : {p q : Process} → Runs impl w p → ProcessStep impl p q → Runs impl w q
