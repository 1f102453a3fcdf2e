-- ===== src/Server/Process/Exit.antt =====
-- How the process ends.
use profile_service_cpp.Prelude.{false, ◌≡◌}
use profile_service_cpp.Platform.{Platform}
use profile_service_cpp.Server.ServerImpl.{ServerImpl}
use profile_service_cpp.Server.System.{absent, System}
use profile_service_cpp.Server.Process.{returned, Process, ThreadStep}

module _ (P : Platform) where
  -- `main` has returned 0, the flag is cleared and there is no thread of the loop left
  pub record Exited (p : Process P) : Type 0 where
    pub exit_code : p.stage ≡ returned 0
    pub joined : p.system.worker ≡ absent
    pub cleared : p.system.running ≡ false

  module _ (impl : ServerImpl) where
    -- one of the two threads can go on
    abbrev pub Goes : Process P → Type 0
    Goes p = (q : Process P) × ThreadStep P impl p q
