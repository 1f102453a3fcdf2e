-- ===== src/Server/Process/Tests.antt =====
-- A run of the process from the start of its server to its return, on a concrete platform.
use profile_service_cpp.Prelude.{true, false, []}
use profile_service_cpp.Server.ServerImpl.{ServerImpl}
use profile_service_cpp.Server.ServerImpl.Laws.{ready}
use profile_service_cpp.Server.System.{absent, accepting, idle, joining, new_system, System}
use profile_service_cpp.Server.Process.{returned, Process}
use profile_service_cpp.Bench.{bench, label}

abbrev impl : ServerImpl
impl = ready bench label (record { address = "0.0.0.0"; port = 8082 })

abbrev serving : System bench
serving = record (new_system bench []) { running = true; worker = accepting }

abbrev stopping : System bench
stopping = record serving { running = false; stop_requested = true; caller = joining; backlog = 1 }

abbrev stopped : System bench
stopped = record stopping { worker = absent; caller = idle; backlog = 0 }

abbrev exited : Process bench
exited = record { stage = returned 0; system = stopped }
