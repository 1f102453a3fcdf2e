-- ===== src/Server/System/Tests.antt =====
-- The threads of the server on a concrete platform.
use profile_service_cpp.Prelude.{◌⊎◌, ◌≤◌, ◌+◌, true, false, not, [], ◌∷◌, ◌++◌, length, ◌≡◌, refl}
use profile_service_cpp.Prelude.Text.{string_eq}
use profile_service_cpp.Effect.{ok}
use profile_service_cpp.Http.{put, HttpRequest, HttpResponse}
use profile_service_cpp.Requests.RequestManager.{
  simple_auth_checker, is_internal_create_profile, extract_user_id,
}
use profile_service_cpp.Requests.Safety.{anonymous_response, handle_anonymous}
use profile_service_cpp.Server.ServerImpl.{Endpoint, ServerImpl, handle}
use profile_service_cpp.Server.ServerImpl.Laws.{ready}
use profile_service_cpp.Server.Reply.{reply_to}
use profile_service_cpp.Server.System.{
  absent, join, opening, testing, accepting, handling, ended, idle, starting, joining, is_gone,
  System, failed, peer_acts, new_system, Reach, listen, enter, leave, read_error, answer, start,
  spawn, stop, request_stop, connect, accept, here, next, work, call,
}
use profile_service_cpp.Server.System.Drain.{Cleared, done, worked, arrived, loop_ends_soon}
use profile_service_cpp.Server.System.Stopping.{running-eq-alive, handling_replies}
use profile_service_cpp.Bench.{bench, request, label}
use profile_service_cpp.Server.System.Invariant.{in_stop}
use profile_service_cpp.Server.System.Stopping.{HeldUp}
use profile_service_cpp.Server.System.Ending.{During, Stopped, CanStep, stop_ends}

abbrev endpoint : Endpoint
endpoint = record { address = "0.0.0.0"; port = 8082 }

abbrev impl : ServerImpl
impl = ready bench label endpoint

abbrev start_called : System bench
start_called = record (new_system bench []) { running = true; caller = starting }

abbrev opened : System bench
opened = record start_called { worker = opening; stop_requested = false; caller = idle }

abbrev in_accept : System bench
in_accept = record opened { worker = accepting; backlog = 0 }

abbrev stopping : System bench
stopping = record in_accept {
  running = false;
  stop_requested = true;
  backlog = 1;
  caller = joining;
}

reaches_start : Reach bench impl [] start_called
reaches_start = next here (call (start refl refl))

reaches_opened : Reach bench impl [] opened
reaches_opened = next reaches_start (call (spawn refl))

reaches_accept : Reach bench impl [] in_accept
reaches_accept = next (next reaches_opened (work (listen refl))) (work (enter refl refl))

reaches_stopping : Reach bench impl [] stopping
reaches_stopping =
    next (next (next reaches_accept (call (stop refl refl))) (call (request_stop refl)))
      (call (connect refl refl))

running-eq-alive_example : in_accept.running ≡ not (is_gone in_accept.worker)
running-eq-alive_example = running-eq-alive bench impl reaches_accept refl

-- a request without a user
abbrev anonymous : HttpRequest
anonymous = request put "/me/privacy" "" ""

abbrev refusal : HttpResponse
refusal =
    anonymous_response bench impl.query_manager.query_executor impl.query_manager.avatar_storage
      simple_auth_checker anonymous impl.route_map

refuses : handle bench impl anonymous [] ≡ (ok refusal, [])
unfolding handle extract_user_id is_internal_create_profile
refuses =
    handle_anonymous bench impl.query_manager.query_executor impl.query_manager.avatar_storage
      simple_auth_checker anonymous impl.route_map [] refl refl

abbrev in_handle : System bench
in_handle = record in_accept { worker = handling anonymous }

abbrev replied : System bench
replied = record in_handle { worker = testing; sent = reply_to bench refusal ∷ [] }

handling_replies_example :
    (r : HttpResponse) × (((handle bench impl anonymous in_handle.world).0 ≡ ok r)
      × (replied.sent ≡ in_handle.sent ++ reply_to bench r ∷ [])
      × (replied.worker ≡ testing)
      × (replied.world ≡ (handle bench impl anonymous in_handle.world).1))
handling_replies_example =
    handling_replies bench impl {s = in_handle} {t = replied} anonymous refl (answer refl refuses)

abbrev left : System bench
left = record stopping { worker = ended; backlog = 0 }

-- the thread takes the connection, fails to read from it, and leaves
drains : Cleared bench impl 3 stopping left
drains = worked (accept refl refl) (
    arrived (peer_acts failed refl refl)
      (worked (read_error refl refl) (worked (leave refl refl) done)))

loop_ends_soon_example : (3 ≤ 4) × (length left.sent ≤ length stopping.sent + 1)
loop_ends_soon_example = loop_ends_soon bench impl reaches_stopping refl drains

abbrev returned : System bench
returned = record left { worker = absent; caller = idle }

-- what the thread does, and then the join
ending : During bench impl 4 stopping returned
ending = During.worked refl (accept refl refl) (
    During.arrived (peer_acts failed refl refl) (
      During.worked refl (read_error refl refl)
        (During.worked refl (leave refl refl) (During.called refl (join refl refl) During.done))))

stop_ends_example :
    (4 ≤ 7)
    × (((in_stop returned.caller ≡ true)
          × (CanStep bench impl returned ⊎ HeldUp bench impl returned))
        ⊎ Stopped bench impl returned)
stop_ends_example = stop_ends bench impl reaches_stopping refl ending
