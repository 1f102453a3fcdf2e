-- ===== src/Server/Reply.antt =====
-- What the accept loop of src/server.cpp makes of a response before it is written.
use profile_service_cpp.Prelude.{false}
use profile_service_cpp.Platform.{Platform}
use profile_service_cpp.Http.{HttpResponse}

unfoldable pub reply_to : (P : Platform) → HttpResponse → HttpResponse
reply_to P response = P.keep_alive false (
    P.set_field "Access-Control-Allow-Headers" "Content-Type, Authorization, X-User-ID" (
      P.set_field "Access-Control-Allow-Methods" "GET, POST, PUT, PATCH, DELETE, OPTIONS" (
        P.set_field "Access-Control-Allow-Origin" "*"
          (P.set_field "Server" "profile-service" response))))
