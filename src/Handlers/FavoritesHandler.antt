-- ===== src/Handlers/FavoritesHandler.antt =====
-- src/handlers/favorites_handler.cpp.
use profile_service_cpp.Prelude.{◌&&◌, ◌==◌, none, some, List, [], ◌∷◌, if◌then◌else◌}
use profile_service_cpp.Prelude.Dict.{find}
use profile_service_cpp.Prelude.Text.{string_eq, found_at_start}
use profile_service_cpp.Platform.{Platform}
use profile_service_cpp.Effect.{try_catch, ◌>>=◌, ◌>>◌}
use profile_service_cpp.Models.{Favorite}
use profile_service_cpp.Http.{
  get, post, delete_, verb_beq, HttpRequest, RouteContext, error_response,
}
use profile_service_cpp.Database.Executor.{QueryExecutor}
use profile_service_cpp.Repository.FavoriteRepository.{list, add, remove}
use profile_service_cpp.Handlers.Common.{Handled, object, fail, answer, answer_json}

module _ (P : Platform) (x : QueryExecutor) where
  -- One element of the answer.
  abbrev pub favorite_item : Favorite P → P.Json
  favorite_item fav = object P (
      ("user_id", P.of_string fav.user_id)
      ∷ ("chat_id", P.of_string fav.chat_id)
      ∷ ("created_at", P.of_int64 (P.seconds fav.created_at))
      ∷ [])

  -- the loop over the favorites
  unfoldable pub push_favorites : P.Json → List (Favorite P) → P.Json
  push_favorites response [] = response
  push_favorites response (fav ∷ favorites) =
      push_favorites (P.push_back response (favorite_item fav)) favorites

  unfoldable pub handle_get_favorites : HttpRequest → RouteContext → Handled P
  handle_get_favorites request context =
      try_catch
        (do
          favorites ← list P x context.user_id
          answer_json P 200 request (push_favorites P.empty_array favorites))
        (λ _. fail P 500 request "failed to get favorites")

  unfoldable pub handle_add_favorite : HttpRequest → RouteContext → Handled P
  handle_add_favorite request context =
      try_catch
        (elim (find "chat_id" context.path_params) [
          | none ↦ fail P 400 request "chat_id is required"
          | some chat_id ↦ (do add P x context.user_id chat_id; answer P 201 request "")
        ])
        (λ _. fail P 500 request "failed to add favorite")

  unfoldable pub handle_remove_favorite : HttpRequest → RouteContext → Handled P
  handle_remove_favorite request context =
      try_catch
        (elim (find "chat_id" context.path_params) [
          | none ↦ fail P 400 request "chat_id is required"
          | some chat_id ↦ (do remove P x context.user_id chat_id; answer P 204 request "")
        ])
        (λ _. fail P 500 request "failed to remove favorite")

  unfoldable pub handle : HttpRequest → RouteContext → Handled P
  unfolding found_at_start error_response
  handle request context =
      if verb_beq request.method get && request.target == "/favorites"
      then handle_get_favorites request context
      else if verb_beq request.method post && found_at_start request.target "/favorites/"
      then handle_add_favorite request context
      else if verb_beq request.method delete_ && found_at_start request.target "/favorites/"
      then handle_remove_favorite request context
      else fail P 404 request "not_found"
