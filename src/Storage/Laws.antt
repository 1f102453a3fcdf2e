-- ===== src/Storage/Laws.antt =====
-- The URLs that the storage answers with.
use profile_service_cpp.Prelude.{String, ◌<>◌, true, false, starts_with, ◌≡◌, ◌⊎◌, ◌≢◌}

abbrev pub HasScheme : String → Type 0
HasScheme url = (starts_with url "http://" ≡ true) ⊎ (starts_with url "https://" ≡ true)

-- The extension of a content type.
pub data Extension (content_type : String) : String → Type 0 where
  png : content_type ≡ "image/png" → Extension content_type "png"
  webp : content_type ≡ "image/webp" → Extension content_type "webp"
  jpg : content_type ≢ "image/png" → content_type ≢ "image/webp" → Extension content_type "jpg"

-- The base of the URLs at an endpoint.
pub data Base (endpoint : String) : String → Type 0 where
  absent : endpoint ≡ "" → Base endpoint "http://localhost:9000"
  given : endpoint ≢ "" → HasScheme endpoint → Base endpoint endpoint
  bare :
      endpoint ≢ ""
      → starts_with endpoint "http://" ≡ false
      → starts_with endpoint "https://" ≡ false
      → Base endpoint ("http://" <> endpoint)

-- what stands behind the base of a URL
abbrev pub avatar_path : String → String → String
avatar_path user_id extension =
    "/" <> ("avatars" <> ("/" <> (user_id <> ("/avatar." <> extension))))
