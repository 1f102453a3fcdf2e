-- ===== src/Storage.antt =====
-- src/repository/minio_storage.cpp: the avatar storage, which keeps nothing and answers with a URL.
pub mod Laws
mod Tests
use profile_service_cpp.Prelude.{
  ℕ, String, ◌<>◌, not, ◌&&◌, ◌==◌, starts_with, List, is_empty, if◌then◌else◌,
}
use profile_service_cpp.Effect.{Result, ok, throw}

pub record MinioStorage : Type 0 where
  pub endpoint : String
  pub access_key : String
  pub secret_key : String

abbrev pub bucket_name : String
bucket_name = "avatars"

unfoldable pub extension_of : String → String
extension_of content_type =
    if content_type == "image/png"
    then "png"
    else if content_type == "image/webp"
    then "webp"
    else "jpg"

-- `base_url`, with its scheme put in front where it has none
unfoldable pub base_url_of : String → String
base_url_of endpoint =
    let base_url = if endpoint == "" then "http://localhost:9000" else endpoint in
    if not (starts_with base_url "http://") && not (starts_with base_url "https://")
    then "http://" <> base_url
    else base_url

unfoldable pub upload : MinioStorage → String → List ℕ → String → Result String
unfolding extension_of base_url_of
upload storage user_id image content_type =
    if is_empty image
    then throw "Avatar payload is empty"
    else ok (
        base_url_of storage.endpoint
        <> "/"
        <> bucket_name
        <> "/"
        <> user_id
        <> "/avatar."
        <> extension_of content_type)

-- `Delete` ignores its argument.
unfoldable pub delete : MinioStorage → String → Result (Unit {0})
delete storage user_id = ok tt
