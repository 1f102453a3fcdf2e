-- ===== src/Server/QueryManager.antt =====
-- src/query_manager.cpp: the connection and the storage, from the environment's variables. The five
-- repositories are functions of the executor that they share, so the getters of the repositories yield
-- the executor.
use profile_service_cpp.Prelude.{none, some, value_or}
use profile_service_cpp.Platform.{Platform}
use profile_service_cpp.Effect.{Action, ret, raise, ◌>>=◌}
use profile_service_cpp.Storage.{MinioStorage}
use profile_service_cpp.Database.Connection.{new_connection}
use profile_service_cpp.Database.Executor.{QueryExecutor}

pub record QueryManager : Type 0 where
  pub query_executor : QueryExecutor
  pub avatar_storage : MinioStorage

module _ (P : Platform) where
  unfoldable pub initialize_repositories : Action P.World QueryExecutor
  initialize_repositories = elim (P.getenv "DATABASE_URL") [
    | none ↦ raise "DATABASE_URL environment variable not set"
    | some db_url ↦ (do
      connection ← new_connection P db_url
      ret (record { connection = some connection }))
  ]

  unfoldable pub initialize_storage : MinioStorage
  initialize_storage = record {
    endpoint = value_or (P.getenv "MINIO_ENDPOINT") "localhost:9000";
    access_key = value_or (P.getenv "MINIO_ACCESS_KEY") "";
    secret_key = value_or (P.getenv "MINIO_SECRET_KEY") "";
  }

  -- the constructor
  unfoldable pub new_query_manager : Action P.World QueryManager
  unfolding initialize_repositories initialize_storage
  new_query_manager = do
    query_executor ← initialize_repositories
    ret (record { query_executor = query_executor; avatar_storage = initialize_storage })
