-- ===== src/Database/Value.antt =====
-- `DBValue` of db_interface.hpp, and `PostgresTransaction::ConvertValueToPQXX` of
-- src/repository/postgres_connection.cpp.
use profile_service_cpp.Prelude.{ℕ, ◌/◌, ◌%◌, String, ◌<>◌, Bool, List, [], ◌∷◌}
use profile_service_cpp.Prelude.{get_elem?, value_or, if◌then◌else◌}
use profile_service_cpp.Platform.{Platform}

pub data DbValue (P : Platform) : Type 0 where
  null_value : DbValue P
  bool_value : Bool → DbValue P
  int64_value : P.Int64 → DbValue P
  double_value : P.Double → DbValue P
  string_value : String → DbValue P
  blob_value : List ℕ → DbValue P

abbrev hex_digits : List String
hex_digits =
    "0" ∷ "1" ∷ "2" ∷ "3" ∷ "4" ∷ "5" ∷ "6" ∷ "7" ∷ "8" ∷ "9" ∷ "a" ∷ "b" ∷ "c" ∷ "d" ∷ "e" ∷ "f"
    ∷ []

-- `snprintf(hex, sizeof(hex), "%02x", byte)`
unfoldable pub hex_byte : ℕ → String
hex_byte byte =
    value_or (get_elem? hex_digits (byte / 16)) "" <> value_or (get_elem? hex_digits (byte % 16)) ""

-- the loop over the bytes of a `bytea`, with the text so far
unfoldable pub hex_from : String → List ℕ → String
unfolding hex_byte
hex_from result [] = result
hex_from result (byte ∷ bytes) = hex_from (result <> hex_byte byte) bytes

module _ (P : Platform) where
  -- Every parameter goes to the server as text; a null goes as the empty text.
  unfoldable pub convert_value : DbValue P → String
  unfolding hex_from
  convert_value null_value = ""
  convert_value (bool_value b) = if b then "true" else "false"
  convert_value (int64_value n) = P.int64_to_string n
  convert_value (double_value d) = P.double_to_string d
  convert_value (string_value s) = s
  convert_value (blob_value bytes) = hex_from "" bytes
