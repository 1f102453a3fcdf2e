-- ===== src/Prelude/Text.antt =====
-- `std::string` operations on native texts. Positions count bytes.
pub mod Laws
use Prim.Native.Char.{Char, code}
use Prim.Native.Nat.{ℕ, zero, suc, ◌+◌, ◌/◌, ◌%◌}
use mathlib.Core.List.{List, [], ◌∷◌, ◌++◌}
use Prim.Native.String.{String, slice, len}
use mathlib.Core.Option.{Option, none, some}
use mathlib.Core.Option
use mathlib.Core.Bool.{Bool, true, false}
use text.Mathlib.Text.{find?, ◌==◌}
use text.Mathlib.TextEquality.{eq_iff}
use profile_service_cpp.Prelude.Dict.{Eq}
use profile_service_cpp.Prelude.Tests.{ltb, nat_eq, if◌then◌else◌}

-- `s.substr(k)`, for a `k` within the text
unfoldable pub substr : String → ℕ → String
substr s k = slice s k (len s)

-- `s.find(t) == 0`
unfoldable pub found_at_start : String → String → Bool
found_at_start s t = elim (find? s t) [
  | none ↦ false
  | some k ↦ elim k [ zero ↦ true | suc j ↦ false ]
]

-- `s.find(t, k) != npos`, for a `k` within the text
unfoldable pub found_from : String → String → ℕ → Bool
unfolding substr
found_from s t k = elim (find? (substr s k) t) [ none ↦ false | some j ↦ true ]

instance abbrev pub string_eq : Eq String
string_eq = record { beq = ◌==◌; beq_iff = eq_iff }

-- The bytes of a text, in UTF-8.
abbrev continuation : ℕ → ℕ
continuation n = 128 + n % 64

abbrev utf8 : ℕ → List ℕ
utf8 n =
    if ltb n 128
    then n ∷ []
    else if ltb n 2048
    then (192 + n / 64) ∷ continuation n ∷ []
    else if ltb n 65536
    then (224 + n / 4096) ∷ continuation (n / 64) ∷ continuation n ∷ []
    else (240 + n / 262144) ∷ continuation (n / 4096) ∷ continuation (n / 64) ∷ continuation n ∷ []

abbrev pub bytes_of : String → List ℕ
bytes_of String.[] = []
bytes_of (String.◌∷◌ c s) = utf8 (code c) ++ bytes_of s

-- `s.substr(0, p)` for the position `p = s.find(':')`; `none` where there is no colon
unfoldable pub before_colon : String → Option String
before_colon String.[] = none
before_colon (String.◌∷◌ c s) =
    let rest = Option.map (λ t. String.◌∷◌ c t) (before_colon s) in
    if nat_eq (code c) b':' then some String.[] else rest
