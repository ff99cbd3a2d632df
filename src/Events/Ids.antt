-- ===== src/Events/Ids.antt =====
-- core.py: validate_event_id and is_supported_schema_version.
use Prim.Native.Char.{Char, code}
use orchestrator_engine.Prelude.{
  ℕ, String, Bool, false, ◌&&◌, ◌||◌, List, [], ◌∷◌, eqb, leb, length, all, if◌then◌else◌,
}
use orchestrator_engine.Json.{Json, ℤ}
use orchestrator_engine.Lease.Stat.{chars, is_digit}
use orchestrator_engine.Result.{Result, ok, err, bad_event_id}

-- [A-Za-z0-9]
unfoldable pub is_alphanumeric : ℕ → Bool
is_alphanumeric c = is_digit c || leb b'A' c && leb c b'Z' || leb b'a' c && leb c b'z'

-- [A-Za-z0-9_.-]
unfoldable pub is_id_mark : ℕ → Bool
is_id_mark c = is_alphanumeric c || eqb c b'_' || eqb c b'.' || eqb c b'-'

-- EVENT_ID_PATTERN
unfoldable pub is_event_id : List Char → Bool
is_event_id [] = false
is_event_id (c ∷ cs) =
    is_alphanumeric (code c) && all (λ x. is_id_mark (code x)) cs && leb (length cs) 127

unfoldable pub validate_event_id : Json → Result String
validate_event_id (Json.str s) = if is_event_id (chars s) then ok s else err bad_event_id
validate_event_id _ = err bad_event_id

abbrev pub schema_version : Json
schema_version = Json.num (ℤ.pos 1)

-- type(value) is int and value in SUPPORTED_SCHEMA_VERSIONS
abbrev pub is_supported_schema_version : Json → Bool
is_supported_schema_version (Json.num (ℤ.pos n)) = eqb n 1
is_supported_schema_version _ = false
