-- ===== src/Lease/Identity.antt =====
-- worker_lease.py: `identity_matches`, whether an observed process is the one that was recorded.
use orchestrator_engine.Prelude.{String, Bool, true, false, not, ◌&&◌, ◌||◌, if◌then◌else◌}
use orchestrator_engine.Json
use orchestrator_engine.Json.{Json, Fields}
use orchestrator_engine.Resources.Registry.{truthy}

-- value.get(key), where a key that is not there is a None
abbrev pub at : String → Fields → Json
at k fs = Json.get_or k Json.null fs

abbrev pub is_null : Json → Bool
is_null Json.null = true
is_null _ = false

-- isinstance(value, int) and not isinstance(value, bool)
abbrev pub is_int : Json → Bool
is_int (Json.num n) = true
is_int _ = false

abbrev pub identity_source : Json
identity_source = Json.str "linux-proc-stat"

-- A record without a source is an old one of the Linux backend.
unfoldable pub same_source : Fields → Fields → Bool
same_source recorded observed =
    Json.eq (at "source" recorded) (at "source" observed)
    || is_null (at "source" recorded) && Json.eq (at "source" observed) identity_source

unfoldable pub same_number : String → Fields → Fields → Bool
same_number key recorded observed =
    is_int (at key recorded) && Json.eq (at key recorded) (at key observed)

unfoldable pub same_boot : Fields → Fields → Bool
same_boot recorded observed =
    let old = at "boot_id" recorded in
    let new = at "boot_id" observed in
    if Json.eq (at "source" observed) (Json.str "darwin-proc-bsdinfo") && not (truthy old)
    then false
    else if not (is_null old) && not (is_null new)
    then Json.eq old new
    else true

unfoldable pub identity_matches : Json → Json → Bool
identity_matches (Json.obj recorded) (Json.obj observed) =
    same_source recorded observed
    && same_number "pid" recorded observed
    && same_number "start_ticks" recorded observed
    && Json.eq (at "machine_id" recorded) (at "machine_id" observed)
    && same_boot recorded observed
identity_matches _ _ = false
