-- ===== src/Lease/Process.antt =====
-- worker_lease.py: process_identity_probe, process_identity, identity_state, pid_state. Each look
-- at the host is a step: `n` counts them, and a call returns the count behind it.
pub mod Same
use orchestrator_engine.Prelude.{
  ℕ, suc, String, Bool, true, false, not, ◌&&◌, ◌||◌, Option, none, some, if◌then◌else◌,
}
use orchestrator_engine.Json
use orchestrator_engine.Json.{Json, Fields, ℤ}
use orchestrator_engine.Resources.Registry.{truthy}
use orchestrator_engine.Lease.Identity.{at, is_int, identity_source, identity_matches}
use orchestrator_engine.Lease.Stat.{text_stat}

-- sys.platform; `linux` is every platform that is neither of the others.
pub data Platform : Type 0 where
  linux darwin windows : Platform

pub data Liveness : Type 0 where
  alive gone unknown : Liveness

-- Reading a file of /proc: it is not there, it cannot be read, or it has a content.
pub data Read {ℓ} (A : Type ℓ) : Type ℓ where
  missing failed : Read A
  content : A → Read A

-- What a probe of a pid returns: `alive` is its "present".
pub record Probe : Type 0 where
  pub state : Liveness
  pub identity : Option Fields

-- What the operating system answers at each step: the files of /proc, the probes of
-- runtime_macos.py and runtime_windows.py, the monotonic clock beside the time slept, whether a
-- kill raises, and what ending a job object returns (none where it raises).
-- The stat texts are decoded ones: a content that is not UTF-8, for which `read_text` raises, has no
-- value here.
pub record Host : Type 0 where
  pub platform : Platform
  pub supported : Bool
  pub native_probe : ℕ → ℕ → Probe
  pub stat_text : ℕ → ℕ → Read String
  pub boot_id : ℕ → Option String
  pub machine_id : Json
  pub clock : ℕ → ℕ
  pub refuses : ℕ → Bool
  pub end_job : ℕ → Option Bool

unfoldable pub is_windows : Platform → Bool
is_windows Platform.windows = true
is_windows _ = false

unfoldable pub is_darwin : Platform → Bool
is_darwin Platform.darwin = true
is_darwin _ = false

unfoldable pub is_state : Liveness → Liveness → Bool
is_state Liveness.alive Liveness.alive = true
is_state Liveness.gone Liveness.gone = true
is_state Liveness.unknown Liveness.unknown = true
is_state _ _ = false

abbrev pub no_probe : Liveness → Probe
no_probe st = record { state = st; identity = none }

unfoldable pub with_boot : Option String → Fields
with_boot none = Fields.end
with_boot (some id) = Fields.field "boot_id" (Json.str id) Fields.end

unfoldable pub linux_identity : Host → ℕ → ℕ → String × ℤ → Fields
linux_identity h n pid (st, start) = Fields.field "source" identity_source (
    Fields.field "pid" (Json.num (ℤ.pos pid)) (
      Fields.field "start_ticks" (Json.num start)
        (Fields.field "state" (Json.str st) (with_boot (h.boot_id n)))))

unfoldable pub linux_probe : Host → ℕ → ℕ → Read String → Probe
linux_probe h n pid Read.missing = no_probe Liveness.gone
linux_probe h n pid Read.failed = no_probe Liveness.unknown
linux_probe h n pid (Read.content stat) = elim (text_stat stat) [
  | none ↦ no_probe Liveness.unknown
  | some fields ↦ record { state = Liveness.alive; identity = some (linux_identity h n pid fields) }
]

unfoldable pub probe_pid : Host → Platform → ℕ → ℕ → Probe
probe_pid h Platform.linux n pid = linux_probe h n pid (h.stat_text n pid)
probe_pid h _ n pid = h.native_probe n pid

-- process_identity_probe
unfoldable pub process_identity_probe : Host → ℕ → Json → Probe
process_identity_probe h n (Json.num (ℤ.pos (suc pid))) = probe_pid h h.platform n (suc pid)
process_identity_probe h n _ = no_probe Liveness.unknown

unfoldable pub process_identity : Host → ℕ → Json → Option Fields
process_identity h n pid = (process_identity_probe h n pid).identity

-- What identity_state and pid_state return.
pub record Verdict : Type 0 where
  pub state : Liveness
  pub verified : Bool
  pub observed : Option Fields
  pub reason : Option String

abbrev pub unproven : Option String → Verdict
unproven reason = record {
  state = Liveness.unknown;
  verified = false;
  observed = none;
  reason = reason;
}

abbrev pub seen_as : Liveness → Bool → Option Fields → Verdict
seen_as st verified observed = record {
  state = st;
  verified = verified;
  observed = observed;
  reason = none;
}

unfoldable pub is_zombie : Fields → Bool
is_zombie observed = Json.eq (at "state" observed) (Json.str "Z")

-- The identity has a token that can be compared on this platform.
unfoldable pub is_token : Host → Fields → Bool
is_token h recorded =
    is_int (at "pid" recorded)
    && is_int (at "start_ticks" recorded)
    && not (is_darwin h.platform && not (truthy (at "boot_id" recorded)))

unfoldable pub expected_source : Platform → Json
expected_source Platform.linux = identity_source
expected_source Platform.darwin = Json.str "darwin-proc-bsdinfo"
expected_source Platform.windows = Json.str "windows-process-times"

unfoldable pub is_foreign : Host → Fields → Bool
is_foreign h recorded =
    not (Json.eq (Json.get_or "source" identity_source recorded) (expected_source h.platform))
    || is_windows h.platform && not (Json.eq (at "machine_id" recorded) h.machine_id)

-- Where nothing was observed, a second look tells a process that is gone from one that cannot be
-- read.
unfoldable pub unseen : Host → ℕ → Json → Verdict
unseen h n pid =
    if is_state (process_identity_probe h n pid).state Liveness.unknown
    then unproven (some "process_identity_unavailable")
    else seen_as Liveness.gone false none

unfoldable pub compared : Fields → Fields → Verdict
compared recorded observed =
    if not (identity_matches (Json.obj recorded) (Json.obj observed))
    then seen_as Liveness.gone false (some observed)
    else if is_zombie observed
    then seen_as Liveness.gone true (some observed)
    else seen_as Liveness.alive true (some observed)

unfoldable pub judge : Host → ℕ → Fields → Option Fields → Verdict × ℕ
judge h n recorded none = (unseen h (suc n) (at "pid" recorded), suc (suc n))
judge h n recorded (some observed) = (compared recorded observed, suc n)

unfoldable pub identity_state : Host → ℕ → Json → Verdict × ℕ
identity_state h n (Json.obj recorded) =
    if not h.supported || not (is_token h recorded)
    then (unproven none, n)
    else if is_foreign h recorded
    then (unproven (some "foreign_process_identity"), n)
    else judge h n recorded (process_identity h n (at "pid" recorded))
identity_state h n _ = (unproven none, n)

unfoldable pub is_positive : Json → Bool
is_positive (Json.num (ℤ.pos (suc n))) = true
is_positive _ = false

unfoldable pub pid_seen : Host → ℕ → Json → Option Fields → Verdict × ℕ
pid_seen h n pid none = (unseen h (suc n) pid, suc (suc n))
pid_seen h n pid (some observed) = (
  seen_as (if is_zombie observed then Liveness.gone else Liveness.alive) false (some observed),
  suc n,
)

unfoldable pub pid_state : Host → ℕ → Json → Verdict × ℕ
pid_state h n pid =
    if not h.supported || not (is_positive pid)
    then (unproven none, n)
    else pid_seen h n pid (process_identity h n pid)
