-- ===== src/Updater.antt =====
-- internal/updater/updater.go: the state of the updater, and each of its lock-protected sections as a
-- function. The library go-selfupdate answers through `Detected` and a flag; a version is a name, and
-- the comparison of versions is that library's.
pub mod Versions
pub mod Runs
use cull_snap.Base.{
  ℕ, ◌+◌, ◌-◌, Bool, true, false, not, ◌&&◌, ◌||◌, ltb, Option, none, some, if◌then◌else◌,
}
use cull_snap.Paths.{Name, same}
use cull_snap.Updater.Versions.{is_valid_semver, off_mode, auto_mode}

pub data State : Type 0 where
  idle checking downloading ready error : State

-- `Updater`. A time is a number of seconds, and 0 the zero time.
pub record Updater : Type 0 where
  pub current_version : Name
  pub mode : Name
  pub state : State
  pub latest_release : Option Name
  pub is_homebrew : Bool
  pub should_run : Bool
  pub last_check : ℕ

-- `NewUpdater`; the flag says whether the executable lies in a Homebrew directory.
unfoldable pub new_updater : Name → Name → Bool → Updater
new_updater version mode homebrew =
    let runs = is_valid_semver version && not (same mode off_mode) in
    record {
      current_version = version;
      mode = mode;
      state = idle;
      latest_release = none;
      is_homebrew = runs && homebrew;
      should_run = runs;
      last_check = 0;
    }

abbrev pub is_idle : State → Bool
is_idle idle = true
is_idle _ = false

abbrev pub is_checking : State → Bool
is_checking checking = true
is_checking _ = false

abbrev pub is_downloading : State → Bool
is_downloading downloading = true
is_downloading _ = false

abbrev pub is_ready : State → Bool
is_ready ready = true
is_ready _ = false

abbrev pub is_error : State → Bool
is_error error = true
is_error _ = false

-- `canTransitionTo`, from the first state to the second.
unfoldable pub can_transition_to : State → State → Bool
can_transition_to idle target = is_checking target || is_downloading target
can_transition_to checking target = is_idle target || is_downloading target || is_error target
can_transition_to downloading target = is_ready target || is_error target
can_transition_to ready target = is_idle target
can_transition_to error target = is_idle target || is_checking target

-- The first section of `check`; the flag says that the check goes on.
unfoldable pub check_begin : ℕ → Updater → Updater × Bool
unfolding can_transition_to
check_begin now u =
    if can_transition_to u.state checking
    then (record u { state = checking; last_check = now }, true)
    else (u, false)

-- What the query for the latest release gives.
pub data Detected : Type 0 where
  query_failed nothing_found up_to_date : Detected
  newer : Name → Detected

unfoldable pub handle_error : Updater → Updater
handle_error u = record u { state = error }

-- `check` after the query, up to the section that stores a newer release; the flag says that there
-- is one.
unfoldable pub check_end : Detected → Updater → Updater × Bool
unfolding handle_error
check_end query_failed u = (handle_error u, false)
check_end nothing_found u = (record u { state = idle }, false)
check_end up_to_date u = (record u { state = idle }, false)
check_end (newer r) u = (record u { latest_release = some r }, true)

-- The first section of `download`; the flag says that the download goes on.
unfoldable pub download_begin : Updater → Updater × Bool
unfolding can_transition_to
download_begin u =
    if can_transition_to u.state downloading
    then (record u { state = downloading }, true)
    else (u, false)

-- `check` after a newer release is stored: it downloads it, or is done.
unfoldable pub check_found : Updater → Updater × Bool
unfolding download_begin
check_found u =
    if same u.mode auto_mode && not u.is_homebrew
    then download_begin u
    else (record u { state = idle }, false)

-- `download` after the binary is replaced, or an error.
unfoldable pub download_end : Bool → Updater → Updater
unfolding handle_error
download_end true u = record u { state = ready }
download_end false u = handle_error u

-- Whether `CheckNow` starts a check.
unfoldable pub check_now : ℕ → Updater → Bool
check_now now u = u.should_run && not (ltb (now - u.last_check) 60)

-- Whether `DownloadUpdate` starts a download.
unfoldable pub download_update : Updater → Bool
download_update u = not u.is_homebrew && (elim u.latest_release [ none ↦ false | some r ↦ true ])
