-- ===== src/Updater/Runs.antt =====
-- The goroutines of the updater: the steps of the whole, what holds in every order of them, and
-- where `DownloadUpdate` breaks it.
use cull_snap.Base.{one_if, ◌||◌, ℕ, suc, ◌+◌, Bool, true, false, ◌≡◌, ◌≢◌, refl, arith}
use cull_snap.Paths.{Name}
use cull_snap.Updater.{
  new_updater, is_idle, is_ready, is_error, State, idle, checking, downloading, ready, error,
  Updater, is_checking, is_downloading, can_transition_to, check_begin, check_end, Detected,
  query_failed, nothing_found, up_to_date, newer, check_found, download_begin, download_end,
  download_update, handle_error,
}

-- The updater with the goroutines that are in the query, that have found a newer release, that a call
-- of `DownloadUpdate` has started, and that are in a download.
pub record Sys : Type 0 where
  pub updater : Updater
  pub checks : ℕ
  pub founds : ℕ
  pub pending : ℕ
  pub downloads : ℕ

-- `calm` says that no goroutine of `DownloadUpdate` begins while a check is under way.
pub data Step (calm : Bool) (s : Sys) : Sys → Type 0 where
  -- the background loop or `CheckNow` calls `check`
  check_starts :
      (now : ℕ)
      → Step calm s (record s {
        updater = (check_begin now s.updater).0;
        checks = one_if (check_begin now s.updater).1 + s.checks;
      })
  check_ends :
      (d : Detected) (n : ℕ)
      → s.checks ≡ suc n
      → Step calm s (record s {
        updater = (check_end d s.updater).0;
        checks = n;
        founds = one_if (check_end d s.updater).1 + s.founds;
      })
  goes_on :
      (n : ℕ)
      → s.founds ≡ suc n
      → Step calm s (record s {
        updater = (check_found s.updater).0;
        founds = n;
        downloads = one_if (check_found s.updater).1 + s.downloads;
      })
  -- the user calls `DownloadUpdate`, which starts a goroutine
  user_downloads :
      download_update s.updater ≡ true → Step calm s (record s { pending = suc s.pending })
  -- the first section of that goroutine
  download_starts :
      (n : ℕ)
      → s.pending ≡ suc n
      → (calm ≡ true → s.updater.state ≢ checking)
      → Step calm s (record s {
        updater = (download_begin s.updater).0;
        pending = n;
        downloads = one_if (download_begin s.updater).1 + s.downloads;
      })
  download_ends :
      (done : Bool) (n : ℕ)
      → s.downloads ≡ suc n
      → Step calm s (record s { updater = download_end done s.updater; downloads = n })

pub data Reach (calm : Bool) (s : Sys) : Sys → Type 0 where
  here : Reach calm s s
  next : {t u : Sys} → Reach calm s t → Step calm t u → Reach calm s u

-- The state says what is under way.
pub record Inv (s : Sys) : Type 0 where
  pub checks_match : s.checks + s.founds ≡ one_if (is_checking s.updater.state)
  pub downloads_match : s.downloads ≡ one_if (is_downloading s.updater.state)

abbrev is_same : State → State → Bool
is_same idle t = is_idle t
is_same checking t = is_checking t
is_same downloading t = is_downloading t
is_same ready t = is_ready t
is_same error t = is_error t

-- The state stays, or it is a change that `canTransitionTo` allows.
abbrev pub Allowed : State → State → Type 0
Allowed s t = (is_same s t || can_transition_to s t) ≡ true

Step-Inv : {s t : Sys} → Step true s t → Inv s → Inv t
unfolding handle_error check_begin check_end check_found download_begin download_end
    can_transition_to
Step-Inv (check_starts now) v = ground arith
Step-Inv (check_ends query_failed n e) v = ground arith
Step-Inv (check_ends nothing_found n e) v = ground arith
Step-Inv (check_ends up_to_date n e) v = ground arith
Step-Inv (check_ends (newer r) n e) v = ground arith
Step-Inv (goes_on n e) v = ground arith
Step-Inv (user_downloads d) v = record {
  checks_match = v.checks_match;
  downloads_match = v.downloads_match;
}
Step-Inv (download_starts n e h) v = let q = h refl in ground arith
Step-Inv (download_ends true n e) v = ground arith
Step-Inv (download_ends false n e) v = ground arith

stays : (s : State) → Allowed s s
stays idle = refl
stays checking = refl
stays downloading = refl
stays ready = refl
stays error = refl

Step-Allowed : {s t : Sys} → Step true s t → Inv s → Allowed s.updater.state t.updater.state
unfolding handle_error check_begin check_end check_found download_begin download_end
    can_transition_to
Step-Allowed (check_starts now) v = ground arith
Step-Allowed (check_ends query_failed n e) v = ground arith
Step-Allowed (check_ends nothing_found n e) v = ground arith
Step-Allowed (check_ends up_to_date n e) v = ground arith
Step-Allowed (check_ends (newer r) n e) v = ground arith
Step-Allowed (goes_on n e) v = ground arith
Step-Allowed {s} (user_downloads d) v = stays s.updater.state
Step-Allowed (download_starts n e h) v = ground arith
Step-Allowed (download_ends true n e) v = ground arith
Step-Allowed (download_ends false n e) v = ground arith

Step-ready : {s t : Sys} → Step true s t → Inv s → s.updater.state ≡ ready → t.updater.state ≡ ready
unfolding handle_error check_begin check_end check_found download_begin download_end
    can_transition_to
Step-ready (check_starts now) v r = ground arith
Step-ready (check_ends d n e) v r = ground arith
Step-ready (goes_on n e) v r = ground arith
Step-ready (user_downloads d) v r = r
Step-ready (download_starts n e h) v r = ground arith
Step-ready (download_ends done n e) v r = ground arith

-- The updater as it is created, with nothing under way.
abbrev pub initial : Name → Name → Bool → Sys
initial version mode homebrew = record {
  updater = new_updater version mode homebrew;
  checks = 0;
  founds = 0;
  pending = 0;
  downloads = 0;
}

Reach-Inv :
    (version mode : Name) (homebrew : Bool) {s : Sys}
    → Reach true (initial version mode homebrew) s
    → Inv s
unfolding new_updater
Reach-Inv version mode homebrew here = record { checks_match = omega arith; downloads_match = refl }
Reach-Inv version mode homebrew (next r st) = Step-Inv st (Reach-Inv version mode homebrew r)

-- As long as no goroutine of DownloadUpdate begins while a check is under way: in every order of the
-- goroutines, one check or one download at most is under way, and the state says which; every
-- further step changes the state only as canTransitionTo allows; and a ready updater stays ready.
pub Reach-Follows :
    (version mode : Name) (homebrew : Bool) {s : Sys}
    → Reach true (initial version mode homebrew) s
    → Inv s
      × ((t : Sys) → Step true s t → Allowed s.updater.state t.updater.state)
      × ((t : Sys) → Step true s t → s.updater.state ≡ ready → t.updater.state ≡ ready)
Reach-Follows version mode homebrew r =
    let v = Reach-Inv version mode homebrew r in
    (v, (λ t st. Step-Allowed st v), (λ t st. Step-ready st v))

abbrev with_download : Sys → Sys
with_download s = record s {
  updater = (download_begin s.updater).0;
  downloads = one_if (download_begin s.updater).1 + s.downloads;
}

abbrev with_nothing : ℕ → Sys → Sys
with_nothing n s = record s {
  updater = (check_end nothing_found s.updater).0;
  checks = n;
  founds = one_if (check_end nothing_found s.updater).1 + s.founds;
}

still_known :
    (u : Updater)
    → download_update u ≡ true
    → download_update (check_end nothing_found (download_begin u).0).0 ≡ true
unfolding download_update check_end download_begin
still_known u d = ground arith

started_twice :
    (u : Updater) (k : ℕ)
    → u.state ≡ checking
    → one_if (download_begin (check_end nothing_found (download_begin u).0).0).1
        + (one_if (download_begin u).1 + k)
      ≡ k + 2
unfolding check_end download_begin can_transition_to
started_twice u k c = ground arith

-- If a release is known and the user starts a download while a check is under way, the check may set
-- the state to idle during the download, and a second download of the user then runs beside the
-- first.
pub two_downloads :
    (s : Sys) (n : ℕ)
    → s.updater.state ≡ checking
    → s.checks ≡ suc n
    → download_update s.updater ≡ true
    → (t : Sys) × Reach false s t × (t.downloads ≡ s.downloads + 2)
two_downloads s n c k d = (
  with_download (with_nothing n (with_download s)),
  next
      (next
        (next (next (next here (user_downloads d)) (download_starts s.pending refl (λ q r. cc)))
          (check_ends nothing_found n k))
        (user_downloads (still_known s.updater d)))
      (download_starts s.pending refl (λ q r. cc)),
  started_twice s.updater s.downloads c,
)
