-- ===== src/Tests/Updater.antt =====
-- internal/updater on a version, and with a release that is known.
use cull_snap.Base.{one_if, ◌+◌, [], ◌∷◌, true, false, some, ◌≡◌, refl}
use cull_snap.Paths.{split, Name, same}
use cull_snap.Updater.{checking, ready, download_update, check_begin}
use cull_snap.Updater.Versions.{is_valid_semver, all_parts, digits_to_dash}
use cull_snap.Updater.Runs.{
  Sys, Step, Reach, Inv, Allowed, initial, check_starts, here, next, Reach-Follows, two_downloads,
}

abbrev version : Name
version = b'v' ∷ b'1' ∷ b'.' ∷ b'2' ∷ b'-' ∷ b'r' ∷ []

version-accepted : is_valid_semver version ≡ true
unfolding is_valid_semver all_parts split digits_to_dash same
version-accepted = refl

abbrev created : Sys
created = initial version [] false

abbrev checks_once : Sys
checks_once = record created {
  updater = (check_begin 5 created.updater).0;
  checks = one_if (check_begin 5 created.updater).1 + created.checks;
}

once : Reach true created checks_once
once = next here (check_starts 5)

Reach-Follows_example :
    Inv checks_once
    × ((t : Sys) → Step true checks_once t → Allowed checks_once.updater.state t.updater.state)
    × ((t : Sys)
        → Step true checks_once t
        → checks_once.updater.state ≡ ready
        → t.updater.state ≡ ready)
Reach-Follows_example = Reach-Follows version [] false once

abbrev release_known : Sys
release_known = record {
  updater = record {
    current_version = version;
    mode = [];
    state = checking;
    latest_release = some (b'2' ∷ []);
    is_homebrew = false;
    should_run = true;
    last_check = 5;
  };
  checks = 1;
  founds = 0;
  pending = 0;
  downloads = 0;
}

release-known : download_update release_known.updater ≡ true
unfolding download_update
release-known = refl

two_downloads_example :
    (t : Sys) × Reach false release_known t × (t.downloads ≡ release_known.downloads + 2)
two_downloads_example = two_downloads release_known 0 refl refl release-known
