-- ===== src/App/Settings.antt =====
-- internal/app/config.go and app.go: the defaults of the settings, and how they are written to the
-- table of settings and read from it. A setting that is negative counts as 0, as every test of the code
-- treats both alike. What the machine and its directories are is an argument; writing does not fail.
pub mod Loaded
use cull_snap.Base.{ℕ, ◌+◌, ◌*◌, ◌/◌, List, [], ◌∷◌, Bool, true, false, ltb, if◌then◌else◌}
use cull_snap.Paths.{Name, same}
use cull_snap.Paths.Clean.{join}
use cull_snap.Paths.Digits.{itoa, atoi}
use cull_snap.Storage.Files.{Files, get_config, set_config, delete_all_config}

pub record SystemProbe : Type 0 where
  pub os : Name
  pub arch : Name
  pub cpus : ℕ
  pub ram_mb : ℕ
  pub fd_soft_limit : ℕ
  pub ffmpeg_ready : Bool
  pub storage_hint : Name

pub record AppConfig : Type 0 where
  pub max_connections : ℕ
  pub thumbnail_workers : ℕ
  pub scanner_workers : ℕ
  pub server_idle_timeout_sec : ℕ
  pub cache_dir : Name
  pub auto_update : Name
  pub use_native_sips : Bool
  pub max_cloud_cache_mb : ℕ
  pub ai_scoring_enabled : Bool
  pub ai_provider : Name
  pub probe : SystemProbe

-- The machine: whether `runtime.GOOS` is darwin, the result of `RunSystemProbe`, `os.UserCacheDir` and
-- `os.UserHomeDir` (empty on an error), and `json.Marshal` of a probe.
pub record Machine : Type 0 where
  pub is_darwin : Bool
  pub num_cpu : ℕ
  pub probe : SystemProbe
  pub user_cache_dir : Name
  pub user_home_dir : Name
  pub marshal : SystemProbe → Name

abbrev pub key_max_connections : Name
key_max_connections =
    b'm' ∷ b'a' ∷ b'x' ∷ b'C' ∷ b'o' ∷ b'n' ∷ b'n' ∷ b'e' ∷ b'c' ∷ b't' ∷ b'i' ∷ b'o' ∷ b'n' ∷ b's'
    ∷ []

abbrev pub key_thumbnail_workers : Name
key_thumbnail_workers =
    b't' ∷ b'h' ∷ b'u' ∷ b'm' ∷ b'b' ∷ b'n' ∷ b'a' ∷ b'i' ∷ b'l' ∷ b'W' ∷ b'o' ∷ b'r' ∷ b'k' ∷ b'e'
    ∷ b'r' ∷ b's' ∷ []

abbrev pub key_scanner_workers : Name
key_scanner_workers =
    b's' ∷ b'c' ∷ b'a' ∷ b'n' ∷ b'n' ∷ b'e' ∷ b'r' ∷ b'W' ∷ b'o' ∷ b'r' ∷ b'k' ∷ b'e' ∷ b'r' ∷ b's'
    ∷ []

abbrev pub key_server_idle_timeout_sec : Name
key_server_idle_timeout_sec =
    b's' ∷ b'e' ∷ b'r' ∷ b'v' ∷ b'e' ∷ b'r' ∷ b'I' ∷ b'd' ∷ b'l' ∷ b'e' ∷ b'T' ∷ b'i' ∷ b'm' ∷ b'e'
    ∷ b'o' ∷ b'u' ∷ b't' ∷ b'S' ∷ b'e' ∷ b'c' ∷ []

abbrev pub key_cache_dir : Name
key_cache_dir = b'c' ∷ b'a' ∷ b'c' ∷ b'h' ∷ b'e' ∷ b'D' ∷ b'i' ∷ b'r' ∷ []

abbrev pub key_auto_update : Name
key_auto_update = b'a' ∷ b'u' ∷ b't' ∷ b'o' ∷ b'U' ∷ b'p' ∷ b'd' ∷ b'a' ∷ b't' ∷ b'e' ∷ []

abbrev pub key_use_native_sips : Name
key_use_native_sips =
    b'u' ∷ b's' ∷ b'e' ∷ b'N' ∷ b'a' ∷ b't' ∷ b'i' ∷ b'v' ∷ b'e' ∷ b'S' ∷ b'i' ∷ b'p' ∷ b's' ∷ []

abbrev pub key_max_cloud_cache_mb : Name
key_max_cloud_cache_mb =
    b'm' ∷ b'a' ∷ b'x' ∷ b'C' ∷ b'l' ∷ b'o' ∷ b'u' ∷ b'd' ∷ b'C' ∷ b'a' ∷ b'c' ∷ b'h' ∷ b'e' ∷ b'M'
    ∷ b'B' ∷ []

abbrev pub key_ai_scoring_enabled : Name
key_ai_scoring_enabled =
    b'a' ∷ b'i' ∷ b'_' ∷ b's' ∷ b'c' ∷ b'o' ∷ b'r' ∷ b'i' ∷ b'n' ∷ b'g' ∷ b'_' ∷ b'e' ∷ b'n' ∷ b'a'
    ∷ b'b' ∷ b'l' ∷ b'e' ∷ b'd' ∷ []

abbrev pub key_ai_provider : Name
key_ai_provider = b'a' ∷ b'i' ∷ b'_' ∷ b'p' ∷ b'r' ∷ b'o' ∷ b'v' ∷ b'i' ∷ b'd' ∷ b'e' ∷ b'r' ∷ []

abbrev pub key_probe : Name
key_probe = b'p' ∷ b'r' ∷ b'o' ∷ b'b' ∷ b'e' ∷ []

abbrev pub text_true : Name
text_true = b't' ∷ b'r' ∷ b'u' ∷ b'e' ∷ []

abbrev pub text_false : Name
text_false = b'f' ∷ b'a' ∷ b'l' ∷ b's' ∷ b'e' ∷ []

abbrev pub text_notify : Name
text_notify = b'n' ∷ b'o' ∷ b't' ∷ b'i' ∷ b'f' ∷ b'y' ∷ []

abbrev pub text_local : Name
text_local = b'l' ∷ b'o' ∷ b'c' ∷ b'a' ∷ b'l' ∷ []

abbrev pub text_windows : Name
text_windows = b'w' ∷ b'i' ∷ b'n' ∷ b'd' ∷ b'o' ∷ b'w' ∷ b's' ∷ []

abbrev pub text_cull_snap : Name
text_cull_snap = b'C' ∷ b'u' ∷ b'l' ∷ b'l' ∷ b'S' ∷ b'n' ∷ b'a' ∷ b'p' ∷ []

abbrev pub text_thumbs : Name
text_thumbs = b't' ∷ b'h' ∷ b'u' ∷ b'm' ∷ b'b' ∷ b's' ∷ []

-- `fmt.Sprintf("%t", b)`
abbrev pub bool_text : Bool → Name
bool_text true = text_true
bool_text false = text_false

abbrev pub at_least : ℕ → ℕ → ℕ
at_least low n = if ltb n low then low else n

abbrev pub at_most : ℕ → ℕ → ℕ
at_most high n = if ltb high n then high else n

abbrev pub or_default : Name → Name → Name
or_default d s = if same s [] then d else s

-- `filepath.Join(cacheBase, "CullSnap", "thumbs")`
abbrev pub thumbs_in : Name → Name
thumbs_in cache_base = join (join cache_base text_cull_snap) text_thumbs

unfoldable pub derive_defaults : Machine → SystemProbe → AppConfig
unfolding join
derive_defaults m probe = record {
  max_connections = at_least 10 (
      at_most 50 (
        if ltb 0 probe.fd_soft_limit
        then at_most (probe.fd_soft_limit / 4) (probe.cpus * 4)
        else probe.cpus * 4));
  thumbnail_workers = at_most 8 (at_least 2 probe.cpus);
  scanner_workers = at_most 4 (at_least 1 (probe.cpus / 2));
  server_idle_timeout_sec = if same probe.os text_windows then 60 else 30;
  cache_dir = thumbs_in (or_default m.user_home_dir m.user_cache_dir);
  auto_update = text_notify;
  use_native_sips = m.is_darwin;
  max_cloud_cache_mb = 10240;
  ai_scoring_enabled = false;
  ai_provider = [];
  probe = probe;
}

-- The calls of `SetConfig`, in their order.
unfoldable pub set_all : List (Name × Name) → Files → Files
set_all [] f = f
set_all (e ∷ es) f = set_all es (set_config e.0 e.1 f)

abbrev pub entries : Machine → AppConfig → List (Name × Name)
entries m c =
    (key_max_connections, itoa c.max_connections)
    ∷ (key_thumbnail_workers, itoa c.thumbnail_workers)
    ∷ (key_scanner_workers, itoa c.scanner_workers)
    ∷ (key_server_idle_timeout_sec, itoa c.server_idle_timeout_sec)
    ∷ (key_cache_dir, c.cache_dir)
    ∷ (key_auto_update, c.auto_update)
    ∷ (key_use_native_sips, bool_text c.use_native_sips)
    ∷ (key_max_cloud_cache_mb, itoa c.max_cloud_cache_mb)
    ∷ (key_ai_scoring_enabled, bool_text c.ai_scoring_enabled)
    ∷ (key_ai_provider, c.ai_provider)
    ∷ (key_probe, m.marshal c.probe)
    ∷ []

unfoldable pub persist_config : Machine → AppConfig → Files → Files
unfolding set_all
persist_config m c f = set_all (entries m c) f

-- The settings of a table that has them.
unfoldable pub stored_config : Machine → Files → AppConfig
unfolding join
stored_config m f = record {
  max_connections = at_least 10 (atoi (get_config key_max_connections f));
  thumbnail_workers =
      at_most (at_least 2 m.num_cpu) (at_least 2 (atoi (get_config key_thumbnail_workers f)));
  scanner_workers = at_least 1 (atoi (get_config key_scanner_workers f));
  server_idle_timeout_sec =
      let n = atoi (get_config key_server_idle_timeout_sec f) in if ltb n 1 then 30 else n;
  cache_dir = or_default (thumbs_in m.user_cache_dir) (get_config key_cache_dir f);
  auto_update = or_default text_notify (get_config key_auto_update f);
  use_native_sips =
      if same (get_config key_use_native_sips f) text_false then false else m.is_darwin;
  max_cloud_cache_mb =
      let n = atoi (get_config key_max_cloud_cache_mb f) in if ltb 0 n then n else 10240;
  ai_scoring_enabled = same (get_config key_ai_scoring_enabled f) text_true;
  ai_provider = or_default text_local (get_config key_ai_provider f);
  probe = m.probe;
}

-- The settings, and the table that they are read from or written to.
unfoldable pub load_or_init_config : Machine → Files → AppConfig × Files
unfolding derive_defaults persist_config stored_config
load_or_init_config m f =
    let c = derive_defaults m m.probe in
    if same (get_config key_max_connections f) []
    then (c, persist_config m c f)
    else (stored_config m f, f)

-- `ResetAppConfig`, without an error.
unfoldable pub reset_app_config : Machine → Files → AppConfig × Files
unfolding derive_defaults persist_config
reset_app_config m f =
    let c = derive_defaults m m.probe in (c, persist_config m c (delete_all_config f))

-- The fields of `App` that `SaveAppConfig` sets: the settings, the limit of the cloud cache, and the
-- flag of AI scoring.
pub record Live : Type 0 where
  pub cfg : AppConfig
  pub max_cache_mb : ℕ
  pub ai_enabled : Bool

unfoldable pub save_app_config : Machine → AppConfig → Live → Files → Live × Files
unfolding persist_config
save_app_config m c l f =
    let kept = record c { probe = l.cfg.probe } in
    (
      record { cfg = kept; max_cache_mb = c.max_cloud_cache_mb; ai_enabled = c.ai_scoring_enabled },
      persist_config m kept f,
    )
