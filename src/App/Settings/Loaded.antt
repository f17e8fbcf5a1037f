-- ===== src/App/Settings/Loaded.antt =====
-- What the settings are after they are read.
use cull_snap.Base.{
  ◌++◌, ◌/◌, ◌%◌, ◌+◌, ℕ, ◌≤◌, List, [], ◌∷◌, Bool, true, false, ltb, if◌then◌else◌, ◌≡◌, refl, ap,
  ◌∙◌, arith, some, if_elim, le→ltb, lt→ltb,
}
use cull_snap.Paths.{Name, same}
use cull_snap.Paths.Digits.{itoa, atoi-itoa, digits}
use cull_snap.Storage.Tables.{get, get-put}
use cull_snap.Storage.Files.{Files, setting_key, value_or_empty, get_config, set_config}
use cull_snap.App.Settings.{
  AppConfig, Machine, at_least, at_most, or_default, derive_defaults, persist_config, stored_config,
  load_or_init_config, key_max_connections, set_all, entries, bool_text, thumbs_in, text_notify,
  text_false, text_true, text_local, key_auto_update, key_thumbnail_workers, key_scanner_workers,
  key_server_idle_timeout_sec, key_use_native_sips, key_cache_dir, key_max_cloud_cache_mb,
  key_ai_scoring_enabled, key_ai_provider,
}

pub get_config-set_config :
    (j k v : Name) (f : Files)
    → get_config j (set_config k v f) ≡ (if same k j then v else get_config j f)
unfolding get_config set_config
get_config-set_config j k v f =
    ap value_or_empty (get-put setting_key j (record { key = k; value = v }) f.app_config)
    ∙ by_test (same k j)
  where
    by_test :
        (c : Bool)
        → value_or_empty
            (if c then some (record { key = k; value = v }) else get setting_key j f.app_config)
          ≡ (if c then v else value_or_empty (get setting_key j f.app_config))
    by_test true = refl
    by_test false = refl

-- What a key has after the calls.
abbrev last_value : Name → List (Name × Name) → Name → Name
last_value j [] d = d
last_value j (e ∷ es) d = last_value j es (if same e.0 j then e.1 else d)

get_config-set_all :
    (j : Name) (es : List (Name × Name)) (f : Files)
    → get_config j (set_all es f) ≡ last_value j es (get_config j f)
unfolding set_all
get_config-set_all j [] f = refl
get_config-set_all j (e ∷ es) f =
    get_config-set_all j es (set_config e.0 e.1 f)
    ∙ ap (last_value j es) (get_config-set_config j e.0 e.1 f)

-- The settings are in range.
pub record IsValid (m : Machine) (c : AppConfig) : Type 0 where
  pub connections : 10 ≤ c.max_connections
  pub thumbnails : 2 ≤ c.thumbnail_workers
  pub few_thumbnails : c.thumbnail_workers ≤ at_least 2 m.num_cpu
  pub scanners : 1 ≤ c.scanner_workers
  pub timeout : 1 ≤ c.server_idle_timeout_sec
  pub cloud_cache : 1 ≤ c.max_cloud_cache_mb
  pub update : same c.auto_update [] ≡ false
  pub sips : c.use_native_sips ≡ true → m.is_darwin ≡ true

append-not_empty : (s : Name) (c : ℕ) → same (s ++ c ∷ []) [] ≡ false
unfolding same
append-not_empty [] c = refl
append-not_empty (x ∷ xs) c = refl

itoa-not_empty : (n : ℕ) → same (itoa n) [] ≡ false
unfolding itoa digits
itoa-not_empty n =
    if_elim {A = Name} (λ s. same s [] ≡ false) (ltb n 10) (λ e. unfold same in refl)
      (λ e. append-not_empty (digits n (n / 10)) (b'0' + n % 10))

sips_text :
    (b d : Bool) → (b ≡ true → d ≡ true) → (if same (bool_text b) text_false then false else d) ≡ b
unfolding same
sips_text true d h = h refl
sips_text false d h = refl

enabled_text : (b : Bool) → same (bool_text b) text_true ≡ b
unfolding same
enabled_text true = refl
enabled_text false = refl

at_least_id : (low n : ℕ) → low ≤ n → at_least low n ≡ n
at_least_id low n l = ground arith

at_most_id : (high n : ℕ) → n ≤ high → at_most high n ≡ n
at_most_id high n l = ground arith

module _ (m : Machine) (c : AppConfig) (f : Files) where
  persisted :
      (j : Name) → get_config j (persist_config m c f) ≡ last_value j (entries m c) (get_config j f)
  unfolding persist_config
  persisted j = get_config-set_all j (entries m c) f

  -- Valid settings are read as they were written; an empty provider or directory of the cache is
  -- replaced, and the probe is made again.
  pub load_or_init_config-persist_config :
      IsValid m c
      → load_or_init_config m (persist_config m c f) ≡ (
        record c {
          cache_dir = or_default (thumbs_in m.user_cache_dir) c.cache_dir;
          ai_provider = or_default text_local c.ai_provider;
          probe = m.probe;
        },
        persist_config m c f,
      )
  unfolding load_or_init_config stored_config same
  load_or_init_config-persist_config v =
      let timeout : ltb c.server_idle_timeout_sec 1 ≡ false =
        le→ltb c.server_idle_timeout_sec 1 v.timeout in
      let cloud_cache : ltb 0 c.max_cloud_cache_mb ≡ true =
        lt→ltb 0 c.max_cloud_cache_mb v.cloud_cache in
      rw
        (
          persisted key_max_connections,
          itoa-not_empty c.max_connections,
          persisted key_thumbnail_workers,
          persisted key_scanner_workers,
          persisted key_server_idle_timeout_sec,
          persisted key_cache_dir,
          persisted key_auto_update,
          persisted key_use_native_sips,
          persisted key_max_cloud_cache_mb,
          persisted key_ai_scoring_enabled,
          persisted key_ai_provider,
          atoi-itoa c.max_connections,
          atoi-itoa c.thumbnail_workers,
          atoi-itoa c.scanner_workers,
          atoi-itoa c.server_idle_timeout_sec,
          atoi-itoa c.max_cloud_cache_mb,
          at_least_id 10 c.max_connections v.connections,
          at_least_id 2 c.thumbnail_workers v.thumbnails,
          at_most_id (at_least 2 m.num_cpu) c.thumbnail_workers v.few_thumbnails,
          at_least_id 1 c.scanner_workers v.scanners,
          timeout,
          cloud_cache,
          sips_text c.use_native_sips m.is_darwin v.sips,
          enabled_text c.ai_scoring_enabled,
          v.update,
        )
        refl

or_default-not_empty : (d s : Name) → same d [] ≡ false → same (or_default d s) [] ≡ false
or_default-not_empty d s h =
    if_elim {A = Name} (λ z. same z [] ≡ false) (same s []) (λ e. h) (λ e. e)

-- Whatever the table of settings holds, on a machine whose probe counts its processors the settings
-- that are loaded are in range.
pub load_or_init_config-IsValid :
    (m : Machine) (f : Files) → m.probe.cpus ≡ m.num_cpu → IsValid m (load_or_init_config m f).0
unfolding load_or_init_config
load_or_init_config-IsValid m f h =
    if_elim {A = AppConfig × Files} (λ r. IsValid m r.0)
      (same (get_config key_max_connections f) []) (λ e. defaults) (λ e. stored)
  where
    defaults : IsValid m (derive_defaults m m.probe)
    defaults =
        unfold derive_defaults in
        record {
          connections = ground arith;
          thumbnails = ground arith;
          few_thumbnails = ground (arith, h);
          scanners = ground arith;
          timeout = ground arith;
          cloud_cache = omega arith;
          update = unfold same in refl;
          sips = λ e. e;
        }

    only : (b : Bool) → (if b then false else m.is_darwin) ≡ true → m.is_darwin ≡ true
    only true e = cc
    only false e = e

    stored : IsValid m (stored_config m f)
    stored =
        unfold stored_config in
        record {
          connections = ground arith;
          thumbnails = ground arith;
          few_thumbnails = ground arith;
          scanners = ground arith;
          timeout = ground arith;
          cloud_cache = ground arith;
          update =
              or_default-not_empty text_notify (get_config key_auto_update f) (unfold same in refl);
          sips = only (same (get_config key_use_native_sips f) text_false);
        }
