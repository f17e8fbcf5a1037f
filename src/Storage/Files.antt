-- ===== src/Storage/Files.antt =====
-- internal/storage/sqlite.go and config.go: the tables of selections, exports, ratings and
-- configuration. A rating that is not positive is written as 0. Times that nothing reads are left out.
use cull_snap.Base.{
  zero, suc, ℕ, List, [], ◌∷◌, ◌++◌, Bool, true, false, Option, none, some, if◌then◌else◌,
}
use cull_snap.Paths.{Name, same}
use cull_snap.Storage.Tables.{get, put, remove_key}
use cull_snap.Storage.Like.{like}

pub record Selection : Type 0 where
  pub path : Name
  pub session_id : Name

pub record Rating : Type 0 where
  pub path : Name
  pub rating : ℕ

pub record Setting : Type 0 where
  pub key : Name
  pub value : Name

abbrev pub selection_key : Selection → Name
selection_key s = s.path

abbrev pub rating_key : Rating → Name
rating_key r = r.path

abbrev pub setting_key : Setting → Name
setting_key s = s.key

abbrev pub export_key : Name → Name
export_key p = p

pub record Files : Type 0 where
  pub selections : List Selection
  pub exported : List Name
  pub ratings : List Rating
  pub app_config : List Setting

unfoldable pub save_selection : Name → Name → Bool → Files → Files
save_selection p session true f = record f {
  selections = put selection_key (record { path = p; session_id = session }) f.selections;
}
save_selection p session false f = record f { selections = remove_key selection_key p f.selections }

unfoldable pub mark_exported : Name → Files → Files
mark_exported p f = record f { exported = put export_key p f.exported }

unfoldable pub save_rating : Name → ℕ → Files → Files
save_rating p zero f = record f { ratings = remove_key rating_key p f.ratings }
save_rating p (suc r) f = record f {
  ratings = put rating_key (record { path = p; rating = suc r }) f.ratings;
}

unfoldable pub set_config : Name → Name → Files → Files
set_config k v f = record f {
  app_config = put setting_key (record { key = k; value = v }) f.app_config;
}

unfoldable pub delete_all_config : Files → Files
delete_all_config f = record f { app_config = [] }

-- `GetSelections`: the paths of a session.
unfoldable pub get_selections : Name → List Selection → List Name
get_selections session [] = []
get_selections session (s ∷ ss) =
    let rest = get_selections session ss in
    if same s.session_id session then s.path ∷ rest else rest

abbrev pub value_or_empty : Option Setting → Name
value_or_empty none = []
value_or_empty (some s) = s.value

unfoldable pub get_config : Name → Files → Name
get_config k f = value_or_empty (get setting_key k f.app_config)

abbrev pub in_directory : Name → Name
in_directory dir = dir ++ (b'/' ∷ b'%' ∷ [])

unfoldable pub get_exported_in_directory : Name → List Name → List Name
get_exported_in_directory dir [] = []
get_exported_in_directory dir (p ∷ ps) =
    let rest = get_exported_in_directory dir ps in
    if like (in_directory dir) p then p ∷ rest else rest

unfoldable pub get_ratings_in_directory : Name → List Rating → List Rating
get_ratings_in_directory dir [] = []
get_ratings_in_directory dir (r ∷ rs) =
    let rest = get_ratings_in_directory dir rs in
    if like (in_directory dir) r.path then r ∷ rest else rest

-- A call that changes the tables.
pub data Call : Type 0 where
  select : Name → Name → Bool → Call
  export : Name → Call
  rate : Name → ℕ → Call
  configure : Name → Name → Call
  reset : Call

unfoldable pub run : Call → Files → Files
run (select p s b) f = save_selection p s b f
run (export p) f = mark_exported p f
run (rate p r) f = save_rating p r f
run (configure k v) f = set_config k v f
run reset f = delete_all_config f
