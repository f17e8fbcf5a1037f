-- ===== src/Storage/Refines.antt =====
-- The tables of `Storage.Files` implement maps from paths and keys.
use mathlib.Core.Path.{fun_ext}
use cull_snap.Base.{
  ap-if, ℕ, zero, suc, List, [], ◌∷◌, Bool, true, false, Option, none, some, if◌then◌else◌, ◌≡◌,
  refl, ap, ◌∙◌,
}
use cull_snap.Paths.{Name, same}
use cull_snap.Storage.Tables.{get, put, remove_key, get-put, get-remove_key}
use cull_snap.Storage.Files.{
  Files, Selection, Rating, selection_key, rating_key, setting_key, export_key, save_selection,
  mark_exported, save_rating, set_config, delete_all_config, get_config, Call, select, export, rate,
  configure, reset, run, value_or_empty,
}

-- What the store promises: the session that a path is selected in, the exported paths, the rating of
-- a path, 0 if it has none, and the value of a key, empty if it has none.
pub record View : Type 0 where
  pub selected_in : Name → Option Name
  pub is_exported : Name → Bool
  pub rating_of : Name → ℕ
  pub config : Name → Name

-- A map with one entry changed.
abbrev pub changed : {A : Type 0} → Name → A → (Name → A) → Name → A
changed k v f j = if same k j then v else f j

unfoldable pub act : Call → View → View
act (select p s true) v = record v { selected_in = changed p (some s) v.selected_in }
act (select p s false) v = record v { selected_in = changed p none v.selected_in }
act (export p) v = record v { is_exported = changed p true v.is_exported }
act (rate p r) v = record v { rating_of = changed p r v.rating_of }
act (configure k c) v = record v { config = changed k c v.config }
act reset v = record v { config = λ k. [] }

abbrev session_or_none : Option Selection → Option Name
session_or_none none = none
session_or_none (some s) = some s.session_id

abbrev rating_or_zero : Option Rating → ℕ
rating_or_zero none = 0
rating_or_zero (some r) = r.rating

abbrev is_there : Option Name → Bool
is_there none = false
is_there (some p) = true

-- The maps that the tables stand for.
abbrev pub view : Files → View
view f = record {
  selected_in = λ p. session_or_none (get selection_key p f.selections);
  is_exported = λ p. is_there (get export_key p f.exported);
  rating_of = λ p. rating_or_zero (get rating_key p f.ratings);
  config = λ k. get_config k f;
}

put_view :
    {R A : Type 0} (key : R → Name) (g : Option R → A) (r : R) (rs : List R)
    → (λ (j : Name). g (get key j (put key r rs)))
      ≡ changed (key r) (g (some r)) (λ j. g (get key j rs))
put_view key g r rs =
    fun_ext λ j. ap g (get-put key j r rs) ∙ ap-if g (same (key r) j) (some r) (get key j rs)

remove_view :
    {R A : Type 0} (key : R → Name) (g : Option R → A) (k : Name) (rs : List R)
    → (λ (j : Name). g (get key j (remove_key key k rs)))
      ≡ changed k (g none) (λ j. g (get key j rs))
remove_view key g k rs =
    fun_ext λ j. ap g (get-remove_key key j k rs) ∙ ap-if g (same k j) none (get key j rs)

run-act : (c : Call) (f : Files) → view (run c f) ≡ act c (view f)
unfolding run act save_selection mark_exported save_rating set_config delete_all_config get_config
    get
run-act (select p s true) f =
    ap (λ (z : Name → Option Name). record (view f) { selected_in = z })
      (put_view selection_key session_or_none (record { path = p; session_id = s }) f.selections)
run-act (select p s false) f =
    ap (λ (z : Name → Option Name). record (view f) { selected_in = z })
      (remove_view selection_key session_or_none p f.selections)
run-act (export p) f =
    ap (λ (z : Name → Bool). record (view f) { is_exported = z })
      (put_view export_key is_there p f.exported)
run-act (rate p zero) f =
    ap (λ (z : Name → ℕ). record (view f) { rating_of = z })
      (remove_view rating_key rating_or_zero p f.ratings)
run-act (rate p (suc r)) f =
    ap (λ (z : Name → ℕ). record (view f) { rating_of = z })
      (put_view rating_key rating_or_zero (record { path = p; rating = suc r }) f.ratings)
run-act (configure k v) f =
    ap (λ (z : Name → Name). record (view f) { config = z })
      (put_view setting_key value_or_empty (record { key = k; value = v }) f.app_config)
run-act reset f = refl

abbrev pub run_all : List Call → Files → Files
run_all [] f = f
run_all (c ∷ cs) f = run_all cs (run c f)

abbrev pub act_all : List Call → View → View
act_all [] v = v
act_all (c ∷ cs) v = act_all cs (act c v)

-- After every sequence of calls the tables stand for exactly the maps that the same calls make of
-- maps: a selection, an export, a rating and a setting reads as it was last written, and a call
-- about one path or key changes no other.
pub run_all-Refines : (cs : List Call) (f : Files) → view (run_all cs f) ≡ act_all cs (view f)
run_all-Refines [] f = refl
run_all-Refines (c ∷ cs) f = run_all-Refines cs (run c f) ∙ ap (act_all cs) (run-act c f)
