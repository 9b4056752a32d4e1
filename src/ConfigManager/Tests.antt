-- ===== src/ConfigManager/Tests.antt =====
-- A small JSON value in place of the library's, and the theorems at it.
use Prim.Native.String.{String}
use ai_solo_coder_task_b.Prelude.{
  ℕ, ◌≡◌, refl, ap, ◌∙◌, Bool, true, false, ◌&&◌, Option, none, some, List, [], ◌∷◌, if◌then◌else◌,
}
use ai_solo_coder_task_b.Prelude.Int.{ℤ, pos}
use ai_solo_coder_task_b.Double.Fixed.{fixed}
use ai_solo_coder_task_b.ConfigManager.{
  Json, same_string, AppConfig, default_config, load, save_default, to_json, parse_json,
  parse_log_level, LogLevel,
}
use ai_solo_coder_task_b.ConfigManager.RoundTrip.{
  find_key, FindsKeys, AreKept, all, ◌and◌, KeepsValues, IsStorable, load-save_default,
}

data Tree : Type 0 where
  int : ℤ → Tree
  size : ℕ → Tree
  double : ℤ → Tree
  string : String → Tree
  bool : Bool → Tree
  leaf : Tree
  field : String → Tree → Tree → Tree

abbrev object : List (String × Tree) → Tree
object [] = leaf
object ((k, v) ∷ fields) = field k v (object fields)

abbrev lookup : String → Tree → Option Tree
lookup k (int a) = none
lookup k (size a) = none
lookup k (double a) = none
lookup k (string a) = none
lookup k (bool a) = none
lookup k leaf = none
lookup k (field name v rest) =
    let more = lookup k rest in if same_string name k then some v else more

lookup-object : (k : String) (fs : List (String × Tree)) → lookup k (object fs) ≡ find_key k fs
lookup-object k [] = refl
lookup-object k ((name, v) ∷ fs) = rw (lookup-object k fs)

abbrev read : {A : Type 0} → (Tree → Option A) → Option Tree → A → Option A
read get none d = some d
read get (some t) d = get t

abbrev get_int : Tree → Option ℤ
get_int (int a) = some a
get_int _ = none

abbrev get_size : Tree → Option ℕ
get_size (size a) = some a
get_size _ = none

abbrev get_double : Tree → Option ℤ
get_double (double a) = some a
get_double _ = none

abbrev get_string : Tree → Option String
get_string (string a) = some a
get_string _ = none

abbrev get_bool : Tree → Option Bool
get_bool (bool a) = some a
get_bool _ = none

abbrev is_some : Option Tree → Bool
is_some none = false
is_some (some t) = true

abbrev some_or_leaf : Option Tree → Tree
some_or_leaf none = leaf
some_or_leaf (some t) = t

abbrev trees : Json ℤ Tree
trees = record {
  contains = λ j k. is_some (lookup k j);
  at = λ j k. some_or_leaf (lookup k j);
  value_int = λ j k d. read get_int (lookup k j) d;
  value_size = λ j k d. read get_size (lookup k j) d;
  value_double = λ j k d. read get_double (lookup k j) d;
  value_string = λ j k d. read get_string (lookup k j) d;
  value_bool = λ j k d. read get_bool (lookup k j) d;
  of_int = int;
  of_size = size;
  of_double = double;
  of_string = string;
  of_bool = bool;
  object = object;
}

trees-FindsKeys : FindsKeys trees
trees-FindsKeys = record {
  found_contains = λ fs k v e. ap is_some (lookup-object k fs ∙ e);
  found_at = λ fs k v e. ap some_or_leaf (lookup-object k fs ∙ e);
  found_int = λ fs k v d e. ap (λ o. read get_int o d) (lookup-object k fs ∙ e);
  found_size = λ fs k v d e. ap (λ o. read get_size o d) (lookup-object k fs ∙ e);
  found_double = λ fs k v d e. ap (λ o. read get_double o d) (lookup-object k fs ∙ e);
  found_string = λ fs k v d e. ap (λ o. read get_string o d) (lookup-object k fs ∙ e);
  found_bool = λ fs k v d e. ap (λ o. read get_bool o d) (lookup-object k fs ∙ e);
}

unfoldable changed : AppConfig ℤ
unfolding default_config
changed = record default_config { http_port = pos 81; queue_capacity = 5 }

-- A file is empty or holds a value. The string "?" stands for one that is not encoded right.
abbrev is_encoded : String → Bool
is_encoded s = if same_string s "?" then false else true

abbrev is_dumped : Tree → Bool
is_dumped (int a) = true
is_dumped (size a) = true
is_dumped (double a) = true
is_dumped (string a) = is_encoded a
is_dumped (bool a) = true
is_dumped leaf = true
is_dumped (field name v rest) = is_dumped v && is_dumped rest

abbrev dump : Tree → Option (Option Tree)
dump t = if is_dumped t then some (some t) else none

abbrev Encoded : String → Type 0
Encoded s = is_encoded s ≡ true

abbrev Kept : Tree → Type 0
Kept t = is_dumped t ≡ true

object-Kept :
    (fs : List (String × Tree))
    → AreKept trees (λ f. f) dump (λ v. Unit) Encoded Kept fs
    → Kept (object fs)
object-Kept [] all = refl
object-Kept ((k, v) ∷ fs) (h and rest) = rw (h) (object-Kept fs rest)

trees-KeepsValues : KeepsValues trees (λ f. f) dump (λ v. Unit) Encoded Kept
trees-KeepsValues = record {
  kept_int = λ v. refl;
  kept_size = λ v. refl;
  kept_double = λ v h. refl;
  kept_string = λ v h. h;
  kept_bool = λ v. refl;
  kept_object = object-Kept;
  parse-dump = λ j h. (some j, ap (λ b. if b then some (some j) else none) h, refl);
}

changed-IsStorable : IsStorable (λ v. Unit) Encoded changed
unfolding default_config changed
changed-IsStorable = record {
  level = refl;
  file = refl;
  broker_host = refl;
  client_id = refl;
  topic_prefix = refl;
  username = refl;
  mqtt_password = refl;
  deformation_ratio = tt;
  tension_ratio = tt;
  temperature_c = tt;
  gravity = tt;
  air_density = tt;
  arrow_ref_area = tt;
  bow_efficiency = tt;
  sound_speed = tt;
  penalty_stiffness = tt;
  penalty_damping = tt;
  contact_threshold = tt;
  max_penalty_force = tt;
  host = refl;
  database = refl;
  user = refl;
  password = refl;
}

-- The file is empty before.
load-save_default_example :
    load trees
      (λ f. f)
      dump
      none
      false
      (save_default trees (λ f. f) dump none true changed (some none))
    ≡ (changed, save_default trees (λ f. f) dump none true changed (some none))
load-save_default_example =
    load-save_default trees trees-FindsKeys (λ f. f) dump none (λ v. Unit) Encoded Kept
      trees-KeepsValues changed (some none) false changed-IsStorable

-- A password that cannot be dumped leaves the file empty.
emptied :
    save_default trees
      (λ f. f)
      dump
      none
      true
      (record changed { clickhouse = record changed.clickhouse { password = "?" } })
      none
    ≡ some none
unfolding save_default default_config to_json changed
emptied = refl

-- A file with a port that is no number: what stands before it is read all the same.
abbrev faulty : Tree
faulty = object (("udp_port", int (pos 1)) ∷ ("http_port", string "x") ∷ [])

partly :
    (load trees (λ f. f) dump none true (some (some faulty))).0
    ≡ record default_config { udp_port = pos 1 }
unfolding default_config load parse_json
partly = refl

levels : parse_log_level "warn" ≡ LogLevel.warn
unfolding parse_log_level
levels = refl
