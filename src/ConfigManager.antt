-- ===== src/ConfigManager.antt =====
-- backend/include/config_manager.h: the configuration, its defaults, and its passage through JSON.
-- nlohmann::json enters as the interface `Json`; an accessor is `none` where it throws.
pub mod RoundTrip
mod Tests
use Prim.Native.Nat.{Ordering}
use Prim.Native.String.{String, compare as compare_string}
use ai_solo_coder_task_b.Prelude.{
  ℕ, Bool, true, false, Option, none, some, List, [], ◌∷◌, if◌then◌else◌,
}
use ai_solo_coder_task_b.Prelude.Int.{ℤ, pos}
use ai_solo_coder_task_b.Double.{Double}

pub record LogConfig : Type 0 where
  pub level : String
  pub file : String
  pub console : Bool

pub record MqttConfig : Type 0 where
  pub broker_host : String
  pub broker_port : ℤ
  pub client_id : String
  pub topic_prefix : String
  pub username : String
  pub password : String

pub record AlertThresholds (W : Type 0) : Type 0 where
  pub deformation_ratio : W
  pub tension_ratio : W
  pub temperature_c : W
  pub debounce_seconds : ℤ

pub record DynamicsParams (W : Type 0) : Type 0 where
  pub gravity : W
  pub air_density : W
  pub arrow_ref_area : W
  pub bow_efficiency : W
  pub sound_speed : W
  pub penalty_stiffness : W
  pub penalty_damping : W
  pub contact_threshold : W
  pub max_penalty_force : W

pub record ClickHouseConfig : Type 0 where
  pub host : String
  pub port : ℤ
  pub database : String
  pub user : String
  pub password : String
  pub ttl_days : ℤ

pub record AppConfig (W : Type 0) : Type 0 where
  pub udp_port : ℤ
  pub http_port : ℤ
  pub metrics_port : ℤ
  pub queue_capacity : ℕ
  pub ballistic_threads : ℤ
  pub accuracy_batch_size : ℤ
  pub accuracy_analysis_interval_ms : ℤ
  pub alarm_check_interval_ms : ℤ
  pub log : LogConfig
  pub mqtt : MqttConfig
  pub thresholds : AlertThresholds W
  pub dynamics : DynamicsParams W
  pub clickhouse : ClickHouseConfig

-- What the code calls of the JSON library on a value of type `J`.
pub record Json (W J : Type 0) : Type 0 where
  pub contains : J → String → Bool
  pub at : J → String → J
  pub value_int : J → String → ℤ → Option ℤ
  pub value_size : J → String → ℕ → Option ℕ
  pub value_double : J → String → W → Option W
  pub value_string : J → String → String → Option String
  pub value_bool : J → String → Bool → Option Bool
  pub of_int : ℤ → J
  pub of_size : ℕ → J
  pub of_double : W → J
  pub of_string : String → J
  pub of_bool : Bool → J
  pub object : List (String × J) → J

-- An assignment, or a call that makes several: whether it threw, and the record as it left it.
abbrev pub Step : Type 0 → Type 0
Step C = C → Bool × C

-- A step after one that ended so.
abbrev pub and_then : {C : Type 0} → Step C → Bool × C → Bool × C
and_then step (true, c) = (true, c)
and_then step (false, c) = step c

-- Statements one after the other: the first that throws ends them.
abbrev pub in_turn : {C : Type 0} → List (Step C) → Step C
in_turn [] c = (false, c)
in_turn (f ∷ fs) c = and_then (in_turn fs) (f c)

-- `field = value`, where the value may throw.
abbrev pub assign : {A C : Type 0} → (C → Option A) → (A → C → C) → Step C
assign read put c = elim (read c) [ none ↦ (true, c) | some a ↦ (false, put a c) ]

-- Assignments to the members of a field.
abbrev pub inside : {A C : Type 0} → (C → A) → (A → C → C) → Step A → Step C
inside get put f c = let (thrown, a) = f (get c) in (thrown, put a c)

pub data LogLevel : Type 0 where
  trace : LogLevel
  debug : LogLevel
  info : LogLevel
  warn : LogLevel
  error : LogLevel
  critical : LogLevel

abbrev pub same_string : String → String → Bool
same_string a b = elim (compare_string a b) [ Ordering.eq ↦ true | _ ↦ false ]

pub parse_log_level : String → LogLevel
parse_log_level s =
    if same_string s "trace"
    then LogLevel.trace
    else if same_string s "debug"
    then LogLevel.debug
    else if same_string s "info"
    then LogLevel.info
    else if same_string s "warn"
    then LogLevel.warn
    else if same_string s "error"
    then LogLevel.error
    else if same_string s "critical"
    then LogLevel.critical
    else LogLevel.info

module _ {W : Type 0} ⦃d : Double W⦄ where
  open d use {lit}

  -- The default initialisers.
  pub default_config : AppConfig W
  default_config = record {
    udp_port = pos 9000;
    http_port = pos 8080;
    metrics_port = pos 9090;
    queue_capacity = 10000;
    ballistic_threads = pos 1;
    accuracy_batch_size = pos 100;
    accuracy_analysis_interval_ms = pos 5000;
    alarm_check_interval_ms = pos 1000;
    log = record { level = "info"; file = "crossbow_backend.log"; console = true };
    mqtt = record {
      broker_host = "localhost";
      broker_port = pos 1883;
      client_id = "crossbow_backend";
      topic_prefix = "crossbow/alerts";
      username = "";
      password = "";
    };
    thresholds = record {
      deformation_ratio = lit 8 2;
      tension_ratio = lit 15 1;
      temperature_c = lit 60 0;
      debounce_seconds = pos 10;
    };
    dynamics = record {
      gravity = lit 981 2;
      air_density = lit 1225 3;
      arrow_ref_area = lit 25 5;
      bow_efficiency = lit 75 2;
      sound_speed = lit 343 0;
      penalty_stiffness = lit 800000 0;
      penalty_damping = lit 5000 0;
      contact_threshold = lit 1 3;
      max_penalty_force = lit 5000 0;
    };
    clickhouse = record {
      host = "localhost";
      port = pos 9000;
      database = "crossbow_sim";
      user = "default";
      password = "";
      ttl_days = pos 30;
    };
  }

module _ {W J : Type 0} (json : Json W J) where
  open json use {
    contains, at, value_int, value_size, value_double, value_string, value_bool, of_int, of_size,
    of_double, of_string, of_bool, object,
  }

  abbrev pub parse_log : J → Step (LogConfig)
  parse_log j = in_turn (
      assign (λ c. value_string j "level" c.level) (λ v c. record c { level = v })
      ∷ assign (λ c. value_string j "file" c.file) (λ v c. record c { file = v })
      ∷ assign (λ c. value_bool j "console" c.console) (λ v c. record c { console = v })
      ∷ [])

  abbrev pub parse_mqtt : J → Step (MqttConfig)
  parse_mqtt j = in_turn (
      assign (λ c. value_string j "broker_host" c.broker_host) (λ v c. record c { broker_host = v })
      ∷ assign (λ c. value_int j "broker_port" c.broker_port) (λ v c. record c { broker_port = v })
      ∷ assign (λ c. value_string j "client_id" c.client_id) (λ v c. record c { client_id = v })
      ∷ assign (λ c. value_string j "topic_prefix" c.topic_prefix)
          (λ v c. record c { topic_prefix = v })
      ∷ assign (λ c. value_string j "username" c.username) (λ v c. record c { username = v })
      ∷ assign (λ c. value_string j "password" c.password) (λ v c. record c { password = v })
      ∷ [])

  abbrev pub parse_thresholds : J → Step (AlertThresholds W)
  parse_thresholds j = in_turn (
      assign (λ c. value_double j "deformation_ratio" c.deformation_ratio)
        (λ v c. record c { deformation_ratio = v })
      ∷ assign (λ c. value_double j "tension_ratio" c.tension_ratio)
          (λ v c. record c { tension_ratio = v })
      ∷ assign (λ c. value_double j "temperature_c" c.temperature_c)
          (λ v c. record c { temperature_c = v })
      ∷ assign (λ c. value_int j "debounce_seconds" c.debounce_seconds)
          (λ v c. record c { debounce_seconds = v })
      ∷ [])

  abbrev pub parse_dynamics : J → Step (DynamicsParams W)
  parse_dynamics j = in_turn (
      assign (λ c. value_double j "gravity" c.gravity) (λ v c. record c { gravity = v })
      ∷ assign (λ c. value_double j "air_density" c.air_density)
          (λ v c. record c { air_density = v })
      ∷ assign (λ c. value_double j "arrow_ref_area" c.arrow_ref_area)
          (λ v c. record c { arrow_ref_area = v })
      ∷ assign (λ c. value_double j "bow_efficiency" c.bow_efficiency)
          (λ v c. record c { bow_efficiency = v })
      ∷ assign (λ c. value_double j "sound_speed" c.sound_speed)
          (λ v c. record c { sound_speed = v })
      ∷ assign (λ c. value_double j "penalty_stiffness" c.penalty_stiffness)
          (λ v c. record c { penalty_stiffness = v })
      ∷ assign (λ c. value_double j "penalty_damping" c.penalty_damping)
          (λ v c. record c { penalty_damping = v })
      ∷ assign (λ c. value_double j "contact_threshold" c.contact_threshold)
          (λ v c. record c { contact_threshold = v })
      ∷ assign (λ c. value_double j "max_penalty_force" c.max_penalty_force)
          (λ v c. record c { max_penalty_force = v })
      ∷ [])

  abbrev pub parse_clickhouse : J → Step (ClickHouseConfig)
  parse_clickhouse j = in_turn (
      assign (λ c. value_string j "host" c.host) (λ v c. record c { host = v })
      ∷ assign (λ c. value_int j "port" c.port) (λ v c. record c { port = v })
      ∷ assign (λ c. value_string j "database" c.database) (λ v c. record c { database = v })
      ∷ assign (λ c. value_string j "user" c.user) (λ v c. record c { user = v })
      ∷ assign (λ c. value_string j "password" c.password) (λ v c. record c { password = v })
      ∷ assign (λ c. value_int j "ttl_days" c.ttl_days) (λ v c. record c { ttl_days = v })
      ∷ [])

  -- A section of the file, if there is one.
  abbrev section : {C : Type 0} → J → String → (J → Step C) → Step C
  section j name f c = if contains j name then f (at j name) c else (false, c)

  pub parse_json : J → Step (AppConfig W)
  parse_json j = in_turn (
      assign (λ c. value_int j "udp_port" c.udp_port) (λ v c. record c { udp_port = v })
      ∷ assign (λ c. value_int j "http_port" c.http_port) (λ v c. record c { http_port = v })
      ∷ assign (λ c. value_int j "metrics_port" c.metrics_port)
          (λ v c. record c { metrics_port = v })
      ∷ assign (λ c. value_size j "queue_capacity" c.queue_capacity)
          (λ v c. record c { queue_capacity = v })
      ∷ assign (λ c. value_int j "ballistic_threads" c.ballistic_threads)
          (λ v c. record c { ballistic_threads = v })
      ∷ assign (λ c. value_int j "accuracy_batch_size" c.accuracy_batch_size)
          (λ v c. record c { accuracy_batch_size = v })
      ∷ assign (λ c. value_int j "accuracy_analysis_interval_ms" c.accuracy_analysis_interval_ms)
          (λ v c. record c { accuracy_analysis_interval_ms = v })
      ∷ assign (λ c. value_int j "alarm_check_interval_ms" c.alarm_check_interval_ms)
          (λ v c. record c { alarm_check_interval_ms = v })
      ∷ inside (λ c. c.log) (λ v c. record c { log = v }) (section j "log" parse_log)
      ∷ inside (λ c. c.mqtt) (λ v c. record c { mqtt = v }) (section j "mqtt" parse_mqtt)
      ∷ inside (λ c. c.thresholds) (λ v c. record c { thresholds = v })
          (section j "thresholds" parse_thresholds)
      ∷ inside (λ c. c.dynamics) (λ v c. record c { dynamics = v })
          (section j "dynamics" parse_dynamics)
      ∷ inside (λ c. c.clickhouse) (λ v c. record c { clickhouse = v })
          (section j "clickhouse" parse_clickhouse)
      ∷ [])

  abbrev pub log_fields : LogConfig → List (String × J)
  log_fields c =
      ("level", of_string c.level)
      ∷ ("file", of_string c.file)
      ∷ ("console", of_bool c.console)
      ∷ []

  abbrev pub mqtt_fields : MqttConfig → List (String × J)
  mqtt_fields c =
      ("broker_host", of_string c.broker_host)
      ∷ ("broker_port", of_int c.broker_port)
      ∷ ("client_id", of_string c.client_id)
      ∷ ("topic_prefix", of_string c.topic_prefix)
      ∷ ("username", of_string c.username)
      ∷ ("password", of_string c.password)
      ∷ []

  abbrev pub thresholds_fields : AlertThresholds W → List (String × J)
  thresholds_fields c =
      ("deformation_ratio", of_double c.deformation_ratio)
      ∷ ("tension_ratio", of_double c.tension_ratio)
      ∷ ("temperature_c", of_double c.temperature_c)
      ∷ ("debounce_seconds", of_int c.debounce_seconds)
      ∷ []

  abbrev pub dynamics_fields : DynamicsParams W → List (String × J)
  dynamics_fields c =
      ("gravity", of_double c.gravity)
      ∷ ("air_density", of_double c.air_density)
      ∷ ("arrow_ref_area", of_double c.arrow_ref_area)
      ∷ ("bow_efficiency", of_double c.bow_efficiency)
      ∷ ("sound_speed", of_double c.sound_speed)
      ∷ ("penalty_stiffness", of_double c.penalty_stiffness)
      ∷ ("penalty_damping", of_double c.penalty_damping)
      ∷ ("contact_threshold", of_double c.contact_threshold)
      ∷ ("max_penalty_force", of_double c.max_penalty_force)
      ∷ []

  abbrev pub clickhouse_fields : ClickHouseConfig → List (String × J)
  clickhouse_fields c =
      ("host", of_string c.host)
      ∷ ("port", of_int c.port)
      ∷ ("database", of_string c.database)
      ∷ ("user", of_string c.user)
      ∷ ("password", of_string c.password)
      ∷ ("ttl_days", of_int c.ttl_days)
      ∷ []

  abbrev pub config_fields : AppConfig W → List (String × J)
  config_fields c =
      ("udp_port", of_int c.udp_port)
      ∷ ("http_port", of_int c.http_port)
      ∷ ("metrics_port", of_int c.metrics_port)
      ∷ ("queue_capacity", of_size c.queue_capacity)
      ∷ ("ballistic_threads", of_int c.ballistic_threads)
      ∷ ("accuracy_batch_size", of_int c.accuracy_batch_size)
      ∷ ("accuracy_analysis_interval_ms", of_int c.accuracy_analysis_interval_ms)
      ∷ ("alarm_check_interval_ms", of_int c.alarm_check_interval_ms)
      ∷ ("log", object (log_fields c.log))
      ∷ ("mqtt", object (mqtt_fields c.mqtt))
      ∷ ("thresholds", object (thresholds_fields c.thresholds))
      ∷ ("dynamics", object (dynamics_fields c.dynamics))
      ∷ ("clickhouse", object (clickhouse_fields c.clickhouse))
      ∷ []

  pub to_json : AppConfig W → J
  to_json c = object (config_fields c)

-- The configuration file: `load` reads it if it can be opened, and writes the defaults if not. `parse` and
-- `dump` are `none` where the library throws; `dump` is the text with the line's end behind it. What `load`
-- and `save_default` answer about the file is what it holds afterwards; `writable` says whether it can be
-- opened for writing, which empties it before the text is made. That a disk is full is not modelled.
module _ {W J File : Type 0} ⦃d : Double W⦄ (json : Json W J) (parse : File → Option J)
    (dump : J → Option File) (empty : File) where
  -- The stream does not write where `dump` throws, and the exception is caught.
  abbrev pub written : Option File → File
  written none = empty
  written (some text) = text

  pub save_default : Bool → AppConfig W → Option File → Option File
  save_default writable c file = if writable then some (written (dump (to_json json c))) else file

  pub load : Bool → Option File → AppConfig W × Option File
  load writable none = (default_config, save_default writable default_config none)
  load writable (some file) = elim (parse file) [
    | none ↦ (default_config, some file)
    | some j ↦ ((parse_json json j default_config).1, some file)
  ]
