-- ===== src/ConfigManager/RoundTrip.antt =====
-- The configuration survives its passage through JSON.
use Prim.Native.String.{String}
use ai_solo_coder_task_b.Prelude.{
  ℕ, ◌≡◌, refl, ap, sym, ◌∙◌, Bool, true, false, Option, none, some, List, [], ◌∷◌, if◌then◌else◌,
}
use ai_solo_coder_task_b.Prelude.Int.{ℤ}
use ai_solo_coder_task_b.Double.{Double}
use ai_solo_coder_task_b.ConfigManager.{
  Json, same_string, AppConfig, LogConfig, MqttConfig, AlertThresholds, DynamicsParams,
  ClickHouseConfig, parse_json, to_json, config_fields, default_config, load, save_default, written,
  parse_log, parse_mqtt, parse_thresholds, parse_dynamics, parse_clickhouse, log_fields,
  mqtt_fields, thresholds_fields, dynamics_fields, clickhouse_fields,
}

module _ {J : Type 0} where
  abbrev pub find_key : String → List (String × J) → Option J
  find_key k [] = none
  find_key k ((name, v) ∷ fields) = if same_string name k then some v else find_key k fields

module _ {W J : Type 0} (json : Json W J) where
  open json use {contains, at, object}

  -- The accessors on an object that has the key: they give back the value it was made with.
  pub record FindsKeys : Type 0 where
    pub found_contains :
        (fs : List (String × J)) (k : String) (v : J)
        → find_key k fs ≡ some v
        → contains (object fs) k ≡ true
    pub found_at :
        (fs : List (String × J)) (k : String) (v : J)
        → find_key k fs ≡ some v
        → at (object fs) k ≡ v
    pub found_int :
        (fs : List (String × J)) (k : String) (v d : ℤ)
        → find_key k fs ≡ some (json.of_int v)
        → json.value_int (object fs) k d ≡ some v
    pub found_size :
        (fs : List (String × J)) (k : String) (v d : ℕ)
        → find_key k fs ≡ some (json.of_size v)
        → json.value_size (object fs) k d ≡ some v
    pub found_double :
        (fs : List (String × J)) (k : String) (v d : W)
        → find_key k fs ≡ some (json.of_double v)
        → json.value_double (object fs) k d ≡ some v
    pub found_string :
        (fs : List (String × J)) (k : String) (v d : String)
        → find_key k fs ≡ some (json.of_string v)
        → json.value_string (object fs) k d ≡ some v
    pub found_bool :
        (fs : List (String × J)) (k : String) (v d : Bool)
        → find_key k fs ≡ some (json.of_bool v)
        → json.value_bool (object fs) k d ≡ some v

module _ {W J : Type 0} (json : Json W J) (laws : FindsKeys json) where
  open json use {object}

  parse-log : (c start : LogConfig) → parse_log json (object (log_fields json c)) start ≡ (false, c)
  parse-log c start = simp (
    laws.found_string (log_fields json c) "level" c.level start.level refl,
    laws.found_string (log_fields json c) "file" c.file start.file refl,
    laws.found_bool (log_fields json c) "console" c.console start.console refl,
  )

  parse-mqtt :
      (c start : MqttConfig) → parse_mqtt json (object (mqtt_fields json c)) start ≡ (false, c)
  parse-mqtt c start = simp (
    laws.found_string (mqtt_fields json c) "broker_host" c.broker_host start.broker_host refl,
    laws.found_int (mqtt_fields json c) "broker_port" c.broker_port start.broker_port refl,
    laws.found_string (mqtt_fields json c) "client_id" c.client_id start.client_id refl,
    laws.found_string (mqtt_fields json c) "topic_prefix" c.topic_prefix start.topic_prefix refl,
    laws.found_string (mqtt_fields json c) "username" c.username start.username refl,
    laws.found_string (mqtt_fields json c) "password" c.password start.password refl,
  )

  parse-thresholds :
      (c start : AlertThresholds W)
      → parse_thresholds json (object (thresholds_fields json c)) start ≡ (false, c)
  parse-thresholds c start = simp (
    laws.found_double (thresholds_fields json c) "deformation_ratio" c.deformation_ratio
        start.deformation_ratio refl,
    laws.found_double (thresholds_fields json c) "tension_ratio" c.tension_ratio start.tension_ratio
        refl,
    laws.found_double (thresholds_fields json c) "temperature_c" c.temperature_c start.temperature_c
        refl,
    laws.found_int (thresholds_fields json c) "debounce_seconds" c.debounce_seconds
        start.debounce_seconds refl,
  )

  parse-dynamics :
      (c start : DynamicsParams W)
      → parse_dynamics json (object (dynamics_fields json c)) start ≡ (false, c)
  parse-dynamics c start = simp (
    laws.found_double (dynamics_fields json c) "gravity" c.gravity start.gravity refl,
    laws.found_double (dynamics_fields json c) "air_density" c.air_density start.air_density refl,
    laws.found_double (dynamics_fields json c) "arrow_ref_area" c.arrow_ref_area
        start.arrow_ref_area refl,
    laws.found_double (dynamics_fields json c) "bow_efficiency" c.bow_efficiency
        start.bow_efficiency refl,
    laws.found_double (dynamics_fields json c) "sound_speed" c.sound_speed start.sound_speed refl,
    laws.found_double (dynamics_fields json c) "penalty_stiffness" c.penalty_stiffness
        start.penalty_stiffness refl,
    laws.found_double (dynamics_fields json c) "penalty_damping" c.penalty_damping
        start.penalty_damping refl,
    laws.found_double (dynamics_fields json c) "contact_threshold" c.contact_threshold
        start.contact_threshold refl,
    laws.found_double (dynamics_fields json c) "max_penalty_force" c.max_penalty_force
        start.max_penalty_force refl,
  )

  parse-clickhouse :
      (c start : ClickHouseConfig)
      → parse_clickhouse json (object (clickhouse_fields json c)) start ≡ (false, c)
  parse-clickhouse c start = simp (
    laws.found_string (clickhouse_fields json c) "host" c.host start.host refl,
    laws.found_int (clickhouse_fields json c) "port" c.port start.port refl,
    laws.found_string (clickhouse_fields json c) "database" c.database start.database refl,
    laws.found_string (clickhouse_fields json c) "user" c.user start.user refl,
    laws.found_string (clickhouse_fields json c) "password" c.password start.password refl,
    laws.found_int (clickhouse_fields json c) "ttl_days" c.ttl_days start.ttl_days refl,
  )

  parse_json-to_json : (c start : AppConfig W) → parse_json json (to_json json c) start ≡ (false, c)
  unfolding parse_json to_json
  parse_json-to_json c start = simp (
    laws.found_int (config_fields json c) "udp_port" c.udp_port start.udp_port refl,
    laws.found_int (config_fields json c) "http_port" c.http_port start.http_port refl,
    laws.found_int (config_fields json c) "metrics_port" c.metrics_port start.metrics_port refl,
    laws.found_size (config_fields json c) "queue_capacity" c.queue_capacity start.queue_capacity
        refl,
    laws.found_int (config_fields json c) "ballistic_threads" c.ballistic_threads
        start.ballistic_threads refl,
    laws.found_int (config_fields json c) "accuracy_batch_size" c.accuracy_batch_size
        start.accuracy_batch_size refl,
    laws.found_int (config_fields json c) "accuracy_analysis_interval_ms"
        c.accuracy_analysis_interval_ms start.accuracy_analysis_interval_ms refl,
    laws.found_int (config_fields json c) "alarm_check_interval_ms" c.alarm_check_interval_ms
        start.alarm_check_interval_ms refl,
    laws.found_contains (config_fields json c) "log" (object (log_fields json c.log)) refl,
    laws.found_at (config_fields json c) "log" (object (log_fields json c.log)) refl,
    parse-log c.log start.log,
    laws.found_contains (config_fields json c) "mqtt" (object (mqtt_fields json c.mqtt)) refl,
    laws.found_at (config_fields json c) "mqtt" (object (mqtt_fields json c.mqtt)) refl,
    parse-mqtt c.mqtt start.mqtt,
    laws.found_contains (config_fields json c) "thresholds"
        (object (thresholds_fields json c.thresholds)) refl,
    laws.found_at (config_fields json c) "thresholds" (object (thresholds_fields json c.thresholds))
        refl,
    parse-thresholds c.thresholds start.thresholds,
    laws.found_contains (config_fields json c) "dynamics" (object (dynamics_fields json c.dynamics))
        refl,
    laws.found_at (config_fields json c) "dynamics" (object (dynamics_fields json c.dynamics)) refl,
    parse-dynamics c.dynamics start.dynamics,
    laws.found_contains (config_fields json c) "clickhouse"
        (object (clickhouse_fields json c.clickhouse)) refl,
    laws.found_at (config_fields json c) "clickhouse" (object (clickhouse_fields json c.clickhouse))
        refl,
    parse-clickhouse c.clickhouse start.clickhouse,
  )

infixr 5 ◌and◌
-- What the library promises of text: a value made of numbers that are finite and of strings that are
-- encoded right is dumped, and its text is parsed to that value. A number that is not finite is dumped as
-- null, and `dump` throws at a string that is not encoded right. `Kept` are the values that come back; they
-- are the same as the library's `==` says it.
module _ {W J File : Type 0} (json : Json W J) (parse : File → Option J) (dump : J → Option File)
    (Finite : W → Type 0) (Encoded : String → Type 0) (Kept : J → Type 0) where
  pub data AreKept : List (String × J) → Type 0 where
    all : AreKept []
    ◌and◌ :
        {k : String}
        → {v : J} → {fs : List (String × J)} → Kept v
        → AreKept fs
        → AreKept ((k, v) ∷ fs)

  pub record KeepsValues : Type 0 where
    pub kept_int : (v : ℤ) → Kept (json.of_int v)
    pub kept_size : (v : ℕ) → Kept (json.of_size v)
    pub kept_double : (v : W) → Finite v → Kept (json.of_double v)
    pub kept_string : (v : String) → Encoded v → Kept (json.of_string v)
    pub kept_bool : (v : Bool) → Kept (json.of_bool v)
    pub kept_object : (fs : List (String × J)) → AreKept fs → Kept (json.object fs)
    pub parse-dump : (j : J) → Kept j → (text : File) × (dump j ≡ some text) × (parse text ≡ some j)

-- A configuration that text can hold.
pub record IsStorable {W : Type 0} (Finite : W → Type 0) (Encoded : String → Type 0)
    (c : AppConfig W) : Type 0 where
  pub level : Encoded c.log.level
  pub file : Encoded c.log.file
  pub broker_host : Encoded c.mqtt.broker_host
  pub client_id : Encoded c.mqtt.client_id
  pub topic_prefix : Encoded c.mqtt.topic_prefix
  pub username : Encoded c.mqtt.username
  pub mqtt_password : Encoded c.mqtt.password
  pub deformation_ratio : Finite c.thresholds.deformation_ratio
  pub tension_ratio : Finite c.thresholds.tension_ratio
  pub temperature_c : Finite c.thresholds.temperature_c
  pub gravity : Finite c.dynamics.gravity
  pub air_density : Finite c.dynamics.air_density
  pub arrow_ref_area : Finite c.dynamics.arrow_ref_area
  pub bow_efficiency : Finite c.dynamics.bow_efficiency
  pub sound_speed : Finite c.dynamics.sound_speed
  pub penalty_stiffness : Finite c.dynamics.penalty_stiffness
  pub penalty_damping : Finite c.dynamics.penalty_damping
  pub contact_threshold : Finite c.dynamics.contact_threshold
  pub max_penalty_force : Finite c.dynamics.max_penalty_force
  pub host : Encoded c.clickhouse.host
  pub database : Encoded c.clickhouse.database
  pub user : Encoded c.clickhouse.user
  pub password : Encoded c.clickhouse.password

module _ {W J File : Type 0} ⦃d : Double W⦄ (json : Json W J) (finds : FindsKeys json)
    (parse : File → Option J) (dump : J → Option File) (empty : File) (Finite : W → Type 0)
    (Encoded : String → Type 0) (Kept : J → Type 0)
    (keeps : KeepsValues json parse dump Finite Encoded Kept) where
  open keeps use {kept_int, kept_size, kept_double, kept_string, kept_bool, kept_object}

  log_fields-Kept :
      (c : AppConfig W) → IsStorable Finite Encoded c → Kept (json.object (log_fields json c.log))
  log_fields-Kept c h = kept_object (log_fields json c.log) (
      kept_string c.log.level h.level
      and kept_string c.log.file h.file
      and kept_bool c.log.console
      and all)

  mqtt_fields-Kept :
      (c : AppConfig W) → IsStorable Finite Encoded c → Kept (json.object (mqtt_fields json c.mqtt))
  mqtt_fields-Kept c h = kept_object (mqtt_fields json c.mqtt) (
      kept_string c.mqtt.broker_host h.broker_host
      and kept_int c.mqtt.broker_port
      and kept_string c.mqtt.client_id h.client_id
      and kept_string c.mqtt.topic_prefix h.topic_prefix
      and kept_string c.mqtt.username h.username
      and kept_string c.mqtt.password h.mqtt_password
      and all)

  thresholds_fields-Kept :
      (c : AppConfig W)
      → IsStorable Finite Encoded c
      → Kept (json.object (thresholds_fields json c.thresholds))
  thresholds_fields-Kept c h = kept_object (thresholds_fields json c.thresholds) (
      kept_double c.thresholds.deformation_ratio h.deformation_ratio
      and kept_double c.thresholds.tension_ratio h.tension_ratio
      and kept_double c.thresholds.temperature_c h.temperature_c
      and kept_int c.thresholds.debounce_seconds
      and all)

  dynamics_fields-Kept :
      (c : AppConfig W)
      → IsStorable Finite Encoded c
      → Kept (json.object (dynamics_fields json c.dynamics))
  dynamics_fields-Kept c h = kept_object (dynamics_fields json c.dynamics) (
      kept_double c.dynamics.gravity h.gravity
      and kept_double c.dynamics.air_density h.air_density
      and kept_double c.dynamics.arrow_ref_area h.arrow_ref_area
      and kept_double c.dynamics.bow_efficiency h.bow_efficiency
      and kept_double c.dynamics.sound_speed h.sound_speed
      and kept_double c.dynamics.penalty_stiffness h.penalty_stiffness
      and kept_double c.dynamics.penalty_damping h.penalty_damping
      and kept_double c.dynamics.contact_threshold h.contact_threshold
      and kept_double c.dynamics.max_penalty_force h.max_penalty_force
      and all)

  clickhouse_fields-Kept :
      (c : AppConfig W)
      → IsStorable Finite Encoded c
      → Kept (json.object (clickhouse_fields json c.clickhouse))
  clickhouse_fields-Kept c h = kept_object (clickhouse_fields json c.clickhouse) (
      kept_string c.clickhouse.host h.host
      and kept_int c.clickhouse.port
      and kept_string c.clickhouse.database h.database
      and kept_string c.clickhouse.user h.user
      and kept_string c.clickhouse.password h.password
      and kept_int c.clickhouse.ttl_days
      and all)

  to_json-Kept : (c : AppConfig W) → IsStorable Finite Encoded c → Kept (to_json json c)
  unfolding to_json
  to_json-Kept c h = kept_object (config_fields json c) (
      kept_int c.udp_port
      and kept_int c.http_port
      and kept_int c.metrics_port
      and kept_size c.queue_capacity
      and kept_int c.ballistic_threads
      and kept_int c.accuracy_batch_size
      and kept_int c.accuracy_analysis_interval_ms
      and kept_int c.alarm_check_interval_ms
      and log_fields-Kept c h
      and mqtt_fields-Kept c h
      and thresholds_fields-Kept c h
      and dynamics_fields-Kept c h
      and clickhouse_fields-Kept c h
      and all)

  saved_text :
      (c : AppConfig W)
      → IsStorable Finite Encoded c
      → (text : File) × (dump (to_json json c) ≡ some text) × (parse text ≡ some (to_json json c))
  saved_text c h = keeps.parse-dump (to_json json c) (to_json-Kept c h)

  save_default-dumped :
      (c : AppConfig W) (before : Option File) (text : File)
      → dump (to_json json c) ≡ some text
      → save_default json parse dump empty true c before ≡ some text
  unfolding save_default
  save_default-dumped c before text dumped = ap (λ o. some (written json parse dump empty o)) dumped

  load-parsed :
      (c : AppConfig W) (text : File) (writable : Bool)
      → parse text ≡ some (to_json json c)
      → load json parse dump empty writable (some text) ≡ (c, some text)
  unfolding load
  load-parsed c text writable parsed =
      rw (load, parsed, parse_json-to_json json finds c default_config)

  -- A configuration whose doubles are finite and whose strings are encoded right, saved to a file that can
  -- be opened for writing, loads as that configuration whatever the file held before and whatever the
  -- defaults are, and the file is left as it is.
  pub load-save_default :
      (c : AppConfig W) (before : Option File) (writable : Bool)
      → IsStorable Finite Encoded c
      → load json parse dump empty writable (save_default json parse dump empty true c before)
        ≡ (c, save_default json parse dump empty true c before)
  load-save_default c before writable h =
      let (text, dumped, parsed) = saved_text c h in
      let saved = save_default-dumped c before text dumped in
      ap (load json parse dump empty writable) saved
      ∙ load-parsed c text writable parsed
      ∙ sym (ap (λ file. (c, file)) saved)
