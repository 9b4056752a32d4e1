-- ===== src/HttpServer/Reads.antt =====
-- The requests of backend/src/http_server.cpp that only read: what they leave as it was.
use Prim.Native.String.{String}
use ai_solo_coder_task_b.Prelude.{◌≡◌, refl, subst, Option, none, some, ◌>>=◌}
use ai_solo_coder_task_b.Prelude.Bytes.{Bytes, utf8}
use ai_solo_coder_task_b.Double.{Double}
use ai_solo_coder_task_b.HttpServer.{
  HttpServer, Ambient, increment_http_requests, size_or, double_or, build_response,
}
use ai_solo_coder_task_b.HttpServer.Replies.{sample_json, shot_row}
use ai_solo_coder_task_b.HttpServer.Json.{Library}
use ai_solo_coder_task_b.HttpServer.Request.{Params, param, stoul, get_path, parse_url_params}
use ai_solo_coder_task_b.HttpServer.Handlers.{
  reply_samples, handle_get_sensor_data, handle_get_shot_history, handle_get_crossbow_types,
  handle_get_alerts, handle_get_accuracy, handle_get_system_status, handle_get_ballistic_result,
  handle_resolve_alert,
}
use ai_solo_coder_task_b.HttpServer.Bowstrings.{
  handle_get_bowstring_materials, handle_compare_bowstring_materials,
  handle_get_bowstring_efficiency_curve, handle_optimize_bowstring, compared_crossbow,
}
use ai_solo_coder_task_b.HttpServer.Formations.{handle_get_formation_types}
use ai_solo_coder_task_b.HttpServer.Routes.{Table, routes, dispatch, respond}

-- The routes that look at the services and change none, and the one that says that it resolves an alert.
pub data IsRead : String → Type 0 where
  crossbow_types : IsRead "/api/crossbow-types"
  sensor_data : IsRead "/api/sensor-data"
  shot_history : IsRead "/api/shot-history"
  alerts : IsRead "/api/alerts"
  accuracy : IsRead "/api/accuracy"
  resolve_alert : IsRead "/api/resolve-alert"
  system_status : IsRead "/api/system-status"
  ballistic_result : IsRead "/api/ballistic-result"
  bowstring_materials : IsRead "/api/bowstring-materials"
  bowstring_compare : IsRead "/api/bowstring-compare"
  bowstring_curve : IsRead "/api/bowstring-efficiency-curve"
  bowstring_optimize : IsRead "/api/bowstring-optimize"
  formation_types : IsRead "/api/formation-types"

-- Where the code answers, the server is the one it is said to be.
abbrev pub Leaves : {A B : Type 0} → B → Option (A × B) → Type 0
Leaves s none = Unit
Leaves s (some (a, s')) = s' ≡ s

bind-Leaves :
    {X A B : Type 0} (s : B) (r : Option X) (f : X → Option (A × B))
    → ((x : X) → Leaves s (f x))
    → Leaves s (r >>= f)
bind-Leaves s none f h = tt
bind-Leaves s (some x) f h = h x

-- What is answered with or without a value.
either-Leaves :
    {X A B : Type 0} (s : B) (o : Option X) (without : Option (A × B)) (f : X → Option (A × B))
    → Leaves s without
    → ((x : X) → Leaves s (f x))
    → Leaves s (elim o [ none ↦ without | some x ↦ f x ])
either-Leaves s none without f p h = p
either-Leaves s (some x) without f p h = h x

-- The response is built from the body alone.
body-Leaves :
    {A B C : Type 0} (s : B) (o : Option (A × B)) (f : A → C)
    → Leaves s o
    → Leaves s (o >>= (λ r. some (f r.0, r.1)))
body-Leaves s none f h = tt
body-Leaves s (some (a, s')) f h = h

module _ {W S : Type 0} ⦃d : Double W⦄ (lib : Library W) (ambient : Ambient W) (params : Params)
    (s : HttpServer W S) where
  handle_get_accuracy-Leaves :
      Leaves (increment_http_requests "/api/accuracy" s) (handle_get_accuracy lib ambient params s)
  unfolding handle_get_accuracy
  handle_get_accuracy-Leaves =
      either-Leaves _ (param (utf8 "crossbow_id") params) _ _ refl (λ v.
        either-Leaves _ s.accuracy _ _ refl (λ service. bind-Leaves _ (stoul v) _ (λ id. refl)))

  handle_get_alerts-Leaves :
      Leaves (increment_http_requests "/api/alerts" s) (handle_get_alerts lib ambient params s)
  unfolding handle_get_alerts
  handle_get_alerts-Leaves =
      either-Leaves _ s.alarm _ _ refl
        (λ service. bind-Leaves _ (size_or "crossbow_id" 0 params) _ (λ id. refl))

  handle_get_ballistic_result-Leaves :
      Leaves
        (increment_http_requests "/api/ballistic-result" s)
        (handle_get_ballistic_result lib ambient params s)
  unfolding handle_get_ballistic_result
  handle_get_ballistic_result-Leaves = either-Leaves _ s.ballistic _ _ refl (λ service.
      either-Leaves _ (param (utf8 "crossbow_id") params) _ _ refl
        (λ v. bind-Leaves _ (stoul v) _ (λ id. refl)))

  dispatch-Leaves :
      (features : Table W S) (route : String)
      → IsRead route
      → Leaves
          (increment_http_requests route s)
          (dispatch (routes lib ambient features) (utf8 route) params s)
  unfolding dispatch handle_get_formation_types handle_get_crossbow_types handle_get_sensor_data
      handle_get_shot_history handle_resolve_alert handle_get_system_status
      handle_get_bowstring_materials handle_compare_bowstring_materials
      handle_get_bowstring_efficiency_curve handle_optimize_bowstring
  dispatch-Leaves features route crossbow_types = refl
  dispatch-Leaves features route sensor_data =
      bind-Leaves _ (reply_samples lib ambient (sample_json lib) 100 params s) _ (λ body. refl)
  dispatch-Leaves features route shot_history =
      bind-Leaves _ (reply_samples lib ambient (shot_row lib) 50 params s) _ (λ body. refl)
  dispatch-Leaves features route alerts = handle_get_alerts-Leaves
  dispatch-Leaves features route accuracy = handle_get_accuracy-Leaves
  dispatch-Leaves features route resolve_alert = refl
  dispatch-Leaves features route system_status = refl
  dispatch-Leaves features route ballistic_result = handle_get_ballistic_result-Leaves
  dispatch-Leaves features route formation_types = refl
  dispatch-Leaves features route bowstring_materials = refl
  dispatch-Leaves features route bowstring_compare =
      bind-Leaves _ (compared_crossbow params s.crossbow_types) _
        (λ cb. bind-Leaves _ (double_or lib "launch_angle" (d.lit 15 0) params) _ (λ angle. refl))
  dispatch-Leaves features route bowstring_curve = refl
  dispatch-Leaves features route bowstring_optimize =
      bind-Leaves _ (double_or lib "accuracy_weight" (d.lit 6 1) params) _ (λ a.
        bind-Leaves _ (double_or lib "power_weight" (d.lit 25 2) params) _ (λ p.
          bind-Leaves _ (double_or lib "durability_weight" (d.lit 15 2) params) _ (λ q. refl)))

answered-Leaves :
    {A B : Type 0} (s s' : B) (a : A) (o : Option (A × B)) → o ≡ some (a, s') → Leaves s o → s' ≡ s
answered-Leaves s s' a o e h = subst (Leaves s) e h

module _ {W S : Type 0} ⦃d : Double W⦄ (lib : Library W) (ambient : Ambient W) where
  -- A request for one of these routes that is answered leaves every service as it was, the alerts too, and
  -- counts the request under the route.
  pub respond-reads :
      (features : Table W S) (route : String) (request response : Bytes) (s s' : HttpServer W S)
      → IsRead route
      → get_path request ≡ utf8 route
      → respond lib ambient features request s ≡ some (response, s')
      → s' ≡ increment_http_requests route s
  unfolding respond
  respond-reads features route request response s s' reads path answer =
      let params = parse_url_params request in
      answered-Leaves (increment_http_requests route s) s' response
        (respond lib ambient features request s) answer
        (rw (path, respond)
          (body-Leaves (increment_http_requests route s)
            (dispatch (routes lib ambient features) (utf8 route) params s) build_response
            (dispatch-Leaves lib ambient params s features route reads)))
