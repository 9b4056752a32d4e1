-- ===== src/HttpServer/Formations.antt =====
-- The handler of backend/src/http_server.cpp that lists the formations.
use ai_solo_coder_task_b.Prelude.{some, List, [], ◌∷◌, map, length}
use ai_solo_coder_task_b.Double.{Double}
use ai_solo_coder_task_b.FormationSimulator.Designs.{FormationDesign, to_int}
use ai_solo_coder_task_b.FormationSimulator.{list_all}
use ai_solo_coder_task_b.HttpServer.Json.{Json, text, num, array, object, nat, Library}
use ai_solo_coder_task_b.HttpServer.Request.{Params}
use ai_solo_coder_task_b.HttpServer.Handlers.{Reply}
use ai_solo_coder_task_b.HttpServer.{HttpServer, increment_http_requests}

module _ {W : Type 0} where
  unfoldable pub formation_json : FormationDesign W → Json W
  formation_json f = object (
      ("type", nat (to_int f.formation))
      ∷ ("name", text f.name)
      ∷ ("description", text f.description)
      ∷ ("historical_origin", text f.historical_origin)
      ∷ (
        "unit_counts",
        object (
            ("min", nat f.min_crossbows)
            ∷ ("optimal", nat f.optimal_crossbows)
            ∷ ("max", nat f.max_crossbows)
            ∷ []),
      )
      ∷ (
        "spacing_m",
        object (
            ("frontage_per_unit", num f.frontage_per_unit_m)
            ∷ ("depth_per_unit", num f.depth_per_unit_m)
            ∷ ("min_safety", num f.minimum_safety_spacing_m)
            ∷ []),
      )
      ∷ ("best_range_m", num f.best_suited_range_m)
      ∷ (
        "utility_scores",
        object (
            ("defensive", num f.defensive_utility)
            ∷ ("offensive", num f.offensive_utility)
            ∷ ("siege", num f.siege_utility)
            ∷ ("mobility", num f.mobility_score)
            ∷ ("command_control", num f.command_and_control_score)
            ∷ []),
      )
      ∷ [])

module _ {W S : Type 0} ⦃d : Double W⦄ (lib : Library W) where
  unfoldable pub handle_get_formation_types : Params → HttpServer W S → Reply W S
  unfolding increment_http_requests list_all formation_json
  handle_get_formation_types params s =
      let formations : List (FormationDesign W) = list_all in
      some (
        lib.dump (
            object (
              ("formations", array (map formation_json formations))
              ∷ ("count", nat (length formations))
              ∷ [])),
        increment_http_requests "/api/formation-types" s,
      )
