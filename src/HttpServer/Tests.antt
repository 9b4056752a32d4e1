-- ===== src/HttpServer/Tests.antt =====
-- A server with its services, requests for it, and the theorems at them.
use ai_solo_coder_task_b.Prelude.{ℕ, ◌≡◌, ◌++◌, refl, true, none, some, List, [], ◌∷◌, ◌≤◌, length}
use ai_solo_coder_task_b.Prelude.Int.{ℤ, pos}
use ai_solo_coder_task_b.Prelude.Bytes.{Bytes, utf8, is_free-Free}
use ai_solo_coder_task_b.Double.Fixed.{fixed}
use ai_solo_coder_task_b.BallisticSimulator.Tests.{blank, idle}
use ai_solo_coder_task_b.BallisticSimulator.Tests.{fresh as fresh_shot, sample as fresh_sample}
use ai_solo_coder_task_b.AccuracyAnalyzer.{analyze}
use ai_solo_coder_task_b.AccuracyAnalyzerService.{collect}
use ai_solo_coder_task_b.AccuracyAnalyzerService.Tests.{fresh}
use ai_solo_coder_task_b.UdpReceiver.{fill_buffer, c_string}
use ai_solo_coder_task_b.HttpServer.{
  HttpServer, Ambient, build_response, count_endpoint, increment_http_requests, crlf,
}
use ai_solo_coder_task_b.HttpServer.Json.{Json, Library}
use ai_solo_coder_task_b.HttpServer.Request.{
  Params, param, put, put_pairs, pairs_of, stoul, read_digits, read_number, get_path,
  parse_url_params,
}
use ai_solo_coder_task_b.HttpServer.Parameters.{
  request_for, put_all, IsPlain, upto, behind, parse_url_params-request,
}
use ai_solo_coder_task_b.HttpServer.Replies.{sampled, analysis_json}
use ai_solo_coder_task_b.HttpServer.Handlers.{handle_get_accuracy, handle_run_accuracy_analysis}
use ai_solo_coder_task_b.HttpServer.Routes.{dispatch, respond, serve_all}
use ai_solo_coder_task_b.BowstringMaterial.Materials.{silk}
use ai_solo_coder_task_b.BowstringMaterial.Database.{get as get_material}
use ai_solo_coder_task_b.HttpServer.Bowstrings.{curves_json}
use ai_solo_coder_task_b.HttpServer.Material.{curve_path, respond-last_material}
use ai_solo_coder_task_b.HttpServer.Points.{sampled-length}
use ai_solo_coder_task_b.HttpServer.Exceptions.{accuracy, serve_all-uncaught}
use ai_solo_coder_task_b.HttpServer.Reads
use ai_solo_coder_task_b.HttpServer.Reads.{respond-reads}
use ai_solo_coder_task_b.HttpServer.Analysis.{
  with, analysis_now, requested, handle_run_accuracy_analysis-published,
}

abbrev m : ℕ → ℤ
m n = fixed.lit n 0

-- A `dump` that keeps nothing but its length.
abbrev lib : Library ℤ
lib = record { stod = λ v. none; dump = λ j. utf8 "{}"; format_timestamp = λ t. "now" }

abbrev ambient : Ambient ℤ
ambient = record {
  built_in = [];
  blank = blank;
  fresh = fresh_shot;
  fresh_sample = fresh_sample 0 0;
  no_analysis = analyze 0 "" 0 [];
  no_result = blank;
  now = 5;
  lowest = fixed.neg (m 1_000_000);
  before_analysis = collect (fresh_sample 1 9);
  during_analysis = λ a. a;
  after_analysis = λ a. a;
}

abbrev server : HttpServer ℤ ℕ
server = record {
  port = pos 8081;
  storage = record { connected = true; crossbow_types = []; sensor_data = []; alerts = [] };
  ballistic = some idle;
  accuracy = some fresh;
  alarm = none;
  crossbow_types = none;
  running = true;
  server_fd = pos 3;
  http_requests = [];
}

abbrev get : Bytes → Bytes
get target = utf8 "GET " ++ (target ++ (utf8 " HTTP/1.1" ++ (crlf ++ crlf)))

abbrev version : Bytes
version = utf8 "HTTP/1.1" ++ (crlf ++ crlf)

abbrev id_param : Bytes × Bytes
id_param = (utf8 "crossbow_id", utf8 "1")

abbrev material_param : Bytes × Bytes
material_param = (utf8 "material", utf8 "silk")

id_param-IsPlain : IsPlain id_param
id_param-IsPlain = record {
  key_equals = is_free-Free b'=' (utf8 "crossbow_id") refl;
  key_and = is_free-Free b'&' (utf8 "crossbow_id") refl;
  val_and = is_free-Free b'&' (utf8 "1") refl;
  key_blank = is_free-Free b' ' (utf8 "crossbow_id") refl;
  val_blank = is_free-Free b' ' (utf8 "1") refl;
}

material_param-IsPlain : IsPlain material_param
material_param-IsPlain = record {
  key_equals = is_free-Free b'=' (utf8 "material") refl;
  key_and = is_free-Free b'&' (utf8 "material") refl;
  val_and = is_free-Free b'&' (utf8 "silk") refl;
  key_blank = is_free-Free b' ' (utf8 "material") refl;
  val_blank = is_free-Free b' ' (utf8 "silk") refl;
}

hemp_param-IsPlain : IsPlain (utf8 "material", utf8 "hemp")
hemp_param-IsPlain = record {
  key_equals = is_free-Free b'=' (utf8 "material") refl;
  key_and = is_free-Free b'&' (utf8 "material") refl;
  val_and = is_free-Free b'&' (utf8 "hemp") refl;
  key_blank = is_free-Free b' ' (utf8 "material") refl;
  val_blank = is_free-Free b' ' (utf8 "hemp") refl;
}

abbrev compare_path : Bytes
compare_path = utf8 "/api/bowstring-compare"

abbrev compare_request : Bytes
compare_request = request_for (utf8 "GET") compare_path (id_param ∷ []) material_param version

parse_url_params-request_example :
    (get_path compare_request ≡ compare_path)
    × (parse_url_params compare_request
        ≡ put_pairs (pairs_of (behind version)) (
            put
              (utf8 "material")
              (utf8 "silk" ++ (b' ' ∷ upto version))
              (put_all (id_param ∷ []) [])))
parse_url_params-request_example =
    parse_url_params-request (utf8 "GET") compare_path (id_param ∷ []) material_param version
      (is_free-Free b' ' (utf8 "GET") refl) (is_free-Free b'?' (utf8 "GET") refl)
      (is_free-Free b' ' compare_path refl) (is_free-Free b'?' compare_path refl)
      (id_param-IsPlain, tt) material_param-IsPlain

abbrev three : List ℕ
three = 1 ∷ 2 ∷ 3 ∷ []

sampled-length_example : length (sampled three) ≤ 400
sampled-length_example = sampled-length three

abbrev faulty : Bytes
faulty = get (utf8 "/api/accuracy?crossbow_id=qin")

serve_all-uncaught_example : serve_all lib ambient [] (faulty ∷ []) server ≡ none
unfolding fill_buffer c_string get_path parse_url_params param stoul read_digits read_number
serve_all-uncaught_example =
    serve_all-uncaught lib ambient [] "/api/accuracy" faulty b'G'
      (utf8 "ET /api/accuracy?crossbow_id=qin HTTP/1.1" ++ (crlf ++ crlf)) []
      (utf8 "qin HTTP/1.1" ++ (crlf ++ crlf)) server fresh idle accuracy refl refl refl refl refl
      refl

abbrev status_request : Bytes
status_request = get (utf8 "/api/accuracy?crossbow_id=1")

abbrev id_only : Params
id_only = (utf8 "crossbow_id", utf8 "1") ∷ []

handle_run_accuracy_analysis-published_example :
    (handle_run_accuracy_analysis lib ambient id_only (with lib ambient fresh server)
      ≡ some (
        lib.dump (analysis_json (analysis_now ambient 1 fresh)),
        requested lib ambient 1 fresh server,
      ))
    × (handle_get_accuracy lib ambient id_only (requested lib ambient 1 fresh server)
        ≡ some (
          lib.dump (analysis_json (analysis_now ambient 1 fresh)),
          increment_http_requests "/api/accuracy" (requested lib ambient 1 fresh server),
        ))
unfolding param stoul read_number read_digits
handle_run_accuracy_analysis-published_example =
    handle_run_accuracy_analysis-published lib ambient id_only id_only (utf8 "1") (utf8 "1") 1 fresh
      server refl refl refl refl refl

-- The server when it has answered one request for an accuracy.
abbrev counted : HttpServer ℤ ℕ
counted = record server { http_requests = ("/api/accuracy", 1) ∷ [] }

answer : respond lib ambient [] status_request server ≡ some (build_response (utf8 "{}"), counted)
unfolding respond dispatch get_path parse_url_params param stoul read_number read_digits
    handle_get_accuracy increment_http_requests count_endpoint
answer = refl

respond-reads_example : counted ≡ increment_http_requests "/api/accuracy" server
unfolding get_path
respond-reads_example =
    respond-reads lib ambient [] "/api/accuracy" status_request (build_response (utf8 "{}")) server
      counted Reads.accuracy refl answer

-- The material of the answer is silk's, though the request names hemp.
respond-last_material_example :
    (j : Json ℤ) × (curves_json {W = ℤ} ⦃d = fixed⦄ (get_material {W = ℤ} ⦃d = fixed⦄ silk)
      ≡ some j)
    × (respond {W = ℤ} {S = ℕ} ⦃d = fixed⦄ lib ambient []
          (request_for
            (utf8 "GET")
            curve_path
            (id_param ∷ [])
            (utf8 "material", utf8 "hemp")
            version)
          server
        ≡ some (
          build_response (lib.dump j),
          increment_http_requests "/api/bowstring-efficiency-curve" server,
        ))
respond-last_material_example =
    respond-last_material fixed lib ambient [] (utf8 "GET") (id_param ∷ []) (utf8 "hemp") version
      server (is_free-Free b' ' (utf8 "GET") refl) (is_free-Free b'?' (utf8 "GET") refl)
      (id_param-IsPlain, tt) hemp_param-IsPlain (is_free-Free b'&' version refl)
