-- ===== src/HttpServer/Material.antt =====
-- The material that a request to backend/src/http_server.cpp names last.
use Prim.Native.String.{String}
use ai_solo_coder_task_b.Prelude.{
  ◌≡◌, refl, ap, ◌∙◌, inl, inr, Bool-cases, Bool, true, false, ◌&&◌, none, some, List, [], ◌∷◌,
  ◌++◌, arith, ◌>>=◌,
}
use ai_solo_coder_task_b.Prelude.Map.{find, insert}
use ai_solo_coder_task_b.Prelude.Bytes.{Bytes, utf8, ◌=ᵇ◌, =ᵇ-refl, Free, is_free, is_free-Free}
use ai_solo_coder_task_b.Double.{Double}
use ai_solo_coder_task_b.BowstringMaterial.Materials.{
  BowstringMaterial, BowstringMaterialType, silk, unknown_material,
}
use ai_solo_coder_task_b.BowstringMaterial.Database.{
  materials, get, get_by_name, type_of_name, name_to_type,
}
use ai_solo_coder_task_b.HttpServer.Request.{
  Params, param, put, put_pairs, pairs_of, parse_url_params, get_path,
}
use ai_solo_coder_task_b.HttpServer.Parameters.{
  put_all, request_for, upto, behind, IsPlain, ArePlain, parse_url_params-request,
}
use ai_solo_coder_task_b.HttpServer.{HttpServer, Ambient, build_response, increment_http_requests}
use ai_solo_coder_task_b.HttpServer.Json.{Json, Library}
use ai_solo_coder_task_b.HttpServer.Bowstrings.{
  chosen_material, curves_json, handle_get_bowstring_efficiency_curve,
}
use ai_solo_coder_task_b.HttpServer.Routes.{Table, routes, dispatch, respond}

-- What has been put is found.
param-put : (key val : Bytes) (params : Params) → param key (put key val params) ≡ some val
unfolding param put
param-put key val [] = rw (=ᵇ-refl key) refl
param-put key val ((k, v) ∷ params) = elim (Bool-cases (k =ᵇ key)) [
  | inl t ↦ rw t (rw (=ᵇ-refl key) refl)
  | inr f ↦ rw f (rw f (param-put key val params))
]

-- A text with no blank is not one with a blank.
blank-differs : (s v tail : Bytes) → Free b' ' s → (s =ᵇ (v ++ (b' ' ∷ tail))) ≡ false
blank-differs [] [] tail h = refl
blank-differs [] (c ∷ v) tail h = refl
blank-differs (b ∷ s) [] tail h = rw (h.0) refl
blank-differs (b ∷ s) (c ∷ v) tail h = ground (arith, blank-differs s v tail h.1)

abbrev are_free : List (String × BowstringMaterialType) → Bool
are_free [] = true
are_free ((name, t) ∷ names) = is_free b' ' (utf8 name) && are_free names

type_of_name-blank :
    (names : List (String × BowstringMaterialType)) (v tail : Bytes)
    → are_free names ≡ true
    → type_of_name (v ++ (b' ' ∷ tail)) names ≡ none
unfolding type_of_name
type_of_name-blank [] v tail h = refl
type_of_name-blank ((name, t) ∷ names) v tail h = ground (
  arith,
  blank-differs (utf8 name) v tail (is_free-Free b' ' (utf8 name) (ground arith)),
  type_of_name-blank names v tail (ground arith),
)

module _ {W : Type 0} ⦃d : Double W⦄ where
  get_by_name-blank :
      (v tail : Bytes) → get_by_name {W = W} ⦃d = d⦄ (v ++ (b' ' ∷ tail)) ≡ unknown_material
  unfolding get_by_name get materials find insert
  get_by_name-blank v tail = rw (type_of_name-blank name_to_type v tail refl, get_by_name) refl

  chosen_material-blank :
      (params : Params) (v tail : Bytes)
      → param (utf8 "material") params ≡ some (v ++ (b' ' ∷ tail))
      → chosen_material {W = W} ⦃d = d⦄ params ≡ get silk
  unfolding chosen_material
  chosen_material-blank params v tail given =
      rw (given, chosen_material) (rw (get_by_name-blank v tail, chosen_material) refl)

-- A text without '&' is all in front of the first one.
upto-Free : (s : Bytes) → Free b'&' s → upto s ≡ s
upto-Free [] h = refl
upto-Free (b ∷ s) h = rw (h.0) (ap (λ t. b ∷ t) (upto-Free s h.1))

behind-Free : (s : Bytes) → Free b'&' s → behind s ≡ []
behind-Free [] h = refl
behind-Free (b ∷ s) h = rw (h.0) (behind-Free s h.1)

put_pairs-Free :
    (tail : Bytes) (params : Params)
    → Free b'&' tail
    → put_pairs (pairs_of (behind tail)) params ≡ params
unfolding put_pairs pairs_of
put_pairs-Free tail params h = ap (λ t. put_pairs (pairs_of t) params) (behind-Free tail h)

-- The parameters of a request whose last one is named `key`, with no '&' behind it.
param-last :
    (verb path key : Bytes) (ps : List (Bytes × Bytes)) (val tail : Bytes)
    → Free b' ' verb
    → Free b'?' verb
    → Free b' ' path
    → Free b'?' path
    → ArePlain ps
    → IsPlain (key, val)
    → Free b'&' tail
    → param key (parse_url_params (request_for verb path ps (key, val) tail))
      ≡ some (val ++ (b' ' ∷ tail))
param-last verb path key ps val tail p q r t plain last more =
    let given = put key (val ++ (b' ' ∷ upto tail)) (put_all ps []) in
    ap (param key) (parse_url_params-request verb path ps (key, val) tail p q r t plain last).1
    ∙ ap (param key) (put_pairs-Free tail given more)
    ∙ param-put key (val ++ (b' ' ∷ upto tail)) (put_all ps [])
    ∙ ap (λ t. some (val ++ (b' ' ∷ t))) (upto-Free tail more)

abbrev pub curve_path : Bytes
curve_path = utf8 "/api/bowstring-efficiency-curve"

module _ {W : Type 0} ⦃d : Double W⦄ where
  -- The curves of a material can always be computed: the numbers of their points are not negative.
  some_curves : (m : BowstringMaterial W) → (j : Json W) × (curves_json m ≡ some j)
  unfolding curves_json
  some_curves m = (_, refl)

module _ {W S : Type 0} ⦃d : Double W⦄ (lib : Library W) (ambient : Ambient W) where
  handle-curve :
      (params : Params) (s : HttpServer W S) (m : BowstringMaterial W) (j : Json W)
      → chosen_material params ≡ m
      → curves_json m ≡ some j
      → handle_get_bowstring_efficiency_curve lib ambient params s
        ≡ some (lib.dump j, increment_http_requests "/api/bowstring-efficiency-curve" s)
  unfolding handle_get_bowstring_efficiency_curve
  handle-curve params s m j chosen e =
      ap
        (λ o.
          o >>= λ k. some (lib.dump k, increment_http_requests "/api/bowstring-efficiency-curve" s))
        (ap curves_json chosen ∙ e)

  dispatch-curve :
      (features : Table W S) (params : Params) (s : HttpServer W S)
      → dispatch (routes lib ambient features) curve_path params s
        ≡ handle_get_bowstring_efficiency_curve lib ambient params s
  unfolding dispatch
  dispatch-curve features params s = refl

  respond-dispatch :
      (features : Table W S) (request path : Bytes) (s s' : HttpServer W S) (body : Bytes)
      → get_path request ≡ path
      → dispatch (routes lib ambient features) path (parse_url_params request) s ≡ some (body, s')
      → respond lib ambient features request s ≡ some (build_response body, s')
  unfolding respond
  respond-dispatch features request path s s' body h e =
      ap (λ o. o >>= λ (body', s''). some (build_response body', s''))
        (ap (λ p. dispatch (routes lib ambient features) p (parse_url_params request) s) h ∙ e)

module _ {W S : Type 0} (d : Double W) (lib : Library W) (ambient : Ambient W)
    (features : Table W S) where
  -- A request for the curves of a material that it names in its last parameter, written plainly (no blank or
  -- '?' in the verb, no '&' or blank in the parameters and no '=' in their keys), with no '&' in the rest of
  -- the request behind it, is answered with the curves of silk, whatever material it names: the value goes
  -- on with the blank behind it, and no name in the database has a blank.
  pub respond-last_material :
      (verb : Bytes) (ps : List (Bytes × Bytes)) (material tail : Bytes) (s : HttpServer W S)
      → Free b' ' verb
      → Free b'?' verb
      → ArePlain ps
      → IsPlain (utf8 "material", material)
      → Free b'&' tail
      → (j : Json W) × (curves_json {W = W} ⦃d = d⦄ (get {W = W} ⦃d = d⦄ silk) ≡ some j)
        × (respond {W = W} {S = S} ⦃d = d⦄ lib ambient features
              (request_for verb curve_path ps (utf8 "material", material) tail)
              s
            ≡ some (
              build_response (lib.dump j),
              increment_http_requests "/api/bowstring-efficiency-curve" s,
            ))
  respond-last_material verb ps material tail s p q plain last more =
      let request = request_for verb curve_path ps (utf8 "material", material) tail in
      let path_blank = is_free-Free b' ' curve_path refl in
      let path_mark = is_free-Free b'?' curve_path refl in
      let found =
        param-last verb curve_path (utf8 "material") ps material tail p q path_blank path_mark plain
          last more in
      let (j, e) = some_curves ⦃d = d⦄ (get ⦃d = d⦄ silk) in
      let read =
        parse_url_params-request verb curve_path ps (utf8 "material", material) tail p q path_blank
          path_mark plain last in
      (
        j,
        e,
        respond-dispatch ⦃d = d⦄ lib ambient features request curve_path s
            (increment_http_requests "/api/bowstring-efficiency-curve" s) (lib.dump j) read.0
            (dispatch-curve ⦃d = d⦄ lib ambient features (parse_url_params request) s
              ∙ handle-curve ⦃d = d⦄ lib ambient (parse_url_params request) s (get ⦃d = d⦄ silk) j
                  (chosen_material-blank ⦃d = d⦄ (parse_url_params request) material tail found) e),
      )
