-- ===== src/HttpServer/Parameters.antt =====
-- What the server reads from a request with parameters: the path, and the parameters.
use ai_solo_coder_task_b.Prelude.{
  ℕ, ◌≡◌, refl, ap, sym, ◌∙◌, false, List, [], ◌∷◌, ◌++◌, append_assoc, ◌==◌, if◌then◌else◌,
  Bool-cases, inl, inr,
}
use ai_solo_coder_task_b.Prelude.Bytes.{Bytes, split_at-found, Free, append-Free}
use ai_solo_coder_task_b.HttpServer.Request.{
  Params, put, onto_first, pairs_of, put_pair, put_pairs, parse_url_params, get_path,
}

-- A parameter as it is written, and what is not to stand in it.
abbrev pub written : Bytes × Bytes → Bytes
written (key, val) = key ++ (b'=' ∷ val)

pub record IsPlain (p : Bytes × Bytes) : Type 0 where
  pub key_equals : Free b'=' p.0
  pub key_and : Free b'&' p.0
  pub val_and : Free b'&' p.1
  pub key_blank : Free b' ' p.0
  pub val_blank : Free b' ' p.1

-- The parameters before the last one, each with the '&' behind it.
abbrev pub leading : List (Bytes × Bytes) → Bytes
leading [] = []
leading (p ∷ ps) = written p ++ (b'&' ∷ leading ps)

abbrev pub ArePlain : List (Bytes × Bytes) → Type 0
ArePlain [] = Unit
ArePlain (p ∷ ps) = IsPlain p × ArePlain ps

abbrev pub put_all : List (Bytes × Bytes) → Params → Params
put_all [] params = params
put_all (p ∷ ps) params = put_all ps (put p.0 p.1 params)

-- A request with parameters; `tail` is what follows the blank behind them.
abbrev pub request_for : Bytes → Bytes → List (Bytes × Bytes) → Bytes × Bytes → Bytes → Bytes
request_for verb path ps last tail =
    verb ++ (b' ' ∷ (path ++ (b'?' ∷ (leading ps ++ (written last ++ (b' ' ∷ tail))))))

-- What is in front of the first '&' of a text, and what is behind it.
abbrev pub upto : Bytes → Bytes
upto [] = []
upto (b ∷ s) = let rest = upto s in if b == b'&' then [] else b ∷ rest

abbrev pub behind : Bytes → Bytes
behind [] = []
behind (b ∷ s) = let rest = behind s in if b == b'&' then s else rest

pairs_of-cut : (s t : Bytes) → Free b'&' s → pairs_of (s ++ (b'&' ∷ t)) ≡ s ∷ pairs_of t
unfolding pairs_of
pairs_of-cut [] t h = refl
pairs_of-cut (b ∷ s) t h = rw (h.0) (ap (onto_first b) (pairs_of-cut s t h.1))

pairs_of-next :
    (b : ℕ) (s : Bytes) → (b == b'&') ≡ false → pairs_of (b ∷ s) ≡ onto_first b (pairs_of s)
unfolding pairs_of
pairs_of-next b s h = rw h refl

upto-next : (b : ℕ) (s : Bytes) → (b == b'&') ≡ false → upto (b ∷ s) ≡ b ∷ upto s
upto-next b s h = rw h refl

behind-next : (b : ℕ) (s : Bytes) → (b == b'&') ≡ false → behind (b ∷ s) ≡ behind s
behind-next b s h = rw h refl

-- A part that is begun goes on to the first '&'.
pairs_of-begun :
    (b : ℕ) (s tail : Bytes)
    → Free b'&' (b ∷ s)
    → pairs_of (b ∷ (s ++ tail)) ≡ (b ∷ (s ++ upto tail)) ∷ pairs_of (behind tail)
unfolding pairs_of
pairs_of-begun b [] [] h = rw (h.0) refl
pairs_of-begun b [] (c ∷ tail) h = elim (Bool-cases (c == b'&')) [
  | inl t ↦ rw (h.0, t) refl
  | inr f ↦
      pairs_of-next b (c ∷ tail) h.0
      ∙ ap (onto_first b) (pairs_of-begun c [] tail (f, tt))
      ∙ ap (λ l. (b ∷ l) ∷ pairs_of (behind tail)) (sym (upto-next c tail f))
      ∙ ap (λ l. (b ∷ upto (c ∷ tail)) ∷ pairs_of l) (sym (behind-next c tail f))
]
pairs_of-begun b (c ∷ s) tail h = rw (h.0) (ap (onto_first b) (pairs_of-begun c s tail h.1))

-- A part with an '=' in it is not empty.
pairs_of-written :
    (k v tail : Bytes)
    → Free b'&' k
    → Free b'&' v
    → pairs_of (written (k, v) ++ tail) ≡ written (k, v ++ upto tail) ∷ pairs_of (behind tail)
pairs_of-written [] v tail p q = pairs_of-begun b'=' v tail (refl, q)
pairs_of-written (b ∷ k) v tail p q =
    pairs_of-begun b (k ++ (b'=' ∷ v)) tail (append-Free b'&' (b ∷ k) (b'=' ∷ v) p (refl, q))
    ∙ ap (λ t. (b ∷ t) ∷ pairs_of (behind tail)) (append_assoc k (b'=' ∷ v) (upto tail))

put_pair-written :
    (p : Bytes × Bytes) (params : Params)
    → Free b'=' p.0
    → put_pair (written p) params ≡ put p.0 p.1 params
unfolding put_pair
put_pair-written (k, v) params h = rw (split_at-found b'=' k v h, put_pair) refl

written-Free :
    (c : ℕ) (p : Bytes × Bytes) → (b'=' == c) ≡ false → Free c p.0 → Free c p.1 → Free c (written p)
written-Free c (k, v) e p q = append-Free c k (b'=' ∷ v) p (e, q)

put_pairs-leading :
    (ps : List (Bytes × Bytes)) (k v tail : Bytes) (params : Params)
    → ArePlain ps
    → Free b'=' k
    → Free b'&' k
    → Free b'&' v
    → put_pairs (pairs_of (leading ps ++ (written (k, v) ++ tail))) params
      ≡ put_pairs (pairs_of (behind tail)) (put k (v ++ upto tail) (put_all ps params))
unfolding put_pairs
put_pairs-leading [] k v tail params plain e p q =
    ap (λ l. put_pairs l params) (pairs_of-written k v tail p q)
    ∙ ap (put_pairs (pairs_of (behind tail))) (put_pair-written (k, v ++ upto tail) params e)
put_pairs-leading (p' ∷ ps) k v tail params plain e p q =
    let first = plain.0 in
    let rest = leading ps ++ (written (k, v) ++ tail) in
    ap (λ t. put_pairs (pairs_of t) params)
      (append_assoc (written p') (b'&' ∷ leading ps) (written (k, v) ++ tail))
    ∙ ap (λ l. put_pairs l params)
        (pairs_of-cut (written p') rest (written-Free b'&' p' refl first.key_and first.val_and))
    ∙ ap (put_pairs (pairs_of rest)) (put_pair-written p' params first.key_equals)
    ∙ put_pairs-leading ps k v tail (put p'.0 p'.1 params) plain.1 e p q

leading-Free : (ps : List (Bytes × Bytes)) → ArePlain ps → Free b' ' (leading ps)
leading-Free [] h = tt
leading-Free (p ∷ ps) h =
    append-Free b' ' (written p) (b'&' ∷ leading ps)
      (written-Free b' ' p refl h.0.key_blank h.0.val_blank) (refl, leading-Free ps h.1)

-- The path in front of its parameters.
get_path-target :
    (verb path query tail : Bytes)
    → Free b' ' verb
    → Free b' ' path
    → Free b'?' path
    → Free b' ' query
    → get_path (verb ++ (b' ' ∷ ((path ++ (b'?' ∷ query)) ++ (b' ' ∷ tail)))) ≡ path
unfolding get_path
get_path-target verb path query tail v p m q =
    rw
      (
        split_at-found b' ' verb ((path ++ (b'?' ∷ query)) ++ (b' ' ∷ tail)) v,
        split_at-found b' ' (path ++ (b'?' ∷ query)) tail
            (append-Free b' ' path (b'?' ∷ query) p (refl, q)),
        split_at-found b'?' path query m,
        get_path,
      )
      refl

parse_url_params-query :
    (before query : Bytes)
    → Free b'?' before
    → parse_url_params (before ++ (b'?' ∷ query)) ≡ put_pairs (pairs_of query) []
unfolding parse_url_params
parse_url_params-query before query h =
    rw (split_at-found b'?' before query h, parse_url_params) refl

-- Of a request whose verb and path have no blank and no '?', with parameters that have no '&' and no blank,
-- nor an '=' in the key, the server reads the path, and the parameters in their order, but for the last: its value goes on with the blank and the rest of the request up to the first '&' in it, or to its
-- end, and what is behind that '&' is read as further parameters, which may replace those before.
pub parse_url_params-request :
    (verb path : Bytes) (ps : List (Bytes × Bytes)) (last : Bytes × Bytes) (tail : Bytes)
    → Free b' ' verb
    → Free b'?' verb
    → Free b' ' path
    → Free b'?' path
    → ArePlain ps
    → IsPlain last
    → (get_path (request_for verb path ps last tail) ≡ path)
      × (parse_url_params (request_for verb path ps last tail)
          ≡ put_pairs
              (pairs_of (behind tail))
              (put last.0 (last.1 ++ (b' ' ∷ upto tail)) (put_all ps [])))
parse_url_params-request verb path ps (k, v) tail verb_blank verb_mark path_blank path_mark plain
      last =
    let query = leading ps ++ written (k, v) in
    let rest = b' ' ∷ tail in
    (
      ap (λ t. get_path (verb ++ (b' ' ∷ t)))
            (ap (λ t. path ++ (b'?' ∷ t)) (sym (append_assoc (leading ps) (written (k, v)) rest))
              ∙ sym (append_assoc path (b'?' ∷ query) rest))
          ∙ get_path-target verb path query tail verb_blank path_blank path_mark (
              append-Free b' ' (leading ps) (written (k, v)) (leading-Free ps plain)
                (written-Free b' ' (k, v) refl last.key_blank last.val_blank)),
      ap parse_url_params (
            sym (append_assoc verb (b' ' ∷ path) (b'?' ∷ (leading ps ++ (written (k, v) ++ rest)))))
          ∙ parse_url_params-query (verb ++ (b' ' ∷ path)) (leading ps ++ (written (k, v) ++ rest))
              (append-Free b'?' verb (b' ' ∷ path) verb_mark (refl, path_mark))
          ∙ put_pairs-leading ps k v rest [] plain last.key_equals last.key_and last.val_and,
    )
