-- ===== src/Cache/OpenAi.antt =====
-- `OpenAIEmbedder` of internal/cache/embedder.go; the JSON and the HTTP client are parameters.
use velocity_gateway.Common.{
  ℕ, ◌/◌, ◌≡◌, ◌↔◌, refl, sym, ap, ◌∙◌, Text, List, [], ◌∷◌, Option, none, some, codes,
  if◌then◌else◌, ◌==◌, ==_iff, Bool-cases, inl, inr,
}
use velocity_gateway.Common.Int64.{Int64, is_nonpos}
use velocity_gateway.Cache.Vector.{Floats}
use velocity_gateway.Cache.Embedder.{Norms, normalize}

pub record OpenAiEmbedder : Type 0 where
  api_key : Text
  pub model : Text
  pub dim : Int64

unfoldable pub new_openai_embedder : Text → Text → Int64 → OpenAiEmbedder
new_openai_embedder api_key [] dim = record {
  api_key = api_key;
  model = codes "text-embedding-3-small";
  dim = if is_nonpos dim then 1536 else dim;
}
new_openai_embedder api_key (c ∷ cs) dim = record {
  api_key = api_key;
  model = c ∷ cs;
  dim = if is_nonpos dim then 1536 else dim;
}

pub record Answer : Type 0 where
  pub status_code : ℕ
  pub status : Text
  pub body : Text

-- `json.Marshal` of model, input and dimensions; the request with its body and key, which may not be
-- built, and the answer to it, which may not come; and the embeddings that a body decodes to.
pub record Service (F32 Request : Type 0) : Type 0 where
  pub marshal : Text → Text → Int64 → Text
  pub new_request : Text → Text → Option Request
  pub send : Request → Option Answer
  pub decode : Text → Option (List (List F32))

-- What `Embed` returns: a vector, or the errors in the order of the code.
pub data Embedded (F32 : Type 0) : Type 0 where
  vector : List F32 → Embedded F32
  not_built not_sent : Embedded F32
  refused : Text → Text → Embedded F32
  not_decoded empty_response : Embedded F32

module _ (m : Floats) (n : Norms m) {Request : Type 0} (service : Service m.F32 Request) where
  unfoldable of_data : Option (List (List m.F32)) → Embedded m.F32
  of_data none = not_decoded
  of_data (some []) = empty_response
  of_data (some (v ∷ _)) = vector (normalize m n v)

  unfoldable of_answer : Option Answer → Embedded m.F32
  unfolding of_data
  of_answer none = not_sent
  of_answer (some a) =
      if a.status_code / 100 == 2 then of_data (service.decode a.body) else refused a.status a.body

  unfoldable of_request : Option Request → Embedded m.F32
  unfolding of_answer
  of_request none = not_built
  of_request (some r) = of_answer (service.send r)

  unfoldable openai_embed : OpenAiEmbedder → Text → Embedded m.F32
  unfolding of_request
  openai_embed e text =
      of_request (service.new_request (service.marshal e.model text e.dim) e.api_key)

  -- The first embedding of an answer whose status is 2xx.
  pub record Delivered (e : OpenAiEmbedder) (text : Text) (v : List m.F32) : Type 0 where
    pub request : Request
    pub built : service.new_request (service.marshal e.model text e.dim) e.api_key ≡ some request
    got : Answer
    pub sent : service.send request ≡ some got
    pub accepted : got.status_code / 100 ≡ 2
    pub raw : List m.F32
    pub others : List (List m.F32)
    pub decoded : service.decode got.body ≡ some (raw ∷ others)
    pub scaled : v ≡ normalize m n raw

  of_data-vector :
      (o : Option (List (List m.F32))) (v : List m.F32)
      → of_data o ≡ vector v
      → (raw : List m.F32) × (others : List (List m.F32)) × (o ≡ some (raw ∷ others))
        × (v ≡ normalize m n raw)
  unfolding of_data
  of_data-vector none v h = cc
  of_data-vector (some []) v h = cc
  of_data-vector (some (raw ∷ others)) v h = (raw, others, refl, cc)

  of_answer-vector :
      (o : Option Answer) (v : List m.F32)
      → of_answer o ≡ vector v
      → (a : Answer) × (o ≡ some a)
        × (a.status_code / 100 ≡ 2)
        × (of_data (service.decode a.body) ≡ vector v)
  unfolding of_answer
  of_answer-vector none v h = cc
  of_answer-vector (some a) v h = elim (Bool-cases (a.status_code / 100 == 2)) [
    | inl fine ↦ (
      a,
      refl,
      (==_iff _ _).0 fine,
      sym (ap (λ b. if b then of_data (service.decode a.body) else refused a.status a.body) fine)
          ∙ h,
    )
    | inr bad ↦
        let k : refused a.status a.body ≡ vector v =
          sym (ap (λ b. if b then of_data (service.decode a.body) else refused a.status a.body) bad)
          ∙ h in
        cc
  ]

  of_request-vector :
      (o : Option Request) (v : List m.F32)
      → of_request o ≡ vector v
      → (r : Request) × (o ≡ some r) × (of_answer (service.send r) ≡ vector v)
  unfolding of_request
  of_request-vector none v h = cc
  of_request-vector (some r) v h = (r, refl, h)

  -- `Embed` returns a vector exactly when the request was built and answered with a status of 2xx, and
  -- the body decoded to at least one embedding: the vector is then the first of them, normalized, and of
  -- the length that the service chose. Else it returns an error.
  openai_embed_iff :
      (e : OpenAiEmbedder) (text : Text) (v : List m.F32)
      → (openai_embed e text ≡ vector v) ↔ Delivered e text v
  unfolding openai_embed of_request of_answer of_data
  openai_embed_iff e text v = (
    λ h.
        let (request, built, h1) =
          of_request-vector (service.new_request (service.marshal e.model text e.dim) e.api_key) v
            h in
        let (got, sent, accepted, h2) = of_answer-vector (service.send request) v h1 in
        let (raw, others, decoded, scaled) = of_data-vector (service.decode got.body) v h2 in
        record {
          request = request;
          built = built;
          got = got;
          sent = sent;
          accepted = accepted;
          raw = raw;
          others = others;
          decoded = decoded;
          scaled = scaled;
        },
    λ d.
        ap of_request d.built
        ∙ ap of_answer d.sent
        ∙ ap
            (λ b.
              if b then of_data (service.decode d.got.body) else refused d.got.status d.got.body)
            ((==_iff _ _).1 d.accepted)
        ∙ ap of_data d.decoded
        ∙ ap vector (sym d.scaled),
  )
