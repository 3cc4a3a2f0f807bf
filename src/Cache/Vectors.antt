-- ===== src/Cache/Vectors.antt =====
-- The vectors of `HashingEmbedder.Embed`, internal/cache/embedder.go: their length, their entries, and
-- the texts that have the same one.
use velocity_gateway.Common.{
  ◌+◌, ◌^◌, ◌≤◌, ◌<◌, ◌≡◌, refl, ap, ◌∙◌, true, false, Text, List, [], ◌∷◌, none, some, length,
  length-map, length-modify, modify, repeated, repeated-table, table, table_alike, length-repeated,
  if_cases, arith,
}
use velocity_gateway.Common.Int64.{Int64}
use velocity_gateway.Cache.Vector.{Floats, dot_from}
use velocity_gateway.Cache.Embedder.{
  Norms, HashingEmbedder, new_hashing_embedder, tokenize, bucket_of, sign_of, bump, count_tokens,
  normalize, embed,
}
use velocity_gateway.Cache.Hashing.{
  Exact, votes, new_hashing_embedder_pos, count_token_lem, count_tokens-tally,
}

module _ (m : Floats) (n : Norms m) where
  length-normalize : (v : List m.F32) → length (normalize m n v) ≡ length v
  unfolding normalize
  length-normalize v =
      let norm = n.narrow (n.sqrt (dot_from m m.zero v v)) in
      if_cases (λ (l : List m.F32). length l ≡ length v) (n.is_pos norm)
        (λ _. length-map (λ x. n.div x norm) v) (λ _. refl)

  count_tokens_total :
      (dim : HashingEmbedder) (toks : List Text) (v : List m.F32)
      → 0 < dim
      → length v ≡ dim
      → (w : List m.F32) × (count_tokens m n dim toks v ≡ some w) × (length w ≡ dim)
  unfolding count_tokens
  count_tokens_total dim [] v pos h = (v, refl, h)
  count_tokens_total dim (t ∷ ts) v pos h =
      let b = bucket_of dim t in
      let v' = modify v b (bump m n (b, sign_of t)) in
      let (w, e, len) = count_tokens_total dim ts v' pos (length-modify v b _ ∙ h) in
      (
        w,
        ap (λ o. elim o [ none ↦ none | some u ↦ count_tokens m n dim ts u ])
              (count_token_lem m n dim pos t v h)
            ∙ e,
        len,
      )

  -- `Embed` of an embedder that `NewHashingEmbedder` returns never indexes out of range, whatever the
  -- dimension it was asked for and whatever the text, and the vector has the embedder's dimension.
  pub embed_total :
      (asked : Int64) (text : Text)
      → (v : List m.F32) × (embed m n (new_hashing_embedder asked) text ≡ some v)
        × (length v ≡ new_hashing_embedder asked)
  unfolding embed
  embed_total asked text =
      let dim = new_hashing_embedder asked in
      let (w, e, len) =
        count_tokens_total dim (tokenize text) (repeated dim n.zero)
          (new_hashing_embedder_pos asked) (length-repeated dim n.zero) in
      (
        normalize m n w,
        ap (λ o. elim o [ none ↦ none | some v ↦ some (normalize m n v) ]) e,
        length-normalize w ∙ len,
      )

  module _ (laws : Exact m n) where
    -- The votes for each bucket less those against it.
    abbrev pub balance : HashingEmbedder → List Text → List m.F32
    balance dim toks =
        table 0 dim (λ i. laws.value (votes dim true i toks) (votes dim false i toks))

    -- For a text of at most 2^24 tokens, as long as float32 is exact on whole numbers below 2^24, `Embed`
    -- normalizes the vector whose entry for a bucket is the number of tokens hashed to the bucket with a
    -- positive sign less the number of those hashed to it with a negative sign.
    pub embed_counts :
        (asked : Int64) (text : Text)
        → length (tokenize text) ≤ 2 ^ 24
        → embed m n (new_hashing_embedder asked) text
          ≡ some (normalize m n (balance (new_hashing_embedder asked) (tokenize text)))
    unfolding embed
    embed_counts asked text small =
        let dim = new_hashing_embedder asked in
        let toks = tokenize text in
        let start : repeated dim n.zero ≡ table 0 dim (λ _. laws.value 0 0) =
          ap (repeated dim) laws.zero-value ∙ repeated-table 0 dim (laws.value 0 0) in
        ap (λ o. elim o [ none ↦ none | some v ↦ some (normalize m n v) ])
          (ap (count_tokens m n dim toks) start
            ∙ count_tokens-tally m n dim (new_hashing_embedder_pos asked) laws toks (λ _. 0)
                (λ _. 0) (λ i. omega (arith, small))
            ∙ ap some (
                table_alike 0 dim _
                  (λ i. laws.value (votes dim true i toks) (votes dim false i toks))
                  (λ i _.
                    ap (λ k. laws.value k (votes dim false i toks + 0)) (omega arith)
                    ∙ ap (laws.value (votes dim true i toks)) (omega arith))))
