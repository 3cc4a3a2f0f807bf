-- ===== src/Cache/Hashing.antt =====
-- What `HashingEmbedder.Embed` of internal/cache/embedder.go computes.
use native.Mathlib.Nat.{mod-lt}
use velocity_gateway.Common.{
  ℕ, suc, ◌+◌, ◌^◌, ◌≤◌, ◌<◌, ◌≡◌, ◌≢◌, sym, ap, ◌∙◌, Bool, true, false, ◌&&◌, not, Text, List, [],
  ◌∷◌, none, some, length, get_elem?_total, modify, table, length-table, table_alike,
  modify-table_0, if◌then◌else◌, ◌==◌, ==_iff, ==_refl, inl, inr, Bool-cases, arith,
}
use velocity_gateway.Common.Int64.{Int64}
use velocity_gateway.Cache.Vector.{Floats}
use velocity_gateway.Cache.Embedder.{
  Norms, HashingEmbedder, new_hashing_embedder, bucket_of, sign_of, hash_token, bump, count_token,
  count_tokens,
}

-- How many tokens have the bucket and the sign.
unfoldable pub votes : Int64 → Bool → ℕ → List Text → ℕ
votes dim s i [] = 0
votes dim s i (t ∷ ts) =
    let rest = votes dim s i ts in
    if (bucket_of dim t == i) && (if sign_of t then s else not s) then suc rest else rest

-- float32 is exact on whole numbers below 2^24: `value a b` is a - b.
pub record Exact (m : Floats) (n : Norms m) : Type 0 where
  pub value : ℕ → ℕ → m.F32
  pub zero-value : n.zero ≡ value 0 0
  pub add-value : (a b : ℕ) → a + b < 2 ^ 24 → n.add (value a b) n.one ≡ value (suc a) b
  pub sub-value : (a b : ℕ) → a + b < 2 ^ 24 → n.sub (value a b) n.one ≡ value a (suc b)

bucket_of_range : (dim : Int64) (tok : Text) → 0 < dim → bucket_of dim tok < dim
unfolding bucket_of
bucket_of_range dim tok h = mod-lt _ h

pub new_hashing_embedder_pos : (dim : Int64) → 0 < new_hashing_embedder dim
unfolding new_hashing_embedder
new_hashing_embedder_pos dim = ground arith

module _ (m : Floats) (n : Norms m) (dim : HashingEmbedder) (pos : 0 < dim) where
  pub count_token_lem :
      (tok : Text) (v : List m.F32)
      → length v ≡ dim
      → count_token m n dim tok v
        ≡ some (modify v (bucket_of dim tok) (bump m n (bucket_of dim tok, sign_of tok)))
  unfolding count_token hash_token
  count_token_lem tok v h =
      let (x, e) =
        get_elem?_total v (bucket_of dim tok) (omega (arith, h, bucket_of_range dim tok pos)) in
      ap
        (λ o. elim o [
          | none ↦ none
          | some y ↦ some (modify v (bucket_of dim tok) (bump m n (bucket_of dim tok, sign_of tok)))
        ])
        e

  module _ (laws : Exact m n) where
    -- The vector after some votes.
    abbrev tally : (ℕ → ℕ) → (ℕ → ℕ) → List m.F32
    tally up down = table 0 dim (λ i. laws.value (up i) (down i))

    abbrev IsSmall : ℕ → (ℕ → ℕ) → (ℕ → ℕ) → Type 0
    IsSmall k up down = (i : ℕ) → up i + down i + k ≤ 2 ^ 24

    -- One more vote, if it is for this bucket and this sign.
    abbrev voted : ℕ → Bool → Bool → ℕ → ℕ → ℕ
    voted b sign s i k = if (b == i) && (if sign then s else not s) then suc k else k

    bump_lem :
        (b : ℕ) (sign : Bool) (u d : ℕ)
        → u + d < 2 ^ 24
        → laws.value (voted b sign true b u) (voted b sign false b d)
          ≡ bump m n (b, sign) (laws.value u d)
    bump_lem b true u d h =
        ap (λ t. laws.value (if t && true then suc u else u) (if t && false then suc d else d))
          (==_refl b)
        ∙ sym (laws.add-value u d h)
    bump_lem b false u d h =
        ap (λ t. laws.value (if t && false then suc u else u) (if t && true then suc d else d))
          (==_refl b)
        ∙ sym (laws.sub-value u d h)

    no_vote : (b : ℕ) (sign s : Bool) (i k : ℕ) → (i ≢ b) → voted b sign s i k ≡ k
    no_vote b sign s i k ne = elim (Bool-cases (b == i)) [
      | inl h ↦ absurd (ne (sym ((==_iff b i).0 h)))
      | inr h ↦ ap (λ t. if t && (if sign then s else not s) then suc k else k) h
    ]

    count_token-tally :
        (tok : Text) (up down : ℕ → ℕ)
        → IsSmall 1 up down
        → count_token m n dim tok (tally up down)
          ≡ some (
              tally
                (λ i. voted (bucket_of dim tok) (sign_of tok) true i (up i))
                (λ i. voted (bucket_of dim tok) (sign_of tok) false i (down i)))
    count_token-tally tok up down small =
        let b = bucket_of dim tok in
        let sign = sign_of tok in
        count_token_lem tok (tally up down) (length-table 0 dim (λ i. laws.value (up i) (down i)))
        ∙ ap some (
            modify-table_0 dim b (λ i. laws.value (up i) (down i))
              (λ i. laws.value (voted b sign true i (up i)) (voted b sign false i (down i)))
              (bump m n (b, sign)) (bump_lem b sign (up b) (down b) (omega (arith, small b)))
              (λ l ne.
                ap (λ k. laws.value k (voted b sign false l (down l)))
                  (no_vote b sign true l (up l) ne)
                ∙ ap (λ k. laws.value (up l) k) (no_vote b sign false l (down l) ne)))

    tally_alike :
        (up up' down down' : ℕ → ℕ)
        → ((i : ℕ) → up i ≡ up' i)
        → ((i : ℕ) → down i ≡ down' i)
        → some (tally up down) ≡ some (tally up' down')
    tally_alike up up' down down' h k = ap some (
        table_alike 0 dim (λ i. laws.value (up i) (down i)) (λ i. laws.value (up' i) (down' i))
          (λ i _. ap (λ x. laws.value x (down i)) (h i) ∙ ap (λ x. laws.value (up' i) x) (k i)))

    pub count_tokens-tally :
        (toks : List Text) (up down : ℕ → ℕ)
        → IsSmall (length toks) up down
        → count_tokens m n dim toks (tally up down)
          ≡ some (tally (λ i. votes dim true i toks + up i) (λ i. votes dim false i toks + down i))
    unfolding count_tokens votes
    count_tokens-tally [] up down small =
        tally_alike up (λ i. 0 + up i) down (λ i. 0 + down i) (λ i. omega arith) (λ i. omega arith)
    count_tokens-tally (t ∷ ts) up down small =
        let b = bucket_of dim t in
        let s = sign_of t in
        let up' : ℕ → ℕ = λ i. voted b s true i (up i) in
        let down' : ℕ → ℕ = λ i. voted b s false i (down i) in
        ap (λ o. elim o [ none ↦ none | some v ↦ count_tokens m n dim ts v ])
          (count_token-tally t up down (λ i. omega (arith, small i)))
        ∙ count_tokens-tally ts up' down' (λ i. ground (arith, small i))
        ∙ tally_alike _ _ _ _ (λ i. ground arith) (λ i. ground arith)
