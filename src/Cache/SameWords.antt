-- ===== src/Cache/SameWords.antt =====
-- Prompts with the same words in another order or in other letters: `Embed` of internal/cache/embedder.go
-- and `Lookup` of internal/cache/cache.go.
use native.Mathlib.Nat.{ℕ_set}
use mathlib.Core.Logic.{∥∥₁_elim}
use mathlib.Core.List.{Perm, Permᴰ}
use velocity_gateway.Common.{
  ℕ, suc, ◌^◌, ◌≤◌, ◌<◌, ◌≡◌, refl, sym, ap, ◌∙◌, Bool, true, false, not, ◌&&◌, Text, List, ◌∷◌,
  some, length, table_alike, if◌then◌else◌, ◌==◌, All, arith,
}
use velocity_gateway.Common.Int64.{Int64}
use velocity_gateway.Cache.Vector.{Floats, cosine_dot}
use velocity_gateway.Cache.Store.{Entry}
use velocity_gateway.Cache.Semantic.{
  hit, memory_ops, fresh_until, stamp, lookup_prompt, search_for, store_prompt, put_under,
}
use velocity_gateway.Cache.Eviction.{time_of}
use velocity_gateway.Cache.Nearest.{NoNan}
use velocity_gateway.Cache.Hits.{MemoryCache, put_under-embed, lookup_prompt-store_prompt}
use velocity_gateway.Cache.Embedder.{
  Norms, new_hashing_embedder, tokenize, bucket_of, sign_of, normalize, embed,
}
use velocity_gateway.Cache.Hashing.{Exact, votes}
use velocity_gateway.Cache.Vectors.{embed_counts}

votes-Permᴰ :
    (dim : Int64) (s : Bool) (i : ℕ) (ts us : List Text)
    → Permᴰ ts us
    → votes dim s i ts ≡ votes dim s i us
unfolding votes
votes-Permᴰ dim s i _ _ Permᴰ.nil = refl
votes-Permᴰ dim s i (t ∷ ts) (u ∷ us) (Permᴰ.cons e p) =
    ap (λ w. votes dim s i (w ∷ ts)) e
    ∙ ap (λ k. if (bucket_of dim u == i) && (if sign_of u then s else not s) then suc k else k)
        (votes-Permᴰ dim s i ts us p)
votes-Permᴰ dim s i (a ∷ b ∷ l) (a' ∷ b' ∷ _) (Permᴰ.swap e f) =
    ap (λ w. votes dim s i (w ∷ b ∷ l)) e ∙ ap (λ w. votes dim s i (b' ∷ w ∷ l)) f ∙ ground arith
votes-Permᴰ dim s i ts us (Permᴰ.trans p q) =
    votes-Permᴰ dim s i ts _ p ∙ votes-Permᴰ dim s i _ us q

votes-Perm :
    (dim : Int64) (s : Bool) (i : ℕ) (ts us : List Text)
    → Perm ts us
    → votes dim s i ts ≡ votes dim s i us
votes-Perm dim s i ts us p = ∥∥₁_elim p (ℕ_set _ _) (votes-Permᴰ dim s i ts us)

-- Two texts have the same words, in whatever order, as `tokenize` reads words.
abbrev pub SameWords : Text → Text → Type 0
SameWords s t =
    Perm (tokenize s) (tokenize t) × length (tokenize s) ≤ 2 ^ 24 × length (tokenize t) ≤ 2 ^ 24

module _ (m : Floats) (n : Norms m) (laws : Exact m n) where
  -- Texts with the same words, each of at most 2^24 words, have the same vector, whatever the order of
  -- the words, their case and the characters between them, as long as float32 is exact on whole numbers
  -- below 2^24.
  embed-SameWords :
      (asked : Int64) (s t : Text)
      → SameWords s t
      → embed m n (new_hashing_embedder asked) s ≡ embed m n (new_hashing_embedder asked) t
  embed-SameWords asked s t (perm, small_s, small_t) =
      let dim = new_hashing_embedder asked in
      embed_counts m n laws asked s small_s
      ∙ ap (λ v. some (normalize m n v))
          (table_alike 0 dim
            (λ i. laws.value (votes dim true i (tokenize s)) (votes dim false i (tokenize s)))
            (λ i. laws.value (votes dim true i (tokenize t)) (votes dim false i (tokenize t)))
            (λ i _.
              ap (λ k. laws.value k (votes dim false i (tokenize s)))
                (votes-Perm dim true i _ _ perm)
              ∙ ap (laws.value (votes dim true i (tokenize t))) (votes-Perm dim false i _ _ perm)))
      ∙ sym (embed_counts m n laws asked t small_t)

  -- In a cache over the hashing embedder and the store in memory, after `Store` has put a completion for
  -- a prompt, a `Lookup` of any prompt with the same words is a hit, be their order another and the
  -- meaning too, under these conditions: float32 is exact on whole numbers below 2^24, and no prompt has
  -- more words than that; the store has room for an entry, and every entry in it is older; the time to
  -- live has not passed; the similarity of the vector to itself is above -1 and not below the threshold;
  -- and no similarity is not a number.
  pub lookup-SameWords :
      (asked : Int64) (prompt other : Text) (e : Entry) (now later : ℕ) (vec : List m.F32)
      (c : MemoryCache m)
      → NoNan m
      → SameWords prompt other
      → c.embed ≡ embed m n (new_hashing_embedder asked)
      → embed m n (new_hashing_embedder asked) prompt ≡ some vec
      → 0 < c.store.max_size
      → All (λ x. time_of x < (stamp now e).created_at) c.store.entries
      → fresh_until later c.ttl ≤ (stamp now e).created_at
      → m.lt m.minus_one (cosine_dot m vec vec) ≡ true
      → m.lt (cosine_dot m vec vec) c.threshold ≡ false
      → (found : Entry) × ((lookup_prompt
            (memory_ops m)
            other
            later
            (store_prompt (memory_ops m) prompt e now (some c)).0).1
          ≡ hit found)
  unfolding lookup_prompt store_prompt
  lookup-SameWords asked prompt other e now later vec c nan same embeds embedded room older young
        near enough =
      let c' = (put_under (memory_ops m) (c.embed prompt) prompt (stamp now e) c).0 in
      let (found, h) =
        lookup_prompt-store_prompt m prompt e now later vec c nan
          (ap (λ f. f prompt) embeds ∙ embedded) room older young near enough in
      let keeps : c'.embed ≡ embed m n (new_hashing_embedder asked) =
        put_under-embed m (c.embed prompt) prompt (stamp now e) c ∙ embeds in
      let alike : c'.embed other ≡ c'.embed prompt =
        ap (λ f. f other) keeps
        ∙ sym (embed-SameWords asked prompt other same)
        ∙ sym (ap (λ f. f prompt) keeps) in
      (found, ap (λ o. (search_for (memory_ops m) o later c').1) alike ∙ h)
