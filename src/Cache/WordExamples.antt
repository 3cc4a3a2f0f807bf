-- ===== src/Cache/WordExamples.antt =====
-- A hashing embedder over differences of whole numbers, and the theorems on
-- internal/cache/embedder.go applied to it.
use mathlib.Core.List.Perm
use velocity_gateway.Common.{
  ℕ, ◌+◌, ◌*◌, ◌≡◌, refl, ◌⊎◌, inl, inr, true, codes, Text, List, [], ◌∷◌, ◌++◌, map, some, All,
  IsPiece, Bool-cases, ltb, length, select, run_together, join_with, arith,
}
use velocity_gateway.Cache.Vector.{Floats, cosine_dot}
use velocity_gateway.Cache.Store.{Entry}
use velocity_gateway.Cache.Semantic.{
  hit, memory_ops, fresh_until, stamp, lookup_prompt, store_prompt,
}
use velocity_gateway.Cache.Nearest.{NoNan}
use velocity_gateway.Cache.Hits.{MemoryCache}
use velocity_gateway.Cache.Embedder.{
  Norms, new_hashing_embedder, to_lower, is_token_char, is_gap, tokenize, hash_token, normalize,
  embed,
}
use velocity_gateway.Cache.Tokens.{tokenize_exact}
use velocity_gateway.Cache.Hashing.{Exact}
use velocity_gateway.Cache.Vectors.{balance, embed_total, embed_counts}
use velocity_gateway.Cache.SameWords.{SameWords, lookup-SameWords}

-- `(a, b)` stands for a - b.
abbrev differences : Floats
differences = record {
  F32 = ℕ × ℕ;
  F64 = ℕ × ℕ;
  widen = λ x. x;
  zero = (0, 0);
  minus_one = (0, 1);
  add = λ x y. (x.0 + y.0, x.1 + y.1);
  mul = λ x y. (x.0 * y.0 + x.1 * y.1, x.0 * y.1 + x.1 * y.0);
  lt = λ x y. ltb (x.0 + y.1) (y.0 + x.1);
}

-- Vectors that are not scaled.
abbrev unscaled : Norms differences
unscaled = record {
  zero = (0, 0);
  one = (1, 0);
  add = λ x y. (x.0 + y.0, x.1 + y.1);
  sub = λ x y. (x.0 + y.1, x.1 + y.0);
  div = λ x y. x;
  is_pos = λ x. ltb x.1 x.0;
  sqrt = λ x. x;
  narrow = λ x. x;
}

differences-NoNan : NoNan differences
differences-NoNan = record { lt-asym = λ a b h. ground arith; lt-between = between }
  where
    between :
        (a b c : ℕ × ℕ)
        → ltb (a.0 + b.1) (b.0 + a.1) ≡ true
        → (ltb (a.0 + c.1) (c.0 + a.1) ≡ true) ⊎ (ltb (c.0 + b.1) (b.0 + c.1) ≡ true)
    between a b c h = elim (Bool-cases (ltb (a.0 + c.1) (c.0 + a.1))) [
      | inl k ↦ inl k
      | inr k ↦ inr (ground arith)
    ]

differences-Exact : Exact differences unscaled
differences-Exact = record {
  value = λ a b. (a, b);
  zero-value = refl;
  add-value = λ a b h. pair (omega arith) (omega arith);
  sub-value = λ a b h. pair (omega arith) (omega arith);
}
  where
    pair : {a b c d : ℕ} → a ≡ c → b ≡ d → ◌≡◌ {A = ℕ × ℕ} (a, b) (c, d)
    pair e f = λ i. (e i, f i)

abbrev prompt : Text
prompt = codes "Raft, or Paxos?"

abbrev other : Text
other = codes "OR raft: Paxos"

tokenizes : tokenize prompt ≡ codes "raft" ∷ codes "or" ∷ codes "paxos" ∷ []
unfolding tokenize is_token_char to_lower
tokenizes = refl

tokenize_exact_example :
    All (IsPiece is_gap) (tokenize prompt)
    × (run_together (tokenize prompt) ≡ select is_token_char (map to_lower prompt))
    × (tokenize (join_with 32 (tokenize prompt)) ≡ tokenize prompt)
    × (tokenize (codes "Raft" ++ 45 ∷ codes "log")
        ≡ tokenize (codes "Raft") ++ tokenize (codes "log"))
    × (tokenize (codes "Raft") ≡ map to_lower (codes "Raft") ∷ [])
tokenize_exact_example =
    tokenize_exact prompt (codes "Raft") (codes "log") (codes "Raft") 45
      (unfold is_token_char to_lower in refl)
      (unfold is_token_char to_lower in (tt, (refl, (refl, (refl, (refl, tt))))))

embed_total_example :
    (v : List (ℕ × ℕ)) × (embed differences unscaled (new_hashing_embedder 8) prompt ≡ some v)
    × (length v ≡ new_hashing_embedder 8)
embed_total_example = embed_total differences unscaled 8 prompt

embed_counts_example :
    embed differences unscaled (new_hashing_embedder 8) prompt
    ≡ some (
        normalize differences unscaled (
          balance differences unscaled differences-Exact
            (new_hashing_embedder 8)
            (tokenize prompt)))
embed_counts_example =
    embed_counts differences unscaled differences-Exact 8 prompt
      (unfold tokenize is_token_char to_lower in omega arith)

same_words : SameWords prompt other
unfolding tokenize is_token_char to_lower
same_words = (Perm.swap _ _ _, omega arith, omega arith)

abbrev vec : List (ℕ × ℕ)
vec = (0, 1) ∷ (0, 0) ∷ (0, 0) ∷ (0, 0) ∷ (0, 1) ∷ (0, 0) ∷ (0, 1) ∷ (0, 0) ∷ []

embeds : embed differences unscaled (new_hashing_embedder 8) prompt ≡ some vec
unfolding embed tokenize is_token_char to_lower hash_token new_hashing_embedder
embeds = refl

abbrev raft_entry : Entry
raft_entry = record { model = codes "m"; content = codes "Raft."; raw = []; created_at = 0 }

abbrev cache : MemoryCache differences
cache = record {
  embed = embed differences unscaled (new_hashing_embedder 8);
  store = record { entries = []; max_size = 2 };
  threshold = (2, 0);
  ttl = 100;
  hits = 0;
  misses = 0;
  store_size = 0;
}

lookup-SameWords_example :
    (found : Entry) × ((lookup_prompt
        (memory_ops differences)
        other
        50
        (store_prompt (memory_ops differences) prompt raft_entry 20 (some cache)).0).1
      ≡ hit found)
lookup-SameWords_example =
    lookup-SameWords differences unscaled differences-Exact 8 prompt other raft_entry 20 50 vec
      cache differences-NoNan same_words refl embeds (omega arith) tt
      (unfold stamp fresh_until in omega arith) (unfold cosine_dot in refl)
      (unfold cosine_dot in refl)
