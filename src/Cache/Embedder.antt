-- ===== src/Cache/Embedder.antt =====
-- `HashingEmbedder` of internal/cache/embedder.go.
use Prim.Native.Nat.{bit_xor}
use velocity_gateway.Common.{
  ℕ, ◌+◌, ◌*◌, ◌/◌, ◌%◌, ◌^◌, Bool, ◌&&◌, ◌||◌, not, Text, List, [], ◌∷◌, map, Option, none, some,
  cut_at, repeated, get_elem?, modify, if◌then◌else◌, ◌==◌, leb,
}
use velocity_gateway.Common.Int64.{Int64, modulus, is_nonpos}
use velocity_gateway.Cache.Vector.{Floats, dot_from}

-- What the embedders do with float32, and the square root of float64.
pub record Norms (m : Floats) : Type 0 where
  pub zero : m.F32
  pub one : m.F32
  pub add : m.F32 → m.F32 → m.F32
  pub sub : m.F32 → m.F32 → m.F32
  pub div : m.F32 → m.F32 → m.F32
  pub is_pos : m.F32 → Bool
  pub sqrt : m.F64 → m.F64
  pub narrow : m.F64 → m.F32

-- `strings.ToLower` on one code point: A to Z, and the two other letters whose lower case is in ASCII.
-- What it makes of a letter outside ASCII is no letter that `tokenize` keeps.
unfoldable pub to_lower : ℕ → ℕ
to_lower c =
    if leb 65 c && leb c 90
    then c + 32
    else if c == 0x130
    then 105
    else if c == 0x212A
    then 107
    else c

unfoldable pub is_token_char : ℕ → Bool
is_token_char r = (leb 97 r && leb r 122) || (leb 48 r && leb r 57)

abbrev pub is_gap : ℕ → Bool
is_gap r = not (is_token_char r)

unfoldable pub tokenize : Text → List Text
unfolding cut_at
tokenize s = cut_at is_gap [] (map to_lower s)

abbrev fnv_offset : ℕ
fnv_offset = 14695981039346656037

abbrev fnv_prime : ℕ
fnv_prime = 1099511628211

-- `fnv.New64a` and `Write`: the bytes of a token are its characters, which are in ASCII.
unfoldable fnv_from : ℕ → Text → ℕ
fnv_from h [] = h
fnv_from h (c ∷ cs) = fnv_from (bit_xor h c * fnv_prime % modulus) cs

unfoldable pub bucket_of : Int64 → Text → ℕ
unfolding fnv_from
bucket_of dim tok = fnv_from fnv_offset tok % dim

unfoldable pub sign_of : Text → Bool
unfolding fnv_from
sign_of tok = fnv_from fnv_offset tok / 2 ^ 32 % 2 == 0

unfoldable pub hash_token : Text → Int64 → ℕ × Bool
unfolding bucket_of sign_of
hash_token tok dim = (bucket_of dim tok, sign_of tok)

abbrev pub HashingEmbedder : Type 0
HashingEmbedder = Int64

unfoldable pub new_hashing_embedder : Int64 → HashingEmbedder
new_hashing_embedder dim = if is_nonpos dim then 384 else dim

module _ (m : Floats) (n : Norms m) where
  abbrev pub bump : ℕ × Bool → m.F32 → m.F32
  bump (idx, sign) x = if sign then n.add x n.one else n.sub x n.one

  -- `v[idx] += 1` or `v[idx] -= 1`; `none` is the panic of an index out of range.
  unfoldable pub count_token : HashingEmbedder → Text → List m.F32 → Option (List m.F32)
  unfolding hash_token
  count_token dim tok v =
      let (idx, sign) = hash_token tok dim in
      elim (get_elem? v idx) [ none ↦ none | some x ↦ some (modify v idx (bump (idx, sign))) ]

  unfoldable pub count_tokens : HashingEmbedder → List Text → List m.F32 → Option (List m.F32)
  unfolding count_token
  count_tokens dim [] v = some v
  count_tokens dim (tok ∷ toks) v = elim (count_token dim tok v) [
    | none ↦ none
    | some v' ↦ count_tokens dim toks v'
  ]

  -- The two loops that divide a vector by its length; the sum of squares is a dot product from 0.
  unfoldable pub normalize : List m.F32 → List m.F32
  unfolding dot_from
  normalize v =
      let norm = n.narrow (n.sqrt (dot_from m m.zero v v)) in
      if n.is_pos norm then map (λ x. n.div x norm) v else v

  unfoldable pub embed : HashingEmbedder → Text → Option (List m.F32)
  unfolding tokenize count_tokens normalize
  embed dim text = elim (count_tokens dim (tokenize text) (repeated dim n.zero)) [
    | none ↦ none
    | some v ↦ some (normalize v)
  ]
