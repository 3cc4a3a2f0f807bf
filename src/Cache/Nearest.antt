-- ===== src/Cache/Nearest.antt =====
-- What `MemoryStore.Nearest` of internal/cache/memory_store.go finds.
use velocity_gateway.Common.{
  ℕ, ◌≡◌, refl, sym, ◌⊎◌, inl, inr, true, false, List, [], ◌∷◌, Option, none, some, All, Among,
  All-map, if_cases, subst, of_some, Bool-cases,
}
use velocity_gateway.Cache.Vector.{Floats, cosine_dot}
use velocity_gateway.Cache.Store.{Entry, MemEntry, MemoryStore, is_stale, scan, above, nearest}

-- The order of the similarities, which holds of floats as long as none of them is not a number.
pub record NoNan (m : Floats) : Type 0 where
  pub lt-asym : (a b : m.F64) → m.lt a b ≡ true → m.lt b a ≡ false
  pub lt-between : (a b c : m.F64) → m.lt a b ≡ true → (m.lt a c ≡ true) ⊎ (m.lt c b ≡ true)

module _ (m : Floats) (query : List m.F32) (fresh_until : ℕ) where
  abbrev similarity : MemEntry m → m.F64
  similarity e = cosine_dot m query e.vec

  -- No fresh entry is nearer than `best`.
  abbrev NoneNearer : m.F64 → List (MemEntry m) → Type 0
  NoneNearer best =
      All (λ e. (is_stale m fresh_until e ≡ true) ⊎ (m.lt best (cosine_dot m query e.vec) ≡ false))

  -- A fresh entry of the list.
  pub record IsHit (entries : List (MemEntry m)) (sim : m.F64) (found : Entry) (e : MemEntry m)
      : Type 0 where
    pub stored : Among e entries
    pub fresh : is_stale m fresh_until e ≡ false
    pub same : found ≡ e.entry
    pub its_similarity : sim ≡ cosine_dot m query e.vec

  -- What the scan has found: what it started with, or an entry of the list.
  abbrev Origin : m.F64 → Option Entry → List (MemEntry m) → m.F64 × Option Entry → Type 0
  Origin s best es r =
      ((r.0 ≡ s) × (r.1 ≡ best))
      ⊎ ((found : Entry) × (e : MemEntry m) × (r.1 ≡ some found) × IsHit es r.0 found e)

  record Scanned (s : m.F64) (best : Option Entry) (es : List (MemEntry m))
      (r : m.F64 × Option Entry) : Type 0 where
    grown : m.lt r.0 s ≡ false
    none_nearer : NoneNearer r.0 es
    origin : Origin s best es r

  later :
      (s : m.F64) (best : Option Entry) (x : MemEntry m) (es : List (MemEntry m))
      (r : m.F64 × Option Entry)
      → Origin s best es r
      → Origin s best (x ∷ es) r
  later s best x es r (inl h) = inl h
  later s best x es r (inr (found, e, h, k)) = inr (
    found,
    e,
    h,
    record {
      stored = inr k.stored;
      fresh = k.fresh;
      same = k.same;
      its_similarity = k.its_similarity;
    },
  )

  from_here :
      (s : m.F64) (best : Option Entry) (x : MemEntry m) (es : List (MemEntry m))
      → is_stale m fresh_until x ≡ false
      → (r : m.F64 × Option Entry) → Origin (similarity x) (some x.entry) es r
      → Origin s best (x ∷ es) r
  from_here s best x es fresh r (inl (h, k)) =
      inr (
        x.entry,
        x,
        k,
        record { stored = inl refl; fresh = fresh; same = refl; its_similarity = h },
      )
  from_here s best x es fresh r (inr h) = later s best x es r (inr h)

  module _ (laws : NoNan m) where
    lt_irrefl : (a : m.F64) → m.lt a a ≡ false
    lt_irrefl a = elim (Bool-cases (m.lt a a)) [ inl h ↦ laws.lt-asym a a h | inr h ↦ h ]

    -- `r` is not below `s`, and `s` is not below `t`.
    not_below : (r s t : m.F64) → m.lt r s ≡ false → m.lt s t ≡ false → m.lt r t ≡ false
    not_below r s t h k = elim (Bool-cases (m.lt r t)) [
      | inl b ↦ elim (laws.lt-between r t s b) [ inl c ↦ cc | inr c ↦ cc ]
      | inr b ↦ b
    ]

    scan-Scanned :
        (s : m.F64) (best : Option Entry) (es : List (MemEntry m))
        → Scanned s best es (scan m query fresh_until s best es)
    unfolding scan
    scan-Scanned s best [] = record {
      grown = lt_irrefl s;
      none_nearer = tt;
      origin = inl (refl, refl);
    }
    scan-Scanned s best (e ∷ es) =
        let skip = scan-Scanned s best es in
        let take = scan-Scanned (similarity e) (some e.entry) es in
        if_cases (λ (r : m.F64 × Option Entry). Scanned s best (e ∷ es) r)
          (is_stale m fresh_until e)
          (λ stale. record {
            grown = skip.grown;
            none_nearer = (inl stale, skip.none_nearer);
            origin = later s best e es (scan m query fresh_until s best es) skip.origin;
          })
          (λ fresh.
            if_cases (λ (r : m.F64 × Option Entry). Scanned s best (e ∷ es) r)
              (m.lt s (similarity e))
              (λ better. record {
                grown = not_below _ _ _ take.grown (laws.lt-asym s (similarity e) better);
                none_nearer = (inr take.grown, take.none_nearer);
                origin = from_here s best e es fresh _ take.origin;
              })
              (λ worse. record {
                grown = skip.grown;
                none_nearer = (inr (not_below _ _ _ skip.grown worse), skip.none_nearer);
                origin = later s best e es (scan m query fresh_until s best es) skip.origin;
              }))

  -- What `Nearest` returns is right: a fresh entry at or above the threshold, with its similarity, than
  -- which no fresh entry is nearer; or nothing, when every fresh entry is below the threshold or not
  -- above -1.
  abbrev pub IsNearest : m.F64 → List (MemEntry m) → Option Entry × m.F64 → Type 0
  IsNearest threshold es (some found, sim) =
      ((e : MemEntry m) × IsHit es sim found e) × (m.lt sim threshold ≡ false) × NoneNearer sim es
  IsNearest threshold es (none, sim) =
      All
        (λ e.
          (is_stale m fresh_until e ≡ true)
          ⊎ ((m.lt m.minus_one (cosine_dot m query e.vec) ≡ false)
              ⊎ (m.lt (cosine_dot m query e.vec) threshold ≡ true)))
        es

  module _ (laws : NoNan m) where
    below :
        (sim threshold : m.F64) (es : List (MemEntry m))
        → m.lt sim threshold ≡ true
        → NoneNearer sim es
        → IsNearest threshold es (none, sim)
    below sim threshold es h = All-map _ es (λ e near. elim near [
      | inl stale ↦ inl stale
      | inr not_nearer ↦ inr (
          inr (elim (laws.lt-between sim threshold (similarity e) h) [
            | inl nearer ↦ cc
            | inr under ↦ under
          ]))
    ])

    at_start :
        (sim threshold : m.F64) (es : List (MemEntry m))
        → sim ≡ m.minus_one
        → NoneNearer sim es
        → IsNearest threshold es (none, sim)
    at_start sim threshold es e = All-map _ es (λ x near. elim near [
      | inl stale ↦ inl stale
      | inr not_nearer ↦ inr (inl (subst (λ t. m.lt t (similarity x) ≡ false) e not_nearer))
    ])

    the-IsHit :
        (sim : m.F64) (found : Entry) (es : List (MemEntry m))
        → Origin m.minus_one none es (sim, some found)
        → (e : MemEntry m) × IsHit es sim found e
    the-IsHit sim found es (inl h) = cc
    the-IsHit sim found es (inr (found', e, h, hit)) =
        of_some (λ f. (e : MemEntry m) × IsHit es sim f e) (sym h) (e, hit)

    above-IsNearest :
        (threshold : m.F64) (es : List (MemEntry m)) (r : m.F64 × Option Entry)
        → Scanned m.minus_one none es r
        → IsNearest threshold es (above m threshold r)
    unfolding above
    above-IsNearest threshold es (sim, none) h = elim h.origin [
      | inl (e, _) ↦ at_start sim threshold es e h.none_nearer
      | inr (found, e, k, hit) ↦ cc
    ]
    above-IsNearest threshold es (sim, some found) h =
        if_cases (λ (o : Option Entry). IsNearest threshold es (o, sim)) (m.lt sim threshold)
          (λ under. below sim threshold es under h.none_nearer)
          (λ enough. (the-IsHit sim found es h.origin, enough, h.none_nearer))

-- As long as no similarity is not a number, `Nearest` returns a stored entry that is not stale, whose
-- similarity to the query is the one returned and not below the threshold, and no stored entry that is
-- not stale is nearer; or it returns none, and every stored entry that is not stale is below the
-- threshold or not above -1.
pub nearest-IsNearest :
    (m : Floats) (query : List m.F32) (threshold : m.F64) (fresh_until : ℕ) (s : MemoryStore m)
    → NoNan m
    → IsNearest m query fresh_until threshold s.entries (nearest m query threshold fresh_until s)
unfolding nearest
nearest-IsNearest m query threshold fresh_until s laws =
    above-IsNearest m query fresh_until laws threshold s.entries
      (scan m query fresh_until m.minus_one none s.entries)
      (scan-Scanned m query fresh_until laws m.minus_one none s.entries)
