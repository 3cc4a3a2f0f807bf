-- ===== src/Cache/Provenance.antt =====
-- Any run of `Lookup` and `Store` of internal/cache/cache.go over any store that keeps its contract.
use velocity_gateway.Common.{
  ℕ, ◌≡◌, refl, sym, ap, subst, Text, List, [], Option, none, some, All, All-Among,
}
use velocity_gateway.Cache.Vector.{Floats}
use velocity_gateway.Cache.Store.{Entry, MemEntry}
use velocity_gateway.Cache.Semantic.{
  StoreOps, Cache, hit, fresh_until, answer, search_for, lookup_prompt,
}
use velocity_gateway.Cache.Contract.{Answers, StoreLaws}
use velocity_gateway.Cache.Accounted.{Event, run, IsFrom, IsAccounted, IsRight, run-IsRight}

module _ (m : Floats) (similarity : List m.F32 → List m.F32 → m.F64) {S : Type 0}
    (ops : StoreOps m.F32 m.F64 S) (laws : StoreLaws m similarity ops)
    (start : Cache m.F32 m.F64 S) where
  -- A hit for a prompt at a time: the entry of an earlier event, which is fresh, and under a vector that
  -- is near enough.
  pub record IsEarned (events : List Event) (prompt : Text) (now : ℕ) (found : Entry) : Type 0 where
    pub vec : List m.F32
    pub embedded : start.embed prompt ≡ some vec
    pub entry : MemEntry m
    pub origin : IsFrom m similarity ops laws start events entry
    pub answers : Answers m similarity vec start.threshold (fresh_until now start.ttl) found entry

  answer-hit :
      (o : Option (Option Entry × m.F64)) (c : Cache m.F32 m.F64 S) (found : Entry)
      → (answer ops o c).1 ≡ hit found
      → (sim : m.F64) × (o ≡ some (some found, sim))
  unfolding answer
  answer-hit none c found k = cc
  answer-hit (some (none, sim)) c found k = cc
  answer-hit (some (some e, sim)) c found k = (sim, ap (λ f. some (some f, sim)) (cc))

  search_for-hit :
      (events : List Event) (prompt : Text) (now : ℕ) (found : Entry) (c : Cache m.F32 m.F64 S)
      → IsAccounted m similarity ops laws start events c
      → (o : Option (List m.F32)) → start.embed prompt ≡ o
      → (search_for ops o now c).1 ≡ hit found
      → IsEarned events prompt now found
  unfolding search_for
  search_for-hit events prompt now found c h none q k = cc
  search_for-hit events prompt now found c h (some vec) q k =
      let (sim, e) =
        answer-hit (ops.nearest vec c.threshold (fresh_until now c.ttl) c.store) c found k in
      let (x, held, answers) =
        laws.nearest-entry vec c.threshold (fresh_until now c.ttl) c.store found sim e in
      record {
        vec = vec;
        embedded = q;
        entry = x;
        origin =
            All-Among (IsFrom m similarity ops laws start events) x (laws.entries c.store)
              h.accounted held;
        answers =
            subst (λ t. Answers m similarity vec t.1 (fresh_until now t.2) found x) h.same answers;
      }

  prompt-hit :
      (events : List Event) (prompt : Text) (now : ℕ) (found : Entry)
      (o : Option (Cache m.F32 m.F64 S))
      → IsRight m similarity ops laws start events o
      → (lookup_prompt ops prompt now o).1 ≡ hit found
      → IsEarned events prompt now found
  unfolding lookup_prompt
  prompt-hit events prompt now found none h k = cc
  prompt-hit events prompt now found (some c) h k =
      search_for-hit events prompt now found c h (c.embed prompt)
        (sym (ap (λ t. t.0 prompt) h.same)) k

  -- After any sequence of `Lookup` and `Store` on a cache whose store was empty at the start and keeps
  -- its contract, as the store in memory and the one in PostgreSQL do, a hit is earned: the model and the
  -- content that `Lookup` returns are those of an earlier `Store`, under a prompt whose vector has a
  -- similarity to that of the prompt looked up which is not below the threshold, and the time to live of
  -- the entry has not passed.
  pub run-hit :
      (events : List Event) (prompt : Text) (now : ℕ) (found : Entry)
      → laws.entries start.store ≡ []
      → (lookup_prompt ops prompt now (run ops events (some start))).1 ≡ hit found
      → IsEarned events prompt now found
  run-hit events prompt now found empty k =
      prompt-hit events prompt now found (run ops events (some start))
        (run-IsRight m similarity ops laws start events (some start) (record {
          same = refl;
          accounted = subst (All (IsFrom m similarity ops laws start [])) (sym empty) tt;
        }))
        k
