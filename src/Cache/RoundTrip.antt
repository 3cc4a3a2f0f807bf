-- ===== src/Cache/RoundTrip.antt =====
-- A completion that internal/cache has just stored, and a lookup of its prompt.
use velocity_gateway.Common.{
  ℕ, zero, suc, ◌≤◌, ◌<◌, ◌≡◌, refl, sym, ap, ◌∙◌, subst, inl, inr, true, false, List, [], ◌∷◌,
  ◌++◌, Option, none, some, All, All-Among, Among, length, take, length-append, if_cases, ltb,
  arith,
}
use velocity_gateway.Cache.Vector.{Floats, cosine_dot}
use velocity_gateway.Cache.Store.{Entry, MemEntry, MemoryStore, insert_newest, sort_newest, put}
use velocity_gateway.Cache.Nearest.{NoNan, IsNearest}
use velocity_gateway.Cache.Eviction.{time_of, length-sort_newest}

module _ {m : Floats} where
  sort_newest-last :
      (xs : List (MemEntry m)) (n : MemEntry m)
      → All (λ x. time_of x < time_of n) xs
      → sort_newest m (xs ++ (n ∷ [])) ≡ n ∷ sort_newest m xs
  unfolding sort_newest insert_newest
  sort_newest-last [] n h = refl
  sort_newest-last (x ∷ xs) n (hx, hs) =
      ap (insert_newest m x) (sort_newest-last xs n hs)
      ∙ if_cases (λ l. l ≡ n ∷ insert_newest m x (sort_newest m xs)) (ltb (time_of x) (time_of n))
          (λ _. refl) (λ late. absurd (ground arith))

  sort_newest-tie :
      (xs : List (MemEntry m)) (n : MemEntry m)
      → All (λ x. time_of n ≤ time_of x) xs
      → sort_newest m (xs ++ (n ∷ [])) ≡ sort_newest m xs ++ (n ∷ [])
  unfolding sort_newest insert_newest
  sort_newest-tie [] n h = refl
  sort_newest-tie (x ∷ xs) n (hx, hs) =
      ap (insert_newest m x) (sort_newest-tie xs n hs) ∙ insert_before x (sort_newest m xs) n hx
    where
      insert_before :
          (x : MemEntry m) (ys : List (MemEntry m)) (n : MemEntry m)
          → time_of n ≤ time_of x
          → insert_newest m x (ys ++ (n ∷ [])) ≡ insert_newest m x ys ++ (n ∷ [])
      insert_before x [] n h = ground arith
      insert_before x (y ∷ ys) n h = ground (arith, insert_before x ys n h)

  Among-last : (n : MemEntry m) (xs : List (MemEntry m)) → Among n (xs ++ (n ∷ []))
  Among-last n [] = inl refl
  Among-last n (x ∷ xs) = inr (Among-last n xs)

  Among-first :
      (k : ℕ) (n : MemEntry m) (xs : List (MemEntry m)) → 0 < k → Among n (take k (n ∷ xs))
  Among-first zero n xs h = absurd (ground arith)
  Among-first (suc k) n xs h = inl refl

  take_all : (xs : List (MemEntry m)) (n : MemEntry m) → take (length xs) (xs ++ (n ∷ [])) ≡ xs
  take_all [] n = refl
  take_all (x ∷ xs) n = ap (λ l. x ∷ l) (take_all xs n)

  pub put_keeps_new :
      (vec : List m.F32) (entry : Entry) (s : MemoryStore m)
      → 0 < s.max_size
      → All (λ x. time_of x < entry.created_at) s.entries
      → Among (record { vec = vec; entry = entry }) (put m vec entry s).entries
  unfolding put
  put_keeps_new vec entry s room older =
      let n : MemEntry m = record { vec = vec; entry = entry } in
      if_cases (λ (t : MemoryStore m). Among n t.entries)
        (ltb s.max_size (length (s.entries ++ (n ∷ []))))
        (λ over.
          subst (λ l. Among n (take s.max_size l)) (sym (sort_newest-last s.entries n older))
            (Among-first s.max_size n (sort_newest m s.entries) room))
        (λ fits. Among-last n s.entries)

  -- When the store is full and no stored entry is older than a new one, `Put` leaves out the new one:
  -- the stored entries stay, in the order of their times.
  put-drops_tie :
      (vec : List m.F32) (entry : Entry) (s : MemoryStore m)
      → length s.entries ≡ s.max_size
      → All (λ x. entry.created_at ≤ time_of x) s.entries
      → (put m vec entry s).entries ≡ sort_newest m s.entries
  unfolding put
  put-drops_tie vec entry s full newer =
      let n : MemEntry m = record { vec = vec; entry = entry } in
      if_cases (λ (t : MemoryStore m). t.entries ≡ sort_newest m s.entries)
        (ltb s.max_size (length (s.entries ++ (n ∷ []))))
        (λ over.
          ap (take s.max_size) (sort_newest-tie s.entries n newer)
          ∙ ap (λ k. take k (sort_newest m s.entries ++ (n ∷ [])))
              (sym full ∙ sym (length-sort_newest s.entries))
          ∙ take_all (sort_newest m s.entries) n)
        (λ fits. absurd (omega (arith, length-append s.entries (n ∷ []), under fits)))
    where
      under : {a b : ℕ} → ltb a b ≡ false → b ≤ a
      under h = ground arith

  -- A stored entry whose similarity to the query is above -1 and not below the threshold makes a hit.
  pub found_when_stored :
      (query : List m.F32) (threshold : m.F64) (fresh : ℕ) (s : MemoryStore m) (n : MemEntry m)
      → NoNan m
      → Among n s.entries
      → fresh ≤ time_of n
      → m.lt m.minus_one (cosine_dot m query n.vec) ≡ true
      → m.lt (cosine_dot m query n.vec) threshold ≡ false
      → (o : Option Entry × m.F64) → IsNearest m query fresh threshold s.entries o
      → (found : Entry) × (o.0 ≡ some found)
  found_when_stored query threshold fresh s n laws stored young near enough (some found, sim) h =
      (found, refl)
  found_when_stored query threshold fresh s n laws stored young near enough (none, sim) h =
      elim (All-Among _ n s.entries h stored) [
        | inl stale ↦ absurd (ground arith)
        | inr (inl far) ↦ cc
        | inr (inr below) ↦ cc
      ]
