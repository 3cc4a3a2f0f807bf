-- ===== src/Cache/Eviction.antt =====
-- What `MemoryStore.Put` of internal/cache/memory_store.go keeps and evicts.
use velocity_gateway.Common.{
  ℕ, zero, suc, ◌-◌, ◌≤◌, ◌<◌, ◌≡◌, refl, sym, ap, ◌∙◌, subst, List, [], ◌∷◌, ◌++◌, All, length,
  drop, take, length-take, if_cases, ltb, arith,
}
use mathlib.Core.List.{Perm, append-nil}
use mathlib.Core.List.Perm
use velocity_gateway.Cache.Vector.{Floats}
use velocity_gateway.Cache.Store.{Entry, MemEntry, MemoryStore, insert_newest, sort_newest, put}

take-drop : {A : Type 0} (n : ℕ) (xs : List A) → take n xs ++ drop n xs ≡ xs
take-drop zero xs = refl
take-drop (suc n) [] = refl
take-drop (suc n) (x ∷ xs) = ap (λ l. x ∷ l) (take-drop n xs)

All-drop {κ} : {A : Type 0} (P : A → Type κ) (n : ℕ) (xs : List A) → All P xs → All P (drop n xs)
All-drop P zero xs h = h
All-drop P (suc n) [] h = tt
All-drop P (suc n) (x ∷ xs) h = All-drop P n xs h.1

length-drop : {A : Type 0} (n : ℕ) (xs : List A) → length (drop n xs) ≡ length xs - n
length-drop zero xs = omega arith
length-drop (suc n) [] = omega arith
length-drop (suc n) (x ∷ xs) = omega (arith, length-drop n xs)

module _ {m : Floats} where
  abbrev pub time_of : MemEntry m → ℕ
  time_of e = e.entry.created_at

  -- Newest first.
  abbrev Descending : List (MemEntry m) → Type 0
  Descending [] = Unit {0}
  Descending (x ∷ xs) = All (λ y. time_of y ≤ time_of x) xs × Descending xs

  pub insert_newest-All :
      (P : MemEntry m → Type 0) (x : MemEntry m) (xs : List (MemEntry m))
      → P x
      → All P xs
      → All P (insert_newest m x xs)
  unfolding insert_newest
  insert_newest-All P x [] h hs = (h, tt)
  insert_newest-All P x (y ∷ ys) h (hy, hs) =
      if_cases (λ l. All P l) (ltb (time_of x) (time_of y))
        (λ _. (hy, insert_newest-All P x ys h hs)) (λ _. (h, (hy, hs)))

  All-weaken :
      (a b : ℕ) (xs : List (MemEntry m))
      → b ≤ a
      → All (λ y. time_of y ≤ b) xs
      → All (λ y. time_of y ≤ a) xs
  All-weaken a b [] h hs = tt
  All-weaken a b (x ∷ xs) h (hx, hs) = (omega arith, All-weaken a b xs h hs)

  insert_newest-Descending :
      (x : MemEntry m) (xs : List (MemEntry m)) → Descending xs → Descending (insert_newest m x xs)
  unfolding insert_newest
  insert_newest-Descending x [] h = (tt, tt)
  insert_newest-Descending x (y ∷ ys) (hy, hs) =
      if_cases (λ l. Descending l) (ltb (time_of x) (time_of y))
        (λ older. (
          insert_newest-All (λ z. time_of z ≤ time_of y) x ys (ground arith) hy,
          insert_newest-Descending x ys hs,
        ))
        (λ newer.
          ((ground arith, All-weaken (time_of x) (time_of y) ys (ground arith) hy), (hy, hs)))

  sort_newest-Descending : (xs : List (MemEntry m)) → Descending (sort_newest m xs)
  unfolding sort_newest
  sort_newest-Descending [] = tt
  sort_newest-Descending (x ∷ xs) =
      insert_newest-Descending x (sort_newest m xs) (sort_newest-Descending xs)

  insert_newest-Perm :
      (x : MemEntry m) (xs : List (MemEntry m)) → Perm (insert_newest m x xs) (x ∷ xs)
  unfolding insert_newest
  insert_newest-Perm x [] = Perm.refl (x ∷ [])
  insert_newest-Perm x (y ∷ ys) =
      if_cases (λ l. Perm l (x ∷ y ∷ ys)) (ltb (time_of x) (time_of y))
        (λ _. Perm.trans (Perm.cons y (insert_newest-Perm x ys)) (Perm.swap x y ys))
        (λ _. Perm.refl (x ∷ y ∷ ys))

  sort_newest-Perm : (xs : List (MemEntry m)) → Perm (sort_newest m xs) xs
  unfolding sort_newest
  sort_newest-Perm [] = Perm.refl []
  sort_newest-Perm (x ∷ xs) =
      Perm.trans (insert_newest-Perm x (sort_newest m xs)) (Perm.cons x (sort_newest-Perm xs))

  length-insert_newest :
      (x : MemEntry m) (xs : List (MemEntry m)) → length (insert_newest m x xs) ≡ suc (length xs)
  unfolding insert_newest
  length-insert_newest x [] = refl
  length-insert_newest x (y ∷ ys) = ground (arith, length-insert_newest x ys)

  pub length-sort_newest : (xs : List (MemEntry m)) → length (sort_newest m xs) ≡ length xs
  unfolding sort_newest
  length-sort_newest [] = refl
  length-sort_newest (x ∷ xs) =
      length-insert_newest x (sort_newest m xs) ∙ ap suc (length-sort_newest xs)

  -- What stands before an index is at least as recent as what stands from there on.
  split_newest :
      (n : ℕ) (xs : List (MemEntry m))
      → Descending xs
      → All (λ k. All (λ e. time_of e ≤ time_of k) (drop n xs)) (take n xs)
  split_newest zero xs h = tt
  split_newest (suc n) [] h = tt
  split_newest (suc n) (x ∷ xs) (hx, hs) = (All-drop _ n xs hx, split_newest n xs hs)

  -- What a put leaves out of the entries and the new one.
  pub record IsEviction (limit : ℕ) (all kept evicted : List (MemEntry m)) : Type 0 where
    nothing_else : Perm (kept ++ evicted) all
    bounded : length kept ≤ limit
    as_few : length evicted ≡ length all - limit
    pub oldest : All (λ k. All (λ e. time_of e ≤ time_of k) evicted) kept

  evict :
      (n : ℕ) (all : List (MemEntry m))
      → n < length all
      → IsEviction n all (take n (sort_newest m all)) (drop n (sort_newest m all))
  evict n all h =
      let sorted = sort_newest m all in
      record {
        nothing_else = subst (λ l. Perm l all) (sym (take-drop n sorted)) (sort_newest-Perm all);
        bounded = omega (arith, length-take n sorted);
        as_few = omega (arith, length-drop n sorted, length-sort_newest all);
        oldest = split_newest n sorted (sort_newest-Descending all);
      }

  all_kept : (n : ℕ) (all : List (MemEntry m)) → length all ≤ n → IsEviction n all all []
  all_kept n all h = record {
    nothing_else = subst (λ l. Perm l all) (sym (append-nil all)) (Perm.refl all);
    bounded = h;
    as_few = omega arith;
    oldest = none_out all;
  }
    where
      none_out : (xs : List (MemEntry m)) → All (λ k. All (λ e. time_of e ≤ time_of k) []) xs
      none_out [] = tt
      none_out (x ∷ xs) = (tt, none_out xs)

  -- `Put` keeps all of the stored entries and the new one but the oldest: what it leaves out are as
  -- many entries as there are over the size of the store, none of them is newer than one that is kept,
  -- and at most the size of the store are kept.
  pub put-IsEviction :
      (vec : List m.F32) (entry : Entry) (s : MemoryStore m)
      → (evicted : List (MemEntry m)) × IsEviction s.max_size
          (s.entries ++ (record { vec = vec; entry = entry } ∷ []))
          (put m vec entry s).entries
          evicted
  unfolding put
  put-IsEviction vec entry s =
      let all = s.entries ++ (record { vec = vec; entry = entry } ∷ []) in
      if_cases
        (λ (t : MemoryStore m).
          (evicted : List (MemEntry m)) × IsEviction s.max_size all t.entries evicted)
        (ltb s.max_size (length all))
        (λ over. (drop s.max_size (sort_newest m all), evict s.max_size all (ground arith)))
        (λ fits. ([], all_kept s.max_size all (ground arith)))
