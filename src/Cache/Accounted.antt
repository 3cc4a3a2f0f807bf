-- ===== src/Cache/Accounted.antt =====
-- What a run of `Lookup` and `Store` of internal/cache/cache.go leaves in a store that keeps its contract.
use velocity_gateway.Common.{
  ℕ, ◌≡◌, refl, sym, ap, ◌∙◌, subst, inl, inr, Text, List, [], ◌∷◌, Option, none, some, All,
  All-map, All-Among, Among,
}
use velocity_gateway.Common.Int64.{Int64}
use velocity_gateway.Cache.Vector.{Floats}
use velocity_gateway.Cache.Store.{Entry, MemEntry}
use velocity_gateway.Cache.Semantic.{
  StoreOps, Cache, fresh_until, stamp, answer, search_for, lookup_prompt, measured, keep, put_under,
  store_prompt,
}
use velocity_gateway.Cache.Contract.{IsOf, StoreLaws}

-- A call with its time.
pub data Event : Type 0 where
  looked_up : Text → ℕ → Event
  stored : Text → Entry → ℕ → Event

module _ {F32 F64 S : Type 0} (ops : StoreOps F32 F64 S) where
  unfoldable pub after : Event → Option (Cache F32 F64 S) → Option (Cache F32 F64 S)
  after (looked_up prompt now) c = (lookup_prompt ops prompt now c).0
  after (stored prompt e now) c = (store_prompt ops prompt e now c).0

  -- The head of the list is the latest event.
  unfoldable pub run : List Event → Option (Cache F32 F64 S) → Option (Cache F32 F64 S)
  unfolding after
  run [] c = c
  run (x ∷ xs) c = after x (run xs c)

module _ (m : Floats) (similarity : List m.F32 → List m.F32 → m.F64) {S : Type 0}
    (ops : StoreOps m.F32 m.F64 S) (laws : StoreLaws m similarity ops)
    (start : Cache m.F32 m.F64 S) where
  -- What no call changes.
  abbrev settings : Cache m.F32 m.F64 S → (Text → Option (List m.F32)) × m.F64 × Int64
  settings c = (c.embed, c.threshold, c.ttl)

  -- An entry comes from an event: it has the model and the content that were stored, under the vector
  -- of their prompt.
  pub record IsFrom (events : List Event) (x : MemEntry m) : Type 0 where
    pub prompt : Text
    pub completion : Entry
    pub time : ℕ
    pub happened : Among (stored prompt completion time) events
    pub vector : start.embed prompt ≡ some x.vec
    pub model : x.entry.model ≡ completion.model
    pub content : x.entry.content ≡ completion.content

  pub record IsAccounted (events : List Event) (c : Cache m.F32 m.F64 S) : Type 0 where
    pub same : settings c ≡ settings start
    pub accounted : All (IsFrom events) (laws.entries c.store)

  later :
      (x : Event) (events : List Event) (e : MemEntry m) → IsFrom events e → IsFrom (x ∷ events) e
  later x events e h = record {
    prompt = h.prompt;
    completion = h.completion;
    time = h.time;
    happened = inr h.happened;
    vector = h.vector;
    model = h.model;
    content = h.content;
  }

  later_all :
      (x : Event) (events : List Event) (c c' : Cache m.F32 m.F64 S)
      → IsAccounted events c
      → settings c' ≡ settings c
      → c'.store ≡ c.store
      → IsAccounted (x ∷ events) c'
  later_all x events c c' h e s = record {
    same = e ∙ h.same;
    accounted =
        subst (λ t. All (IsFrom (x ∷ events)) (laws.entries t)) (sym s)
          (All-map (IsFrom (x ∷ events)) (laws.entries c.store) (later x events) h.accounted);
  }

  search_for_keeps :
      (o : Option (List m.F32)) (now : ℕ) (c : Cache m.F32 m.F64 S)
      → (settings (search_for ops o now c).0 ≡ settings c)
        × ((search_for ops o now c).0.store ≡ c.store)
  unfolding search_for
  search_for_keeps none now c = (refl, refl)
  search_for_keeps (some vec) now c =
      answer_keeps (ops.nearest vec c.threshold (fresh_until now c.ttl) c.store)
    where
      answer_keeps :
          (o : Option (Option Entry × m.F64))
          → (settings (answer ops o c).0 ≡ settings c) × ((answer ops o c).0.store ≡ c.store)
      answer_keeps none = (refl, refl)
      answer_keeps (some (none, sim)) = (refl, refl)
      answer_keeps (some (some e, sim)) = (refl, refl)

  measured_keeps :
      (o : Option ℕ) (c : Cache m.F32 m.F64 S)
      → (settings (measured ops o c) ≡ settings c) × ((measured ops o c).store ≡ c.store)
  unfolding measured
  measured_keeps none c = (refl, refl)
  measured_keeps (some k) c = (refl, refl)

  new_entry :
      (prompt : Text) (e : Entry) (now : ℕ) (vec : List m.F32) (events : List Event)
      (x : MemEntry m)
      → start.embed prompt ≡ some vec
      → IsOf m similarity vec (stamp now e) x
      → IsFrom (stored prompt e now ∷ events) x
  unfolding stamp
  new_entry prompt e now vec events x embedded (v, model, content) = record {
    prompt = prompt;
    completion = e;
    time = now;
    happened = inl refl;
    vector = embedded ∙ ap some (sym v);
    model = model;
    content = content;
  }

  keep-IsAccounted :
      (prompt : Text) (e : Entry) (now : ℕ) (vec : List m.F32) (events : List Event)
      (c : Cache m.F32 m.F64 S)
      → start.embed prompt ≡ some vec
      → IsAccounted events c
      → (o : Option S) → ops.put vec prompt (stamp now e) c.store ≡ o
      → IsAccounted (stored prompt e now ∷ events) (keep ops o c).0
  unfolding keep
  keep-IsAccounted prompt e now vec events c embedded h none q = later_all _ events c c h refl refl
  keep-IsAccounted prompt e now vec events c embedded h (some s) q =
      let (same, same_store) = measured_keeps (ops.size s) (record c { store = s }) in
      record {
        same = same ∙ h.same;
        accounted =
            subst (λ t. All (IsFrom (stored prompt e now ∷ events)) (laws.entries t))
              (sym same_store)
              (All-map (IsFrom (stored prompt e now ∷ events)) (laws.entries s)
                (λ x origin. elim origin [
                  | inl old ↦
                      later _ events x
                        (All-Among (IsFrom events) x (laws.entries c.store) h.accounted old)
                  | inr new ↦ new_entry prompt e now vec events x embedded new
                ])
                (laws.put-entries vec prompt (stamp now e) c.store s q));
      }

  put_under-IsAccounted :
      (prompt : Text) (e : Entry) (now : ℕ) (events : List Event) (c : Cache m.F32 m.F64 S)
      → IsAccounted events c
      → (o : Option (List m.F32)) → start.embed prompt ≡ o
      → IsAccounted (stored prompt e now ∷ events) (put_under ops o prompt (stamp now e) c).0
  unfolding put_under
  put_under-IsAccounted prompt e now events c h none q = later_all _ events c c h refl refl
  put_under-IsAccounted prompt e now events c h (some vec) q =
      keep-IsAccounted prompt e now vec events c q h (ops.put vec prompt (stamp now e) c.store) refl

  -- A cache that is not configured has nothing to account for.
  abbrev pub IsRight : List Event → Option (Cache m.F32 m.F64 S) → Type 0
  IsRight events none = Unit {0}
  IsRight events (some c) = IsAccounted events c

  after-IsRight :
      (x : Event) (events : List Event) (o : Option (Cache m.F32 m.F64 S))
      → IsRight events o
      → IsRight (x ∷ events) (after ops x o)
  unfolding after lookup_prompt store_prompt
  after-IsRight (looked_up prompt now) events none h = tt
  after-IsRight (stored prompt e now) events none h = tt
  after-IsRight (looked_up prompt now) events (some c) h =
      let (same, same_store) = search_for_keeps (c.embed prompt) now c in
      later_all _ events c _ h same same_store
  after-IsRight (stored prompt e now) events (some c) h =
      put_under-IsAccounted prompt e now events c h (c.embed prompt)
        (sym (ap (λ t. t.0 prompt) h.same))

  pub run-IsRight :
      (events : List Event) (o : Option (Cache m.F32 m.F64 S))
      → IsRight [] o
      → IsRight events (run ops events o)
  unfolding run
  run-IsRight [] o h = h
  run-IsRight (x ∷ xs) o h = after-IsRight x xs (run ops xs o) (run-IsRight xs o h)
