-- ===== src/Migration/Chunks.antt =====
-- A migration by chunks against one loop over all items.
use chainsettle_contract.Base.{
  ℕ, zero, suc, ◌+◌, ◌-◌, ◌≤◌, ◌<◌, min, ◌≡◌, refl, ap, ◌∙◌, inl, inr, true, false, none, some,
  List, [], ◌∷◌, arith, leb, if◌then◌else◌, leb→gt, Bool-cases,
}
use chainsettle_contract.Base.Dict.{insert, get-insert_self}
use chainsettle_contract.Base.Int.{u32_max}
use chainsettle_contract.Base.Result.{
  Result, ok, panic, ◌>>=◌, panic_if, or_panic, checked_u32, Post, Post-bind, Post-panic_if,
  Post-ok, Post-checked_u32, Returns, Returns-bind, Ensures, Ensures-bind,
}
use chainsettle_contract.Migration.{
  MigrationProgress, Progresses, get_migration_progress, new_progress, start_from, start_migration,
  migrate_items, migrate_chunk,
}

-- Calls that agree after a first one.
bind_assoc {ℓ} :
    {S : Type ℓ} (m : Result S) (f g h : S → Result S)
    → ((s : S) → f s ≡ (g s >>= h))
    → (m >>= f) ≡ ((m >>= g) >>= h)
bind_assoc (ok s) f g h k = k s
bind_assoc (panic e) f g h k = refl

module _ {ℓ} {S : Type ℓ} (migrate : ℕ → S → Result S) where
  -- A loop over `a + b` items is a loop over the first `a` and then one over the others.
  migrate_items-add :
      (start a b : ℕ) (s : S)
      → migrate_items migrate start (a + b) s
        ≡ (migrate_items migrate start a s >>= migrate_items migrate (start + a) b)
  unfolding migrate_items
  migrate_items-add start zero b s =
      let here : start + 0 ≡ start = omega arith in
      let all : 0 + b ≡ b = omega arith in rw (here, all) refl
  migrate_items-add start (suc a) b s =
      let shifted : start + suc a ≡ suc start + a = omega arith in
      let next : suc a + b ≡ suc (a + b) = omega arith in
      rw (shifted, next)
        (bind_assoc (migrate start s) _ _ (migrate_items migrate (suc start + a) b)
          (migrate_items-add (suc start) a b))

  -- The items up to the stored progress are migrated, each of them once and in order.
  pub record IsMigrated (id item_count : ℕ) (s₀ : S) (store : Progresses) (s : S)
      (p : MigrationProgress) : Type ℓ where
    pub stored : get_migration_progress id store ≡ some p
    pub size : p.total_items ≡ item_count
    pub within : p.items_migrated ≤ item_count
    pub exact : migrate_items migrate 0 p.items_migrated s₀ ≡ ok s
    pub finished : p.is_complete ≡ true → p.items_migrated ≡ item_count

  -- The calls of `migrate_chunk` for pairs of a ledger and a chunk size, one after the other.
  pub migrate_chunks : ℕ → List (ℕ × ℕ) → Progresses → S → Result (Progresses × S)
  migrate_chunks id [] store s = ok (store, s)
  migrate_chunks id ((now, chunk_size) ∷ calls) store s = do
    (p, store', s') ← migrate_chunk migrate now id chunk_size store s
    migrate_chunks id calls store' s'

  -- Where a chunk of a migration ends.
  abbrev chunk_end : ℕ → MigrationProgress → ℕ
  chunk_end chunk_size p = min (p.items_migrated + chunk_size) p.total_items

  abbrev advanced : ℕ → ℕ → MigrationProgress → MigrationProgress
  advanced now chunk_size p = record p {
    items_migrated = chunk_end chunk_size p;
    is_complete = leb p.total_items (chunk_end chunk_size p);
    last_chunk_ledger = some now;
  }

  advanced-IsMigrated :
      (now id chunk_size item_count : ℕ) (s₀ : S) (store : Progresses) (s s' : S)
      (p : MigrationProgress)
      → IsMigrated id item_count s₀ store s p
      → migrate_items migrate p.items_migrated (chunk_end chunk_size p - p.items_migrated) s ≡ ok s'
      → IsMigrated id item_count s₀
          (insert id (some (advanced now chunk_size p)) store)
          s'
          (advanced now chunk_size p)
  advanced-IsMigrated now id chunk_size item_count s₀ store s s' p h e =
      let end_index = chunk_end chunk_size p in
      let fits : p.items_migrated ≤ end_index = omega (arith, h.within, h.size) in
      let whole : p.items_migrated + (end_index - p.items_migrated) ≡ end_index = omega arith in
      let from_start : 0 + p.items_migrated ≡ p.items_migrated = omega arith in
      let items : migrate_items migrate 0 end_index s₀ ≡ ok s' = rw⁻¹ whole (
        migrate_items-add 0 p.items_migrated (end_index - p.items_migrated) s₀
        ∙ rw h.exact (rw from_start e)) in
      record {
        stored = get-insert_self none id (some (advanced now chunk_size p)) store;
        size = h.size;
        within = omega (arith, h.size);
        exact = items;
        finished = λ done. ground (arith, h.size);
      }

  migrate_chunk-IsMigrated :
      (now id chunk_size item_count : ℕ) (s₀ : S) (store : Progresses) (s : S)
      (p : MigrationProgress)
      → IsMigrated id item_count s₀ store s p
      → Post
          (migrate_chunk migrate now id chunk_size store s)
          (λ (p', store', s'). IsMigrated id item_count s₀ store' s' p')
  unfolding migrate_chunk or_panic
  migrate_chunk-IsMigrated now id chunk_size item_count s₀ store s p h = rw (h.stored) (
      Post-panic_if _ p.is_complete _ _ λ _.
        Post-checked_u32 _ (p.items_migrated + chunk_size) _ λ _.
          Post-bind _
            (migrate_items migrate p.items_migrated (chunk_end chunk_size p - p.items_migrated) s) _
            λ s' e. advanced-IsMigrated now id chunk_size item_count s₀ store s s' p h e)

  -- Whatever sizes the chunks of a migration have, what they have done together is the loop over the items up
  -- to the stored progress, in order and without a gap or a repetition, and the migration is marked
  -- complete only when these are all the items.
  pub migrate_chunks-IsMigrated :
      (id : ℕ) (calls : List (ℕ × ℕ)) (item_count : ℕ) (s₀ : S) (store : Progresses) (s : S)
      (p : MigrationProgress)
      → IsMigrated id item_count s₀ store s p
      → Post
          (migrate_chunks id calls store s)
          (λ (store', s'). (p' : MigrationProgress) × IsMigrated id item_count s₀ store' s' p')
  unfolding migrate_chunks
  migrate_chunks-IsMigrated id [] item_count s₀ store s p h = (p, h)
  migrate_chunks-IsMigrated id ((now, chunk_size) ∷ calls) item_count s₀ store s p h =
      Post-bind _ (migrate_chunk migrate now id chunk_size store s) _ λ (p', store', s') e.
        migrate_chunks-IsMigrated id calls item_count s₀ store' s' p'
          (Post-ok _ e (migrate_chunk-IsMigrated now id chunk_size item_count s₀ store s p h))

  -- A migration that is not there yet starts with nothing done.
  start_migration-IsMigrated :
      (now id item_count : ℕ) (store : Progresses) (s : S)
      → get_migration_progress id store ≡ none
      → Post
          (start_migration now id item_count store)
          (λ store'. IsMigrated id item_count s store' s (new_progress now id item_count))
  unfolding start_migration start_from migrate_items
  start_migration-IsMigrated now id item_count store s h = rw h record {
    stored = get-insert_self none id (some (new_progress now id item_count)) store;
    size = refl;
    within = omega arith;
    exact = refl;
    finished = λ c. absurd (cc c);
  }

  -- `migrate_chunk` until the migration is complete, at most `fuel` times.
  pub migrate_all : ℕ → ℕ → ℕ → ℕ → Progresses → S → Result (Progresses × S)
  migrate_all zero now id chunk_size store s = panic "out of fuel"
  migrate_all (suc fuel) now id chunk_size store s = do
    (p, store', s') ← migrate_chunk migrate now id chunk_size store s
    let rest = migrate_all fuel now id chunk_size store' s'
    if p.is_complete then ok (store', s') else rest

  migrate_items-Returns :
      (item_count start count : ℕ) (s : S)
      → ((i : ℕ) (x : S) → i < item_count → Returns (migrate i x))
      → start + count ≤ item_count
      → Returns (migrate_items migrate start count s)
  unfolding migrate_items
  migrate_items-Returns item_count start zero s h k = (s, refl)
  migrate_items-Returns item_count start (suc count) s h k =
      Returns-bind (migrate start s) _ (h start s (omega arith))
        λ s' e. migrate_items-Returns item_count (suc start) count s' h (omega arith)

  -- A chunk of a migration that is not complete goes through where the callback does, and gets ahead.
  migrate_chunk_advances :
      (now id chunk_size item_count : ℕ) (s₀ : S) (store : Progresses) (s : S)
      (p : MigrationProgress)
      → IsMigrated id item_count s₀ store s p
      → p.is_complete ≡ false
      → item_count + chunk_size ≤ u32_max
      → ((i : ℕ) (x : S) → i < item_count → Returns (migrate i x))
      → Ensures (migrate_chunk migrate now id chunk_size store s) (λ (p', store', s').
        IsMigrated id item_count s₀ store' s' p' × (p' ≡ advanced now chunk_size p))
  unfolding migrate_chunk or_panic panic_if checked_u32
  migrate_chunk_advances now id chunk_size item_count s₀ store s p h incomplete small returns =
      let below : leb (p.items_migrated + chunk_size) u32_max ≡ true = ground (arith, h.within) in
      let fits : chunk_end chunk_size p ≤ item_count = omega (arith, h.size) in
      let (s', e) =
        migrate_items-Returns item_count p.items_migrated
          (chunk_end chunk_size p - p.items_migrated) s returns (omega (arith, h.within)) in
      rw (h.stored, incomplete, below, e)
        ((_, refl, (advanced-IsMigrated now id chunk_size item_count s₀ store s s' p h e, refl)))

  -- A migration in progress, which has done the loop over the items up to its stored progress and whose
  -- callback goes through for every item, is completed by calls with the same chunk size, of at least one
  -- item and with item count and chunk size together at most the largest u32, in no more calls than items
  -- are left and one, and has then done the loop over all items.
  pub migrate_all_completes :
      (fuel now id chunk_size item_count : ℕ) (s₀ : S) (store : Progresses) (s : S)
      (p : MigrationProgress)
      → IsMigrated id item_count s₀ store s p
      → p.is_complete ≡ false
      → 1 ≤ chunk_size
      → item_count + chunk_size ≤ u32_max
      → ((i : ℕ) (x : S) → i < item_count → Returns (migrate i x))
      → item_count - p.items_migrated < fuel
      → Ensures
          (migrate_all fuel now id chunk_size store s)
          (λ (store', s'). migrate_items migrate 0 item_count s₀ ≡ ok s')
  unfolding migrate_all
  migrate_all_completes zero now id chunk_size item_count s₀ store s p h i n small returns k =
      absurd (omega arith)
  migrate_all_completes (suc fuel) now id chunk_size item_count s₀ store s p h i n small returns k =
      Ensures-bind _ (migrate_chunk migrate now id chunk_size store s) _
        (migrate_chunk_advances now id chunk_size item_count s₀ store s p h i small returns)
        λ (p', store', s') (h', same).
          let moved : p'.items_migrated ≡ chunk_end chunk_size p =
            ap (λ q. q.items_migrated) same in
          elim (Bool-cases p'.is_complete) [
            | inl done ↦ rw done ((_, refl, rw⁻¹ (h'.finished done) h'.exact))
            | inr more ↦
                let complete : p'.is_complete ≡ leb p.total_items (chunk_end chunk_size p) =
                  ap (λ q. q.is_complete) same in
                let short : chunk_end chunk_size p < p.total_items =
                  leb→gt p.total_items (chunk_end chunk_size p) (rw complete at more) in
                let left : item_count - p'.items_migrated < fuel =
                  omega (arith, moved, short, h.size) in
                rw more (
                  migrate_all_completes fuel now id chunk_size item_count s₀ store' s' p' h' more n
                    small returns left)
          ]
