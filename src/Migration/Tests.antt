-- ===== src/Migration/Tests.antt =====
-- Migrations at concrete items.
use chainsettle_contract.Base.{ℕ, ◌≡◌, refl, some, List, [], ◌∷◌, arith}
use chainsettle_contract.Base.Dict.{insert}
use chainsettle_contract.Base.Result.{Result, ok, Post, Ensures}
use chainsettle_contract.Migration.{MigrationProgress, Progresses, new_progress, migrate_items}
use chainsettle_contract.Migration.Chunks.{
  IsMigrated, migrate_chunks, migrate_chunks-IsMigrated, migrate_all, migrate_all_completes,
}

abbrev push : ℕ → List ℕ → Result (List ℕ)
push i xs = ok (i ∷ xs)

-- The second of two migrations, started at ledger 100, over five items.
abbrev begun : Progresses
begun = insert 7 (some (new_progress 100 7 5)) ((6, some (new_progress 90 6 2)) ∷ [])

begun-IsMigrated : IsMigrated push 7 5 [] begun [] (new_progress 100 7 5)
unfolding migrate_items
begun-IsMigrated = record {
  stored = refl;
  size = refl;
  within = omega arith;
  exact = refl;
  finished = λ c. absurd (cc c);
}

migrate_chunks-IsMigrated_example :
    Post
      (migrate_chunks push 7 ((101, 2) ∷ (105, 3) ∷ []) begun [])
      (λ (store', s'). (p' : MigrationProgress) × IsMigrated push 7 5 [] store' s' p')
migrate_chunks-IsMigrated_example =
    migrate_chunks-IsMigrated push 7 ((101, 2) ∷ (105, 3) ∷ []) 5 [] begun [] (new_progress 100 7 5)
      begun-IsMigrated

migrate_all_completes_example :
    Ensures
      (migrate_all push 6 101 7 2 begun [])
      (λ (store', s'). migrate_items push 0 5 [] ≡ ok s')
migrate_all_completes_example =
    migrate_all_completes push 6 101 7 2 5 [] begun [] (new_progress 100 7 5) begun-IsMigrated refl
      (omega arith) (omega arith) (λ i xs h. (i ∷ xs, refl)) (omega arith)
