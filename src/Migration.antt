-- ===== src/Migration.antt =====
-- Migrations in chunks (contracts/chainsetttle/src/paged_migration.rs): the progress that is stored under a
-- migration's identifier, and the operations on it.
pub mod Chunks
mod Tests
use chainsettle_contract.Base.{
  ℕ, zero, suc, ◌+◌, ◌-◌, min, Bool, true, false, not, Option, none, some, leb, ◌==◌, if◌then◌else◌,
}
use chainsettle_contract.Base.Dict.{Dict, get, insert, erase}
use chainsettle_contract.Base.Result.{
  Result, ok, panic, ◌>>=◌, panic_if, or_panic, checked_u32, ◌>>◌,
}
use chainsettle_contract.Base.Sum.{total}

pub record MigrationProgress : Type 0 where
  pub migration_id : ℕ
  pub total_items : ℕ
  pub items_migrated : ℕ
  pub is_complete : Bool
  pub started_at_ledger : ℕ
  pub last_chunk_ledger : Option ℕ

-- The keys `MigrationKey::Progress`.
abbrev pub Progresses : Type 0
Progresses = Dict (Option MigrationProgress)

abbrev pub get_migration_progress : ℕ → Progresses → Option MigrationProgress
get_migration_progress id store = get none id store

abbrev migration_exists : ℕ → Progresses → Bool
migration_exists id store = elim (get_migration_progress id store) [ none ↦ false | some p ↦ true ]

-- The progress of a migration that starts at ledger `now`.
abbrev pub new_progress : ℕ → ℕ → ℕ → MigrationProgress
new_progress now id total = record {
  migration_id = id;
  total_items = total;
  items_migrated = 0;
  is_complete = false;
  started_at_ledger = now;
  last_chunk_ledger = none;
}

pub start_from : ℕ → ℕ → ℕ → Option MigrationProgress → Progresses → Result Progresses
start_from now id total none store = ok (insert id (some (new_progress now id total)) store)
start_from now id total (some p) store =
    if p.is_complete
    then ok store
    else if p.total_items == total
    then ok store
    else panic "migration already in progress with different total_items"

pub start_migration : ℕ → ℕ → ℕ → Progresses → Result Progresses
start_migration now id total store = start_from now id total (get_migration_progress id store) store

module _ {ℓ} {S : Type ℓ} (migrate : ℕ → S → Result S) where
  -- The loop over `count` items from `start` on.
  pub migrate_items : ℕ → ℕ → S → Result S
  migrate_items start zero s = ok s
  migrate_items start (suc count) s = migrate start s >>= λ s'. migrate_items (suc start) count s'

  -- `migrate_chunk` at ledger `now`, on the progress and on what the callback works on.
  pub migrate_chunk : ℕ → ℕ → ℕ → Progresses → S → Result (MigrationProgress × Progresses × S)
  migrate_chunk now id chunk_size store s = do
    p ← or_panic (get_migration_progress id store) "migration not started"
    panic_if p.is_complete "migration already complete"
    edge ← checked_u32 (p.items_migrated + chunk_size)
    let end_index = min edge p.total_items
    s' ← migrate_items p.items_migrated (end_index - p.items_migrated) s
    let p' = record p {
      items_migrated = end_index;
      is_complete = leb p.total_items end_index;
      last_chunk_ledger = some now;
    }
    ok (p', insert id (some p') store, s')

abort_migration : ℕ → Progresses → Result Progresses
abort_migration id store = do
  panic_if (not (migration_exists id store)) "migration does not exist"
  ok (erase id store)

cleanup_migration : ℕ → Progresses → Result Progresses
cleanup_migration id store = do
  p ← or_panic (get_migration_progress id store) "migration does not exist"
  panic_if (not p.is_complete) "cannot cleanup incomplete migration"
  ok (erase id store)
