-- ===== src/Escrow/Custody/Tests.antt =====
-- A log of four entries, read two at a time.
use chainsettle_contract.Base.{ℕ, ◌<◌, ◌≡◌, refl, ◌↔◌, true, none, some, List, [], ◌∷◌, arith}
use chainsettle_contract.Base.Result.{ok, panic_if, Post, Returns}
use chainsettle_contract.Escrow.Custody.{
  HandoffType, received, transferred, stored, departed, CustodyHandoff, CustodyStore,
  get_max_entries, record_handoff_full, get_custody_log_count, verify_from, set_max_entries,
}
use chainsettle_contract.Escrow.Custody.Chain.{IsUnbroken, verify_custody_chain_iff}
use chainsettle_contract.Escrow.Custody.Pages.{read_pages, read_pages_whole}
use chainsettle_contract.Escrow.Custody.Record.{handoff_of, IsAppended, record_handoff_full_outcome}
use chainsettle_contract.Escrow.Custody.Trace.{
  IsBounded, limit_to, custody_call, no_calls, one_more, no_custody, IsExtended, Leads-IsBounded,
  Leads-IsExtended,
}
use chainsettle_contract.Escrow.Tests.{at_ledger}

-- Shipment 77, milestone 0: custodian 5 receives, hands over, custodian 6 receives and stores.
abbrev entry_of : ℕ → HandoffType → CustodyHandoff
entry_of custodian kind = handoff_of (at_ledger 100) custodian kind none none none

abbrev chain_log : List CustodyHandoff
chain_log =
    entry_of 5 received ∷ entry_of 5 transferred ∷ entry_of 6 received ∷ entry_of 6 stored ∷ []

abbrev chain_store : CustodyStore
chain_store = record { logs = (77, (0, chain_log) ∷ []) ∷ []; max_entries = some 5 }

record_handoff_full_outcome_example :
    (Returns (record_handoff_full (at_ledger 100) 77 0 6 departed none none none chain_store) ↔ (
      ((at_ledger 100).approved 6 ≡ true)
      × (get_custody_log_count chain_store 77 0 < get_max_entries chain_store)))
    × Post
        (record_handoff_full (at_ledger 100) 77 0 6 departed none none none chain_store)
        (IsAppended 77 0 (entry_of 6 departed) chain_store)
record_handoff_full_outcome_example =
    record_handoff_full_outcome (at_ledger 100) 77 0 6 departed none none none chain_store

verify_custody_chain_iff_example : IsUnbroken chain_log
unfolding verify_from
verify_custody_chain_iff_example = (verify_custody_chain_iff chain_store 77 0).0 refl

read_pages_whole_example : read_pages chain_store 77 0 3 0 2 ≡ ok chain_log
read_pages_whole_example = read_pages_whole chain_store 77 0 3 2 (omega arith) (omega arith)

after_limit :
    custody_call (at_ledger 100) (limit_to 7) chain_store
    ≡ ok (record chain_store { max_entries = some 7 })
unfolding set_max_entries panic_if
after_limit = refl

Leads-IsBounded_example : IsBounded (record no_custody { max_entries = some 7 })
unfolding set_max_entries panic_if
Leads-IsBounded_example =
    Leads-IsBounded (record no_custody { max_entries = some 7 })
      (one_more (at_ledger 100) (limit_to 7) no_calls tt refl)

Leads-IsExtended_example : IsExtended 77 0 chain_store (record chain_store { max_entries = some 7 })
Leads-IsExtended_example =
    Leads-IsExtended 77 0 chain_store (record chain_store { max_entries = some 7 })
      (one_more (at_ledger 100) (limit_to 7) no_calls refl after_limit)
