-- ===== src/Escrow/Shipment/Done.antt =====
-- Which milestone is the last one, and how long the log gets.
use chainsettle_contract.Base.{
  ℕ, zero, suc, ◌-◌, ◌≤◌, ◌<◌, ◌≡◌, refl, sym, inl, inr, true, List, [], ◌∷◌, arith, leb,
  Bool-cases, length, set, length-append,
}
use chainsettle_contract.Escrow.Shipment.{
  confirmed, Milestone, AuditEntry, shipment_audit_log_max_entries, without_oldest, append_entry,
  is_done, all_milestones_done, is_final_milestone,
}

all_milestones_done-set_done :
    (ms : List Milestone) (index : ℕ) (m : Milestone)
    → is_done m ≡ true
    → index < length ms
    → all_milestones_done (set ms index m) ≡ is_final_milestone ms index
unfolding is_final_milestone
all_milestones_done-set_done [] index m h k = absurd (omega arith)
all_milestones_done-set_done (x ∷ xs) zero m h k = rw h refl
all_milestones_done-set_done (x ∷ xs) (suc index) m h k =
    rw (all_milestones_done-set_done xs index m h (omega arith)) refl

-- Predicting, before a milestone's status is changed, that it is the last one agrees with testing the
-- shipment's milestones after it is confirmed.
is_final_milestone-confirmed :
    (ms : List Milestone) (index : ℕ) (m : Milestone)
    → index < length ms
    → is_final_milestone ms index
      ≡ all_milestones_done (set ms index (record m { status = confirmed }))
is_final_milestone-confirmed ms index m h =
    sym (all_milestones_done-set_done ms index (record m { status = confirmed }) refl h)

-- The entries appended one after the other.
abbrev append_entries : List AuditEntry → List AuditEntry → List AuditEntry
append_entries log [] = log
append_entries log (e ∷ es) = append_entries (append_entry log e) es

without_oldest-length : (log : List AuditEntry) → length (without_oldest log) ≡ length log - 1
without_oldest-length [] = refl
without_oldest-length (x ∷ xs) = omega arith

append_entry-length :
    (log : List AuditEntry) (e : AuditEntry)
    → length log ≤ shipment_audit_log_max_entries
    → length (append_entry log e) ≤ shipment_audit_log_max_entries
unfolding append_entry
append_entry-length log e h = elim (Bool-cases (leb shipment_audit_log_max_entries (length log))) [
  | inl full ↦
      rw full
        (omega (arith, length-append (without_oldest log) (e ∷ []), without_oldest-length log, h))
  | inr space ↦
      let fits : length log < shipment_audit_log_max_entries = ground arith in
      rw space (omega (arith, length-append log (e ∷ []), fits))
]

-- However many entries are appended, a log within its bound stays within it.
append_entries-length :
    (log es : List AuditEntry)
    → length log ≤ shipment_audit_log_max_entries
    → length (append_entries log es) ≤ shipment_audit_log_max_entries
append_entries-length log [] h = h
append_entries-length log (e ∷ es) h =
    append_entries-length (append_entry log e) es (append_entry-length log e h)
