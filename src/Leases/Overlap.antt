-- ===== src/Leases/Overlap.antt =====
-- When two periods overlap.
use mytenancyplus.Prelude.{
  Date, ◌≡◌, ◌≤◌, ◌↔◌, true, Option, arith, leb, ◌&&◌, ◌==◌, false, if◌then◌else◌,
}
use mytenancyplus.Models.Lease.{Lease, is_active}
use mytenancyplus.Leases.{Period, until, ends_early, date_ranges_overlap, overlapping_lease_query}

-- The day lies in the period, whose two ends are in it; no end means that it never ends.
abbrev pub Covers : Date → Option Date → Date → Type 0
Covers start end_ day = (start ≤ day) × (until day end_ ≡ true)

-- The later of two days.
abbrev later : Date → Date → Date
later a b = if leb a b then b else a

-- Periods that do not end before they start overlap exactly when they have a day in common.
pub overlap_iff_common_day :
    (a : Date) (b : Option Date) (c : Date) (d : Option Date)
    → ends_early a b ≡ false
    → ends_early c d ≡ false
    → (date_ranges_overlap a b c d ≡ true) ↔ ((day : Date) × Covers a b day × Covers c d day)
unfolding date_ranges_overlap
overlap_iff_common_day a b c d p q = (
  λ h. (later a c, (ground arith, ground arith), (ground arith, ground arith)),
  λ (day, first, second). ground arith,
)

-- The database query finds the active leases of the unit that overlap the period.
pub query-eq-overlap :
    (p : Period) (l : Lease)
    → overlapping_lease_query p l ≡ (
        l.organization_id == p.organization_id
        && l.unit_id == p.unit_id
        && is_active l.status
        && date_ranges_overlap p.starts_on p.ends_on l.starts_on l.ends_on)
unfolding overlapping_lease_query date_ranges_overlap
query-eq-overlap p l = ground arith
