-- ===== src/PushStatus/Counts.antt =====
-- The counts of a push add up, and its status is what they say.
use otel_magnify.Prelude.{
  ℕ, ◌+◌, ◌≤◌, ◌≡◌, ◌⊎◌, Bool, false, ◌&&◌, ◌||◌, not, any, refl, true, ltb, List, [], ◌∷◌, length,
  arith, map, inl, inr, nat_eq, All,
}
use otel_magnify.Version.Strings.{Text, text_eq, text_eq_sound}
use otel_magnify.PushStatus.{
  InstanceStatus, Tally, tally, tally_status, tally_timeout, no_status, hydrate_instance,
  overlay_timeout, failed_status, applied_status, applying_status,
}

pub tally-sum :
    (is : List InstanceStatus) (c : Tally)
    → (tally is c).applied_count + (tally is c).failed_count + (tally is c).pending_count
      ≡ length is + (c.applied_count + c.failed_count + c.pending_count)
unfolding tally tally_status tally_timeout
tally-sum [] c = omega arith
tally-sum (i ∷ is) c = ground (arith, tally-sum is (tally_status i.status (tally_timeout i c)))

-- An instance is marked as timed out only with no status.
abbrev Marked : InstanceStatus → Type 0
Marked i = (i.timed_out ≡ false) ⊎ (i.status ≡ no_status)

hydrate-Marked :
    (lower : ℕ → ℕ) (late : Bool) (i : InstanceStatus) → Marked (hydrate_instance lower late i)
unfolding hydrate_instance overlay_timeout
hydrate-Marked lower late i = ground arith

pub hydrated-Marked :
    (lower : ℕ → ℕ) (late : Bool) (is : List InstanceStatus)
    → All Marked (map (hydrate_instance lower late) is)
hydrated-Marked lower late [] = tt
hydrated-Marked lower late (i ∷ is) = (hydrate-Marked lower late i, hydrated-Marked lower late is)

-- The order of the counts of the instances without a status.
pub record Ordered (c : Tally) : Type 0 where
  pub marked_least : c.timed_out_count ≤ c.no_status_count
  pub pending_most : c.no_status_count ≤ c.pending_count

count-Ordered :
    (i : InstanceStatus) (c : Tally)
    → Marked i
    → Ordered c
    → Ordered (tally_status i.status (tally_timeout i c))
unfolding tally_status tally_timeout text_eq
count-Ordered i c (inl e) h = record {
  marked_least = ground (arith, e, h.marked_least);
  pending_most = ground (arith, e, h.pending_most);
}
count-Ordered i c (inr e) h = rw e (record {
  marked_least = ground (arith, h.marked_least);
  pending_most = ground (arith, h.pending_most);
})

pub tally-Ordered :
    (is : List InstanceStatus) (c : Tally) → All Marked is → Ordered c → Ordered (tally is c)
unfolding tally
tally-Ordered [] c m h = h
tally-Ordered (i ∷ is) c m h =
    tally-Ordered is (tally_status i.status (tally_timeout i c)) m.1 (count-Ordered i c m.0 h)

abbrev pub has_status : Text → InstanceStatus → Bool
has_status st i = text_eq i.status st

pub text_apart : (t a b : Text) → text_eq a b ≡ false → text_eq t a ≡ true → text_eq t b ≡ false
text_apart t a b h e = rw (text_eq_sound t a e) h

failed_apart :
    (t : Text)
    → text_eq t failed_status ≡ true
    → (text_eq t applied_status ≡ false) × (text_eq t applying_status ≡ false)
unfolding text_eq
failed_apart t h = (
  text_apart t failed_status applied_status refl h,
  text_apart t failed_status applying_status refl h,
)

-- The tests of the switch on the counts, by the status of each instance.
pub tally-failed :
    (is : List InstanceStatus) (c : Tally)
    → ltb 0 (tally is c).failed_count ≡ (ltb 0 c.failed_count || any (has_status failed_status) is)
unfolding tally tally_status tally_timeout
tally-failed [] c = ground arith
tally-failed (i ∷ is) c =
    let k = tally_status i.status (tally_timeout i c) in
    ground (arith, tally-failed is k, failed_apart i.status)

pub tally-applying :
    (is : List InstanceStatus) (c : Tally)
    → (tally is c).has_applying_or_applied ≡ (
        c.has_applying_or_applied
        || any (has_status applied_status) is
        || any (has_status applying_status) is)
unfolding tally tally_status tally_timeout
tally-applying [] c = ground arith
tally-applying (i ∷ is) c =
    let k = tally_status i.status (tally_timeout i c) in ground (arith, tally-applying is k)

pub tally-every :
    (is : List InstanceStatus) (c : Tally)
    → (tally is c).all_applied
      ≡ (c.all_applied && not (any (λ i. not (has_status applied_status i)) is))
unfolding tally tally_status tally_timeout
tally-every [] c = ground arith
tally-every (i ∷ is) c =
    let k = tally_status i.status (tally_timeout i c) in ground (arith, tally-every is k)
