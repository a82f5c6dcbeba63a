-- ===== src/Registry/Status.antt =====
-- What the registry reports of a workload: its aggregated status and its number of instances.
use otel_magnify.Prelude.{
  ◌≡◌, ◌≢◌, ◌↔◌, inl, inr, refl, Bool, true, false, not, Option, none, some, [], ◌∷◌, String, ◌==◌,
  string_eq, arith, eq_iff, eq_refl, if◌then◌else◌, Option-cases, suc, Bool-cases,
}
use otel_magnify.Prelude.Dict.{
  Dict, get, IsMap, put-IsMap, delete-IsMap, any-get, get-any, get-empty, length-put_fresh,
}
use otel_magnify.Prelude.Clock.{Time}
use otel_magnify.Registry.Buckets.{
  find, bucket_of, take_out, put_in, bucket-take_out, bucket-put_in,
}
use otel_magnify.Registry.{
  Instance, InstanceRegistry, new_instance_registry, stamp, detach, bind_instance, update_instance,
  update_found, unbind_instance, or_empty, bucket_status, aggregated_status, count,
}

-- Each bucket holds an instance once.
pub record BucketsAreMaps (r : InstanceRegistry) : Type 0 where
  pub bucket : (wl : String) → IsMap (bucket_of r.by_workload wl)

abbrev AllMaps : Dict String (Dict String Instance) → Type 0
AllMaps by = (wl : String) → IsMap (bucket_of by wl)

take_out-AllMaps :
    (wl uid : String) (by : Dict String (Dict String Instance))
    → AllMaps by
    → AllMaps (take_out wl uid by)
take_out-AllMaps wl uid by h w = rw bucket-take_out (elim (Bool-cases (wl == w)) [
  | inl e ↦ rw e (delete-IsMap (bucket_of by wl) uid (h wl))
  | inr e ↦ rw e (h w)
])

put_in-AllMaps :
    (wl uid : String) (i : Instance) (by : Dict String (Dict String Instance))
    → AllMaps by
    → AllMaps (put_in wl uid i by)
put_in-AllMaps wl uid i by h w = rw bucket-put_in (elim (Bool-cases (wl == w)) [
  | inl e ↦ rw e (put-IsMap (bucket_of by wl) uid i (h wl))
  | inr e ↦ rw e (h w)
])

detach-AllMaps :
    (prev : Option String) (uid wl : String) (by : Dict String (Dict String Instance))
    → AllMaps by
    → AllMaps (detach prev uid wl by)
unfolding detach
detach-AllMaps none uid wl by h = h
detach-AllMaps (some p) uid wl by h = elim (Bool-cases (p == wl)) [
  | inl e ↦ rw e h
  | inr e ↦ rw e (take_out-AllMaps p uid by h)
]

pub new-BucketsAreMaps : BucketsAreMaps new_instance_registry
unfolding new_instance_registry bucket_of get
new-BucketsAreMaps = record { bucket = λ wl. tt }

module _ {r : InstanceRegistry} (m : BucketsAreMaps r) where
  pub bind-BucketsAreMaps :
      (uid wl : String) (ins : Instance) (connected last : Time)
      → BucketsAreMaps (bind_instance uid wl ins connected last r).0
  unfolding bind_instance
  bind-BucketsAreMaps uid wl ins connected last = record {
    bucket =
        put_in-AllMaps wl uid _ _
          (detach-AllMaps (get r.uid_to_wl uid) uid wl r.by_workload m.bucket);
  }

  update_found-BucketsAreMaps :
      (uid : String) (mutate : Instance → Instance) (last : Time) (wl : String)
      (o : Option Instance)
      → BucketsAreMaps (update_found uid mutate last wl o r).0
  unfolding update_found
  update_found-BucketsAreMaps uid mutate last wl none = m
  update_found-BucketsAreMaps uid mutate last wl (some i) = record {
    bucket = put_in-AllMaps wl uid _ _ m.bucket;
  }

  pub update-BucketsAreMaps :
      (uid : String) (mutate : Instance → Instance) (last : Time)
      → BucketsAreMaps (update_instance uid mutate last r).0
  unfolding update_instance
  update-BucketsAreMaps uid mutate last = elim (Option-cases (get r.uid_to_wl uid)) [
    | inl e ↦ rw (e, update_instance) m
    | inr (wl, e) ↦
        rw (e, update_instance)
          (update_found-BucketsAreMaps uid mutate last wl (find r.by_workload wl uid))
  ]

  pub unbind-BucketsAreMaps : (uid : String) → BucketsAreMaps (unbind_instance uid r).0
  unfolding unbind_instance
  unbind-BucketsAreMaps uid = elim (Bool-cases (or_empty (get r.uid_to_wl uid) == "")) [
    | inl e ↦ rw (e, unbind_instance) m
    | inr e ↦
        rw (e, unbind_instance)
          (record {
            bucket = take_out-AllMaps (or_empty (get r.uid_to_wl uid)) uid r.by_workload m.bucket;
          })
  ]

-- Some instance at the workload has the property.
abbrev pub Holds : InstanceRegistry → String → (Instance → Type 0) → Type 0
Holds r wl P = (uid : String) × (ins : Instance) × (find r.by_workload wl uid ≡ some ins) × P ins

abbrev word : Bool → String
word b = if b then "degraded" else "connected"

word-ne-disconnected : (b : Bool) → word b ≢ "disconnected"
word-ne-disconnected true = λ h. ground (arith, eq_iff "degraded" "disconnected")
word-ne-disconnected false = λ h. ground (arith, eq_iff "connected" "disconnected")

word_degraded : (b : Bool) → word b ≡ "degraded" → b ≡ true
word_degraded true h = refl
word_degraded false h = ground (arith, eq_iff "connected" "degraded")

bucket_disconnected :
    (b : Dict String Instance)
    → (bucket_status b ≡ "disconnected") ↔ ((uid : String) → get b uid ≡ none)
unfolding bucket_status get
bucket_disconnected [] = (λ h uid. refl, λ h. refl)
bucket_disconnected ((k, i) ∷ b) =
    (λ h. absurd (word-ne-disconnected _ h), λ h. absurd (ground (arith, h k, eq_iff k k)))

bucket_degraded :
    (b : Dict String Instance)
    → IsMap b
    → (bucket_status b ≡ "degraded")
      ↔ ((uid : String) × (ins : Instance) × (get b uid ≡ some ins) × (ins.healthy ≡ false))
unfolding bucket_status get
bucket_degraded [] m = (
  λ h. ground (arith, eq_iff "disconnected" "degraded"),
  λ (u, i, g, q). ground (arith, get-empty u),
)
bucket_degraded (e ∷ b) m = (
  λ h.
      let (u, i, g, q) = any-get (λ (i : Instance). not i.healthy) (e ∷ b) m (word_degraded _ h) in
      (u, i, g, ground arith),
  λ (u, i, g, q). rw (get-any (λ (i : Instance). not i.healthy) (e ∷ b) u i g (rw q)),
)

-- The status is "disconnected" exactly where no instance is at the workload.
pub disconnected_iff :
    (r : InstanceRegistry) (wl : String)
    → (aggregated_status wl r ≡ "disconnected")
      ↔ ((uid : String) → find r.by_workload wl uid ≡ none)
unfolding aggregated_status find
disconnected_iff r wl = bucket_disconnected (bucket_of r.by_workload wl)

-- Where every bucket holds an instance once, the status is "degraded" exactly where an instance
-- at the workload is not healthy.
pub degraded_iff :
    (r : InstanceRegistry) (wl : String)
    → BucketsAreMaps r
    → (aggregated_status wl r ≡ "degraded") ↔ Holds r wl (λ ins. ins.healthy ≡ false)
unfolding aggregated_status find
degraded_iff r wl m = bucket_degraded (bucket_of r.by_workload wl) (m.bucket wl)

-- An instance that was at no workload makes its new workload's count grow by one.
pub count-bind_fresh :
    (r : InstanceRegistry) (uid wl : String) (ins : Instance) (connected last : Time)
    → get r.uid_to_wl uid ≡ none
    → find r.by_workload wl uid ≡ none
    → count wl (bind_instance uid wl ins connected last r).0 ≡ suc (count wl r)
unfolding count bind_instance detach find
count-bind_fresh r uid wl ins connected last e f =
    rw (e, bucket-put_in, eq_refl wl)
      (length-put_fresh (bucket_of r.by_workload wl) uid (stamp uid connected last ins) f)
