-- ===== src/Registry/Examples.antt =====
-- Tests of the registry, and its theorems at a small registry.
use otel_magnify.Prelude.{◌≡◌, ◌↔◌, refl, true, false, none, some}
use otel_magnify.Prelude.Dict.{get, put, delete}
use otel_magnify.Registry.Buckets.{find, bucket_of, put_in, take_out, keep_filled}
use otel_magnify.Registry.{
  Instance, InstanceRegistry, new_instance_registry, stamp, bind_instance, update_instance,
  unbind_instance, aggregated_status, bucket_status, count, previous_version,
}
use otel_magnify.Registry.Invariant.{Inv, new-Inv, bind-Inv, unbind-Inv}
use otel_magnify.Registry.View.{
  view, seen, touched, bind_fresh, view-unbind, view-update, update_succeeds,
}
use otel_magnify.Registry.Status.{Holds, new-BucketsAreMaps, bind-BucketsAreMaps, degraded_iff}

abbrev pod : Instance
pod = record {
  instance_uid = "";
  pod_name = "pod-a";
  version = "1.2.3";
  connected_at = 0;
  last_message_at = 0;
  effective_config_hash = "";
  healthy = false;
  accepts_remote_config = true;
  remote_config_capability_known = true;
  remote_config_status = none;
}

abbrev one_bound : InstanceRegistry
one_bound = (bind_instance "i1" "w1" pod 5 6 new_instance_registry).0

-- Opens the methods for a test.
opened : InstanceRegistry
unfolding get put delete find bucket_of put_in take_out keep_filled stamp bind_instance
    update_instance unbind_instance aggregated_status bucket_status count previous_version
    new_instance_registry
opened = one_bound

moved_status : aggregated_status "w1" (bind_instance "i1" "w2" pod 7 7 one_bound).0 ≡ "disconnected"
unfolding opened
moved_status = refl

rebound_version : previous_version "i1" one_bound ≡ some "1.2.3"
unfolding opened
rebound_version = refl

one_bound-Inv : Inv one_bound
one_bound-Inv = bind-Inv new-Inv "i1" "w1" pod 5 6

two_bound-Inv : Inv (bind_instance "i2" "w1" pod 8 9 one_bound).0
two_bound-Inv = bind-Inv one_bound-Inv "i2" "w1" pod 8 9

bind-Inv_example : Inv (bind_instance "i1" "w2" pod 8 9 one_bound).0
bind-Inv_example = bind-Inv one_bound-Inv "i1" "w2" pod 8 9

unbind-Inv_example : Inv (unbind_instance "i1" one_bound).0
unbind-Inv_example = unbind-Inv one_bound-Inv "i1"

bind_fresh_example : (bind_instance "i1" "w2" pod 8 9 one_bound).1 ≡ false
unfolding opened view
bind_fresh_example = bind_fresh one_bound-Inv "i1" "w2" pod 8 9

view-unbind_example :
    (view (unbind_instance "i1" one_bound).0 "i1" ≡ none)
    × ((unbind_instance "i1" one_bound).1 ≡ "w1")
unfolding opened view
view-unbind_example = view-unbind one_bound-Inv "i1" "i1"

view-update_example :
    view (update_instance "i1" (λ i. record i { healthy = true }) 20 one_bound).0 "i1"
    ≡ touched (λ i. record i { healthy = true }) 20 (view one_bound "i1")
view-update_example = view-update one_bound-Inv "i1" (λ i. record i { healthy = true }) 20 "i1"

update_succeeds_example :
    (update_instance "i9" (λ i. i) 20 one_bound).1 ≡ seen (view one_bound "i9")
update_succeeds_example = update_succeeds one_bound-Inv "i9" (λ i. i) 20

degraded_iff_example :
    (aggregated_status "w1" one_bound ≡ "degraded")
    ↔ Holds one_bound "w1" (λ ins. ins.healthy ≡ false)
degraded_iff_example =
    degraded_iff one_bound "w1" (bind-BucketsAreMaps new-BucketsAreMaps "i1" "w1" pod 5 6)
