-- ===== src/Registry.antt =====
-- internal/opamp/registry.go: who is connected to which workload. Each method holds the mutex, so
-- it is one step from a registry to the next. Clock readings are arguments.
pub mod Buckets
pub mod Invariant
pub mod View
pub mod Status
mod Examples
use otel_magnify.Prelude.{
  ℕ, Bool, true, false, Option, none, some, List, [], ◌∷◌, String, ◌==◌, string_eq, length, any,
  all, not, if◌then◌else◌,
}
use otel_magnify.Prelude.Dict.{Dict, get, delete, put}
use otel_magnify.Prelude.Clock.{Time, is_zero}
use Buckets.{take_out, put_in, find, bucket_of}

-- models.RemoteConfigStatus, without the push row that handleRemoteConfigStatus adds for clients.
pub record RemoteConfigStatus : Type 0 where
  pub status : String
  pub config_hash : String
  pub error_message : String
  pub updated_at : Time

pub record Instance : Type 0 where
  pub instance_uid : String
  pub pod_name : String
  pub version : String
  pub connected_at : Time
  pub last_message_at : Time
  pub effective_config_hash : String
  pub healthy : Bool
  pub accepts_remote_config : Bool
  pub remote_config_capability_known : Bool
  pub remote_config_status : Option RemoteConfigStatus

pub record InstanceRegistry : Type 0 where
  pub by_workload : Dict String (Dict String Instance)
  pub uid_to_wl : Dict String String

unfoldable pub new_instance_registry : InstanceRegistry
new_instance_registry = record { by_workload = []; uid_to_wl = [] }

-- What `BindInstance` writes into the instance: `connected` and `last` are its clock readings.
unfoldable pub stamp : String → Time → Time → Instance → Instance
stamp uid connected last ins = record ins {
  instance_uid = uid;
  connected_at = if is_zero ins.connected_at then connected else ins.connected_at;
  last_message_at = last;
}

-- The instance is taken out of the bucket of another workload, if it is in one.
unfoldable pub detach :
    Option String
    → String
    → String
    → Dict String (Dict String Instance)
    → Dict String (Dict String Instance)
detach none uid wl by = by
detach (some prev) uid wl by = if prev == wl then by else take_out prev uid by

unfoldable pub is_none : Option String → Bool
is_none none = true
is_none (some w) = false

unfoldable pub bind_instance :
    String → String → Instance → Time → Time → InstanceRegistry → InstanceRegistry × Bool
unfolding detach is_none
bind_instance uid wl ins connected last r =
    let prev = get r.uid_to_wl uid in
    let by = detach prev uid wl r.by_workload in
    (
      record {
        by_workload = put_in wl uid (stamp uid connected last ins) by;
        uid_to_wl = put r.uid_to_wl uid wl;
      },
      is_none prev,
    )

unfoldable pub update_found :
    String
    → (Instance → Instance)
    → Time
    → String
    → Option Instance
    → InstanceRegistry
    → InstanceRegistry × Bool
update_found uid mutate last wl none r = (r, false)
update_found uid mutate last wl (some ins) r = (
  record r {
    by_workload = put_in wl uid (record (mutate ins) { last_message_at = last }) r.by_workload;
  },
  true,
)

unfoldable pub update_instance :
    String → (Instance → Instance) → Time → InstanceRegistry → InstanceRegistry × Bool
unfolding update_found
update_instance uid mutate last r = elim (get r.uid_to_wl uid) [
  | none ↦ (r, false)
  | some wl ↦ update_found uid mutate last wl (find r.by_workload wl uid) r
]

-- Go's map read: the zero value where the key is missing.
unfoldable pub or_empty : Option String → String
or_empty none = ""
or_empty (some w) = w

unfoldable pub unbind_instance : String → InstanceRegistry → InstanceRegistry × String
unfolding or_empty
unbind_instance uid r =
    let wl = or_empty (get r.uid_to_wl uid) in
    if wl == "" then (r, "") else (
      record { by_workload = take_out wl uid r.by_workload; uid_to_wl = delete r.uid_to_wl uid },
      wl,
    )

unfoldable pub lookup_workload : String → InstanceRegistry → Option String
lookup_workload uid r = get r.uid_to_wl uid

-- `Count`
unfoldable pub count : String → InstanceRegistry → ℕ
count wl r = length (bucket_of r.by_workload wl)

-- The tests of `AggregatedStatus` on a bucket.
unfoldable pub bucket_status : Dict String Instance → String
bucket_status [] = "disconnected"
bucket_status (e ∷ b) =
    if any (λ (x : String × Instance). not x.1.healthy) (e ∷ b) then "degraded" else "connected"

unfoldable pub aggregated_status : String → InstanceRegistry → String
aggregated_status wl r = bucket_status (bucket_of r.by_workload wl)

unfoldable pub version_of : Option Instance → Option String
version_of none = none
version_of (some ins) = some ins.version

unfoldable pub previous_version : String → InstanceRegistry → Option String
unfolding version_of or_empty
previous_version uid r =
    let wl = or_empty (get r.uid_to_wl uid) in
    if wl == "" then none else version_of (find r.by_workload wl uid)
