-- ===== src/Registry/Invariant.antt =====
-- The two maps of the registry agree, through every method.
use otel_magnify.Prelude.{
  ◌&&◌, not, ◌⊎◌, inl, inr, Option-cases, ◌≡◌, ◌≢◌, refl, Option, none, some, String, ◌==◌,
  string_eq, arith, eq_iff, if◌then◌else◌,
}
use otel_magnify.Prelude.Dict.{Dict, get, get-delete, get-put}
use otel_magnify.Prelude.Clock.{Time}
use otel_magnify.Registry.Buckets.{find, bucket_of, find-take_out, find-put_in}
use otel_magnify.Registry.{
  Instance, InstanceRegistry, new_instance_registry, stamp, detach, bind_instance, update_instance,
  update_found, unbind_instance, or_empty,
}

-- An instance stands in the bucket of a workload exactly when the cache names that workload for
-- it, and then it carries its own identifier.
pub record Inv (r : InstanceRegistry) : Type 0 where
  pub cached :
      (wl uid : String) (ins : Instance)
      → find r.by_workload wl uid ≡ some ins
      → get r.uid_to_wl uid ≡ some wl
  pub placed : (wl uid : String) → get r.uid_to_wl uid ≡ some wl → find r.by_workload wl uid ≢ none
  pub named :
      (wl uid : String) (ins : Instance)
      → find r.by_workload wl uid ≡ some ins
      → ins.instance_uid ≡ uid

pub new-Inv : Inv new_instance_registry
unfolding new_instance_registry find bucket_of get
new-Inv = record {
  cached = λ wl uid ins h. cc;
  placed = λ wl uid h. cc;
  named = λ wl uid ins h. cc;
}

module _ {r : InstanceRegistry} (v : Inv r) where
  -- An instance is in no bucket but the one that the cache names.
  only_there : (w uid : String) → (find r.by_workload w uid ≡ none) ⊎ (get r.uid_to_wl uid ≡ some w)
  only_there w uid = elim (Option-cases (find r.by_workload w uid)) [
    | inl e ↦ inl e
    | inr (i, e) ↦ inr (v.cached w uid i e)
  ]

module _ (uid wl w u : String) (by : Dict String (Dict String Instance)) where
  find-detach :
      (prev : Option String)
      → (find by w uid ≡ none) ⊎ (prev ≡ some w)
      → find (detach prev uid wl by) w u
        ≡ (if wl == w then find by w u else if uid == u then none else find by w u)
  unfolding detach
  find-detach none h = ground (arith, eq_iff uid u)
  find-detach (some p) h =
      ground (arith, find-take_out p uid w u by, eq_iff uid u, eq_iff p w, eq_iff p wl, eq_iff wl w)

module _ {r : InstanceRegistry} (v : Inv r) (uid wl : String) (ins : Instance)
    (connected last : Time) (w u : String) where
  pub find-bind : find (bind_instance uid wl ins connected last r).0.by_workload w u ≡ (
      if uid == u
      then (if wl == w then some (stamp uid connected last ins) else none)
      else find r.by_workload w u)
  unfolding bind_instance
  find-bind = ground (
    arith,
    find-put_in wl uid w u (stamp uid connected last ins)
        (detach (get r.uid_to_wl uid) uid wl r.by_workload),
    find-detach uid wl w u r.by_workload (get r.uid_to_wl uid) (only_there v w uid),
    eq_iff uid u,
  )

pub uid-bind :
    (r : InstanceRegistry) (uid wl : String) (ins : Instance) (connected last : Time) (u : String)
    → get (bind_instance uid wl ins connected last r).0.uid_to_wl u
      ≡ (if uid == u then some wl else get r.uid_to_wl u)
unfolding bind_instance
uid-bind r uid wl ins connected last u = get-put r.uid_to_wl uid u wl

module _ {r : InstanceRegistry} (v : Inv r) (uid wl : String) (ins : Instance)
    (connected last : Time) where
  pub bind-Inv : Inv (bind_instance uid wl ins connected last r).0
  unfolding stamp
  bind-Inv = record {
    cached = λ w u i h. ground (
      arith,
      find-bind v uid wl ins connected last w u,
      uid-bind r uid wl ins connected last u,
      eq_iff wl w,
      v.cached w u i,
    );
    placed = λ w u h. ground (
      arith,
      find-bind v uid wl ins connected last w u,
      uid-bind r uid wl ins connected last u,
      eq_iff wl w,
      v.placed w u,
    );
    named = λ w u i h.
        ground (arith, find-bind v uid wl ins connected last w u, eq_iff uid u, v.named w u i);
  }

-- What `UpdateInstance` makes of an instance.
unfoldable pub touch : (Instance → Instance) → Time → Option Instance → Option Instance
touch mutate last none = none
touch mutate last (some i) = some (record (mutate i) { last_message_at = last })

pub uid-update :
    (uid : String) (mutate : Instance → Instance) (last : Time) (r : InstanceRegistry)
    → (update_instance uid mutate last r).0.uid_to_wl ≡ r.uid_to_wl
unfolding update_instance
uid-update uid mutate last r = ground arith

module _ {r : InstanceRegistry} (v : Inv r) (uid : String) (mutate : Instance → Instance)
    (last : Time) where
  module _ (w u : String) where
    find-found :
        (wl : String) (o : Option Instance)
        → get r.uid_to_wl uid ≡ some wl
        → find r.by_workload wl uid ≡ o
        → find (update_found uid mutate last wl o r).0.by_workload w u ≡ (
            if uid == u then touch mutate last (find r.by_workload w u) else find r.by_workload w u)
    unfolding update_found touch
    find-found wl none e f = ground (arith, only_there v w uid, eq_iff uid u, eq_iff wl w)
    find-found wl (some i) e f = ground (
      arith,
      only_there v w uid,
      find-put_in wl uid w u (record (mutate i) { last_message_at = last }) r.by_workload,
      eq_iff uid u,
      eq_iff wl w,
    )

    pub find-update :
        find (update_instance uid mutate last r).0.by_workload w u
        ≡ (if uid == u then touch mutate last (find r.by_workload w u) else find r.by_workload w u)
    unfolding update_instance touch
    find-update = elim (Option-cases (get r.uid_to_wl uid)) [
      | inl e ↦ rw (e, update_instance) (ground (arith, only_there v w uid, eq_iff uid u))
      | inr (wl, e) ↦ rw (e, update_instance) (find-found wl (find r.by_workload wl uid) e refl)
    ]

  pub update-Inv :
      ((i : Instance) → (mutate i).instance_uid ≡ i.instance_uid)
      → Inv (update_instance uid mutate last r).0
  unfolding touch
  update-Inv keeps = record {
    cached = λ w u i h. rw uid-update (elim (Option-cases (find r.by_workload w u)) [
      | inl e ↦ ground (arith, find-update w u)
      | inr (j, e) ↦ v.cached w u j e
    ]);
    placed = λ w u h. ground (arith, find-update w u, uid-update uid mutate last r, v.placed w u);
    named = λ w u i h. elim (Option-cases (find r.by_workload w u)) [
      | inl e ↦ ground (arith, find-update w u)
      | inr (j, e) ↦ ground (arith, find-update w u, keeps j, v.named w u j)
    ];
  }

pub uid-unbind :
    (r : InstanceRegistry) (uid u : String)
    → get (unbind_instance uid r).0.uid_to_wl u
      ≡ (if uid == u && not (or_empty (get r.uid_to_wl uid) == "") then none else get r.uid_to_wl u)
unfolding unbind_instance
uid-unbind r uid u = ground (arith, get-delete r.uid_to_wl uid u)

module _ {r : InstanceRegistry} (v : Inv r) (uid : String) where
  pub find-unbind :
      (w u : String)
      → find (unbind_instance uid r).0.by_workload w u ≡ (
          if uid == u && not (or_empty (get r.uid_to_wl uid) == "")
          then none
          else find r.by_workload w u)
  unfolding unbind_instance or_empty
  find-unbind w u = elim (Option-cases (get r.uid_to_wl uid)) [
    | inl e ↦ rw e (ground (arith, eq_iff "" ""))
    | inr (wl, e) ↦ rw e (
        ground (
          arith,
          only_there v w uid,
          find-take_out wl uid w u r.by_workload,
          eq_iff uid u,
          eq_iff wl w,
        ))
  ]

  pub unbind-Inv : Inv (unbind_instance uid r).0
  unbind-Inv = record {
    cached = λ w u i h. ground (arith, find-unbind w u, uid-unbind r uid u, v.cached w u i);
    placed = λ w u h. ground (arith, find-unbind w u, uid-unbind r uid u, v.placed w u);
    named = λ w u i h. ground (arith, find-unbind w u, v.named w u i);
  }
