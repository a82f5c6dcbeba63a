-- ===== src/Registry/View.antt =====
-- The registry as its callers see it: a partial map from instances to a workload and a state.
use otel_magnify.Prelude.{
  sym, ◌∙◌, Bool-cases, ◌≡◌, inl, inr, refl, Bool, true, false, not, ◌&&◌, Option, none, some,
  String, ◌==◌, string_eq, arith, eq_iff, if◌then◌else◌, Option-cases,
}
use mathlib.Core.Option
use otel_magnify.Prelude.Dict.{get}
use otel_magnify.Prelude.Clock.{Time}
use otel_magnify.Registry.Buckets.{find}
use otel_magnify.Registry.Invariant.{Inv, touch, find-update, uid-update, find-unbind, uid-unbind}
use otel_magnify.Registry.{
  Instance, InstanceRegistry, is_none, bind_instance, update_instance, update_found,
  unbind_instance, or_empty,
}

-- The workload of an instance and its state; `none` where it is not connected.
unfoldable pub view : InstanceRegistry → String → Option (String × Instance)
view r uid = elim (get r.uid_to_wl uid) [
  | none ↦ none
  | some wl ↦ Option.map (λ ins. (wl, ins)) (find r.by_workload wl uid)
]

abbrev pub seen : Option (String × Instance) → Bool
seen none = false
seen (some e) = true

abbrev pub workload_of : Option (String × Instance) → String
workload_of none = ""
workload_of (some e) = e.0

abbrev pub touched :
    (Instance → Instance) → Time → Option (String × Instance) → Option (String × Instance)
touched mutate last none = none
touched mutate last (some (wl, i)) = some (wl, record (mutate i) { last_message_at = last })

-- The view in terms of the two reads that it makes.
view-none : (r : InstanceRegistry) (u : String) → get r.uid_to_wl u ≡ none → view r u ≡ none
unfolding view
view-none r u e = rw (e, view)

view-some :
    (r : InstanceRegistry) (u wl : String) {o : Option Instance}
    → get r.uid_to_wl u ≡ some wl
    → find r.by_workload wl u ≡ o
    → view r u ≡ Option.map (λ i. (wl, i)) o
unfolding view
view-some r u wl e f = rw (e, f, view)

module _ {r : InstanceRegistry} (v : Inv r) where
  -- Where the cache has a workload, the view has the instance.
  view_bound :
      (u wl : String)
      → get r.uid_to_wl u ≡ some wl
      → (i : Instance) × (find r.by_workload wl u ≡ some i) × (view r u ≡ some (wl, i))
  view_bound u wl e = elim (Option-cases (find r.by_workload wl u)) [
    | inl f ↦ absurd (v.placed wl u e f)
    | inr (i, f) ↦ (i, f, view-some r u wl e f)
  ]

unbind_result :
    (r : InstanceRegistry) (uid : String)
    → (unbind_instance uid r).1 ≡ or_empty (get r.uid_to_wl uid)
unfolding unbind_instance
unbind_result r uid = ground (arith, eq_iff (or_empty (get r.uid_to_wl uid)) "")

-- Two registries that agree at an instance show it alike.
same_view :
    (r q : InstanceRegistry) (u : String)
    → get q.uid_to_wl u ≡ get r.uid_to_wl u
    → ((w : String) → find q.by_workload w u ≡ find r.by_workload w u)
    → view q u ≡ view r u
same_view r q u e f = elim (Option-cases (get r.uid_to_wl u)) [
  | inl g ↦ view-none q u (e ∙ g) ∙ sym (view-none r u g)
  | inr (w, g) ↦ view-some q u w (e ∙ g) (f w) ∙ sym (view-some r u w g refl)
]

module _ {r : InstanceRegistry} (v : Inv r) (uid wl : String) (ins : Instance)
    (connected last : Time) where
  -- The result of `BindInstance` tells whether the instance was not seen before.
  pub bind_fresh : (bind_instance uid wl ins connected last r).1 ≡ not (seen (view r uid))
  unfolding bind_instance is_none
  bind_fresh = elim (Option-cases (get r.uid_to_wl uid)) [
    | inl e ↦ rw (e, view-none r uid e)
    | inr (w, e) ↦ rw (e, (view_bound v _ w e).2)
  ]

module _ {r : InstanceRegistry} (v : Inv r) (uid : String) where
  cached-view : or_empty (get r.uid_to_wl uid) ≡ workload_of (view r uid)
  unfolding or_empty
  cached-view = elim (Option-cases (get r.uid_to_wl uid)) [
    | inl e ↦ rw (e, view-none r uid e)
    | inr (w, e) ↦ rw (e, (view_bound v _ w e).2)
  ]

  -- `UnbindInstance` returns the workload at which the instance is seen, or "", and afterwards the
  -- instance is not seen, unless its workload is named ""; the others are seen as before.
  pub view-unbind :
      (u : String)
      → (view (unbind_instance uid r).0 u
          ≡ (if uid == u && not (workload_of (view r uid) == "") then none else view r u))
        × ((unbind_instance uid r).1 ≡ workload_of (view r uid))
  view-unbind u =
      rw (← cached-view)
        (elim (Bool-cases (uid == u && not (or_empty (get r.uid_to_wl uid) == ""))) [
          | inl e ↦ (rw e (view-none _ u (rw (uid-unbind, e))), returned)
          | inr e ↦ (
            rw e (same_view r _ u (rw (uid-unbind, e)) (λ w. rw (find-unbind v uid w u, e))),
            returned,
          )
        ])
    where
      returned : (unbind_instance uid r).1 ≡ or_empty (get r.uid_to_wl uid)
      returned = unbind_result r uid

module _ {r : InstanceRegistry} (v : Inv r) (uid : String) (mutate : Instance → Instance)
    (last : Time) where
  update_bound :
      (wl : String) (i : Instance)
      → get r.uid_to_wl uid ≡ some wl
      → find r.by_workload wl uid ≡ some i
      → (update_instance uid mutate last r).1 ≡ true
  unfolding update_instance update_found
  update_bound wl i e f = rw (e, f, update_instance)

  update_unknown : get r.uid_to_wl uid ≡ none → (update_instance uid mutate last r).1 ≡ false
  unfolding update_instance
  update_unknown e = rw (e, update_instance)

  -- `UpdateInstance` succeeds exactly at an instance that is seen.
  pub update_succeeds : (update_instance uid mutate last r).1 ≡ seen (view r uid)
  update_succeeds = elim (Option-cases (get r.uid_to_wl uid)) [
    | inl e ↦ rw (view-none r uid e) (update_unknown e)
    | inr (wl, e) ↦ let (i, f, g) = view_bound v uid wl e in rw g (update_bound wl i e f)
  ]

  -- It changes that instance as asked, stamps the time of the message, and no other is touched.
  pub view-update :
      (u : String)
      → view (update_instance uid mutate last r).0 u
        ≡ (if uid == u then touched mutate last (view r u) else view r u)
  unfolding touch
  view-update u = elim (Option-cases (get r.uid_to_wl u)) [
    | inl e ↦ rw (view-none r u e) (view-none after u (rw uid-update e) ∙ ground arith)
    | inr (wl, e) ↦
        let (i, f, g) = view_bound v u wl e in
        rw g (
          view-some after u wl (rw uid-update e) (find-update v uid mutate last wl u)
          ∙ rw f (ground arith))
  ]
    where
      after : InstanceRegistry
      after = (update_instance uid mutate last r).0
