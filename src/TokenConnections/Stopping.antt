-- ===== src/TokenConnections/Stopping.antt =====
-- The goroutines of internal/opamp/token_connections.go that finish removals and disablings, beside a
-- stop that waits for them.
use otel_magnify.Prelude.{
  ◌∙◌, sym, ℕ, ◌≡◌, refl, true, false, not, ◌&&◌, Option, none, some, List, [], ◌∷◌, all, String,
  ◌==◌, string_eq, nat_eq, arith, eq_iff, nat_beq_iff, Bool-cases, Option-cases, inl, inr,
}
use otel_magnify.Prelude.Dict.{get, put, get-put}
use otel_magnify.TokenConnections.Sets.{has}
use otel_magnify.TokenConnections.{
  RemoveState, Progress, draining, notified, awaiting, finished, DisableState, TokenConnections,
  is_disabled, release,
}
use otel_magnify.TokenConnections.Shutdown.{
  is_held, is_idle, is_finished, complete_token_remove, complete_all, complete_remove, is_done,
  drain_entry, drain_remove, forget_removal, finish_entry, finish_remove, notify, advance_entry,
  advance_disable,
}
use otel_magnify.TokenConnections.Invariant.{
  is_unfinished, entry_unfinished, is_undone, state_undone, Stopping,
}
use otel_magnify.TokenConnections.Refusing.{Kept, has-put_disable}

-- Steps of the goroutines that finish removals and disablings and start none.
pub record Settling (c d : TokenConnections) : Type 0 where
  pub kept : Kept c d
  pub unfinished : (id : String) → is_unfinished d id ≡ true → is_unfinished c id ≡ true
  pub undone : (r : ℕ) → is_undone d r ≡ true → is_undone c r ≡ true

Settling-refl : (c : TokenConnections) → Settling c c
Settling-refl c = record {
  kept = record { stop_state = refl; stopped = refl; disabled = λ id e. e };
  unfinished = λ id e. e;
  undone = λ r e. e;
}

Settling-trans : (c d e : TokenConnections) → Settling c d → Settling d e → Settling c e
Settling-trans c d e f g = record {
  kept = record {
    stop_state = g.kept.stop_state ∙ f.kept.stop_state;
    stopped = g.kept.stopped ∙ f.kept.stopped;
    disabled = λ id h. g.kept.disabled id (f.kept.disabled id h);
  };
  unfinished = λ id h. f.unfinished id (g.unfinished id h);
  undone = λ r h. f.undone r (g.undone r h);
}

pub release-Settling : (l : ℕ) (c : TokenConnections) → Settling c (release l c)
unfolding release is_disabled is_unfinished is_undone
release-Settling l c = record {
  kept = record { stop_state = refl; stopped = refl; disabled = λ id e. e };
  unfinished = λ id e. e;
  undone = λ r e. e;
}

put_state-Settling :
    (r : ℕ) (rs new : RemoveState) (c : TokenConnections)
    → get c.remove_states r ≡ some rs
    → (new.done ≡ false → rs.done ≡ false)
    → Settling c (record c { remove_states = put c.remove_states r new })
unfolding is_disabled is_unfinished is_undone state_undone
put_state-Settling r rs new c e f = record {
  kept = record { stop_state = refl; stopped = refl; disabled = λ id e. e };
  unfinished = λ id e. e;
  undone = λ q g. ground (arith, e, f, g, get-put c.remove_states r q new, nat_beq_iff r q);
}

complete_token_remove-Settling :
    (r : ℕ) (c : TokenConnections) → Settling c (complete_token_remove r c)
unfolding complete_token_remove
complete_token_remove-Settling r c = elim (Option-cases (get c.remove_states r)) [
  | inl n ↦ rw (n, complete_token_remove) (Settling-refl c)
  | inr (rs, e) ↦
      rw (e, complete_token_remove)
        (put_state-Settling r rs (record rs { cleanup_done = true }) c e (λ x. x))
]

pub complete_all-Settling : (rs : List ℕ) (c : TokenConnections) → Settling c (complete_all rs c)
unfolding complete_all
complete_all-Settling [] c = Settling-refl c
complete_all-Settling (r ∷ rs) c =
    Settling-trans c _ _ (complete_token_remove-Settling r c) (complete_all-Settling rs _)

pub complete_remove-Settling : (s : ℕ) (c : TokenConnections) → Settling c (complete_remove s c)
unfolding complete_remove
complete_remove-Settling s c = elim (Option-cases (get c.removals s)) [
  | inl n ↦ rw (n, complete_remove) (Settling-refl c)
  | inr (r, e) ↦ rw (e, complete_remove) (complete_token_remove-Settling r c)
]

pub drain_remove-Settling : (r : ℕ) (c : TokenConnections) → Settling c (drain_remove r c)
unfolding drain_remove drain_entry
drain_remove-Settling r c = elim (Option-cases (get c.remove_states r)) [
  | inl n ↦ rw (n, drain_remove, drain_entry) (Settling-refl c)
  | inr (rs, e) ↦ elim (Bool-cases (is_held c rs.session)) [
    | inl b ↦ rw (e, drain_remove, drain_entry, b) (Settling-refl c)
    | inr b ↦
        rw (e, drain_remove, drain_entry, b)
          (put_state-Settling r rs (record rs { drained = true }) c e (λ x. x))
  ]
]

forget_removal-Settling :
    (token_of : ℕ → String) (r : ℕ) (rs : RemoveState) (o : Option ℕ) (c : TokenConnections)
    → Settling c (forget_removal token_of r rs o c)
unfolding forget_removal is_disabled is_unfinished is_undone
forget_removal-Settling token_of r rs none c = Settling-refl c
forget_removal-Settling token_of r rs (some q) c = elim (Bool-cases (q == r)) [
  | inr b ↦ rw (b, forget_removal) (Settling-refl c)
  | inl b ↦
      rw (b, forget_removal)
        (record {
          kept = record { stop_state = refl; stopped = refl; disabled = λ id e. e };
          unfinished = λ id e. e;
          undone = λ r e. e;
        })
]

pub finish_remove-Settling :
    (token_of : ℕ → String) (r : ℕ) (c : TokenConnections) → Settling c (finish_remove token_of r c)
unfolding finish_remove finish_entry
finish_remove-Settling token_of r c = elim (Option-cases (get c.remove_states r)) [
  | inl n ↦ rw (n, finish_remove, finish_entry) (Settling-refl c)
  | inr (rs, e) ↦ elim (Bool-cases (rs.drained && rs.cleanup_done && not rs.done)) [
    | inr b ↦ rw (e, finish_remove, finish_entry, b) (Settling-refl c)
    | inl b ↦
        rw (e, finish_remove, finish_entry, b)
          (Settling-trans c _ _
            (put_state-Settling r rs (record rs { done = true }) c e (λ x. ground (arith, x)))
            (forget_removal-Settling token_of r rs (get c.removals rs.session) _))
  ]
]

put_disable-Settling :
    (id : String) (d new : DisableState) (calls : List (List ℕ)) (c : TokenConnections)
    → get c.disable_states id ≡ some d
    → is_finished d.progress ≡ false
    → Settling c (record c { disable_states = put c.disable_states id new; disabled = calls })
unfolding is_disabled is_unfinished entry_unfinished is_undone has
put_disable-Settling id d new calls c e f = record {
  kept = record {
    stop_state = refl;
    stopped = refl;
    disabled = λ j h. has-put_disable c.disable_states id j new h;
  };
  unfinished = λ j g. ground (arith, e, f, g, get-put c.disable_states id j new, eq_iff id j);
  undone = λ q g. g;
}

advance_entry-Settling :
    (id : String) (d : DisableState) (p : Progress) (c : TokenConnections)
    → get c.disable_states id ≡ some d
    → d.progress ≡ p
    → Settling c (advance_entry id d p c)
unfolding advance_entry is_finished
advance_entry-Settling id d draining c g e = elim (Bool-cases (is_idle c d.sessions)) [
  | inl b ↦
      rw (b, advance_entry)
        (put_disable-Settling id d (record d { progress = notified }) (notify d.sessions c.disabled)
          c g (rw e refl))
  | inr b ↦ rw (b, advance_entry) (Settling-refl c)
]
advance_entry-Settling id d notified c g e =
    Settling-trans c _ _
      (put_disable-Settling id d (record d { progress = awaiting }) c.disabled c g (rw e refl))
      (complete_all-Settling d.owned_removals _)
advance_entry-Settling id d awaiting c g e = elim (Bool-cases (all (is_done c) d.removals)) [
  | inl b ↦
      rw (b, advance_entry)
        (put_disable-Settling id d
          (record { sessions = []; removals = []; owned_removals = []; progress = finished })
          c.disabled c g (rw e refl))
  | inr b ↦ rw (b, advance_entry) (Settling-refl c)
]
advance_entry-Settling id d finished c g e = Settling-refl c

pub advance_disable-Settling :
    (id : String) (c : TokenConnections) → Settling c (advance_disable id c)
unfolding advance_disable
advance_disable-Settling id c = elim (Option-cases (get c.disable_states id)) [
  | inl n ↦ rw (n, advance_disable) (Settling-refl c)
  | inr (d, e) ↦ rw (e, advance_disable) (advance_entry-Settling id d d.progress c e refl)
]

pub Settling-Stopping : (c d : TokenConnections) → Settling c d → Stopping c → Stopping d
Settling-Stopping c d f h = record {
  knows = λ st id e u. h.knows st id (sym f.kept.stop_state ∙ e) (f.unfinished id u);
  rests = λ st id e p. ground (arith, f.unfinished id, h.rests st id (sym f.kept.stop_state ∙ e) p);
  removed = λ st r e p. ground (arith, f.undone r, h.removed st r (sym f.kept.stop_state ∙ e) p);
}
