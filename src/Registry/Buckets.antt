-- ===== src/Registry/Buckets.antt =====
-- A map of maps, as `byWorkload` is used: a bucket for each workload, none of them empty.
use otel_magnify.Prelude.{
  ◌≡◌, Option, none, some, [], ◌∷◌, String, ◌==◌, string_eq, ◌&&◌, arith, eq_iff, if◌then◌else◌,
}
use otel_magnify.Prelude.Dict.{Dict, get, delete, put, get-delete, get-put}

module _ {V : Type 0} where
  -- Reading a missing bucket gives Go's nil map, which is empty.
  unfoldable pub bucket_of : Dict String (Dict String V) → String → Dict String V
  bucket_of by wl = elim (get by wl) [ none ↦ [] | some b ↦ b ]

  unfoldable pub find : Dict String (Dict String V) → String → String → Option V
  find by wl uid = get (bucket_of by wl) uid

  -- `if len(b) == 0 { delete(by, wl) }`
  unfoldable pub keep_filled :
      String → Dict String V → Dict String (Dict String V) → Dict String (Dict String V)
  keep_filled wl [] by = delete by wl
  keep_filled wl (x ∷ b) by = put by wl (x ∷ b)

  unfoldable pub take_out :
      String → String → Dict String (Dict String V) → Dict String (Dict String V)
  take_out wl uid by = keep_filled wl (delete (bucket_of by wl) uid) by

  unfoldable pub put_in :
      String → String → V → Dict String (Dict String V) → Dict String (Dict String V)
  put_in wl uid v by = put by wl (put (bucket_of by wl) uid v)

  bucket-keep_filled :
      (wl w : String) (b : Dict String V) (by : Dict String (Dict String V))
      → bucket_of (keep_filled wl b by) w ≡ (if wl == w then b else bucket_of by w)
  unfolding bucket_of keep_filled
  bucket-keep_filled wl w [] by = ground (arith, get-delete by wl w)
  bucket-keep_filled wl w (x ∷ b) by = ground (arith, get-put by wl w (x ∷ b))

  pub bucket-take_out :
      (wl uid w : String) (by : Dict String (Dict String V))
      → bucket_of (take_out wl uid by) w
        ≡ (if wl == w then delete (bucket_of by wl) uid else bucket_of by w)
  unfolding take_out
  bucket-take_out wl uid w by = bucket-keep_filled wl w (delete (bucket_of by wl) uid) by

  pub bucket-put_in :
      (wl uid w : String) (v : V) (by : Dict String (Dict String V))
      → bucket_of (put_in wl uid v by) w
        ≡ (if wl == w then put (bucket_of by wl) uid v else bucket_of by w)
  unfolding bucket_of put_in
  bucket-put_in wl uid w v by = ground (arith, get-put by wl w (put (bucket_of by wl) uid v))

  pub find-take_out :
      (wl uid w u : String) (by : Dict String (Dict String V))
      → find (take_out wl uid by) w u ≡ (if wl == w && uid == u then none else find by w u)
  unfolding find
  find-take_out wl uid w u by =
      ground (arith, bucket-take_out wl uid w by, get-delete (bucket_of by wl) uid u, eq_iff wl w)

  pub find-put_in :
      (wl uid w u : String) (v : V) (by : Dict String (Dict String V))
      → find (put_in wl uid v by) w u ≡ (if wl == w && uid == u then some v else find by w u)
  unfolding find
  find-put_in wl uid w u v by =
      ground (arith, bucket-put_in wl uid w v by, get-put (bucket_of by wl) uid u v, eq_iff wl w)

pub ruleset bucket_laws = (find-take_out, find-put_in)
