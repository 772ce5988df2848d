-- ===== src/Detections/Attachments/Metering.antt =====
-- What the attachment cascade meters, and which layer decides.
use envelock.Prelude.{
  ℕ, ◌+◌, ◌*◌, ◌≡◌, refl, true, Option, none, some, arith, if◌then◌else◌, Bool-cases, inl, inr,
  subst, sym,
}
use envelock.Detections.Attachments.{Verdict, CascadeResult, StaticVerdict}
use envelock.Detections.Attachments.Cache.{get}
use envelock.Detections.Attachments.Triage.{static_triage}
use envelock.Detections.Attachments.Layers.{
  Cascade, CascadeState, Attachment, is_resolved, fall_through, detonation_layer, reputation_layer,
  static_layer, cache_layer, analyse, reputation_of,
}

-- The cost of a result is what the metrics grew by, none of it for a detonation.
abbrev pub Metered : CascadeState → CascadeResult × CascadeState → Type 0
Metered s done =
    (done.1.metrics.cost_micros ≡ s.metrics.cost_micros + done.0.cost_micros)
    × (done.1.metrics.detonations ≡ s.metrics.detonations)
    × (done.0.cost_micros + 100 * s.metrics.reputation_calls
        ≡ 100 * done.1.metrics.reputation_calls)
    × (done.1.metrics.seen ≡ s.metrics.seen)

module _ (c : Cascade) (now : ℕ) (a : Attachment) where
  -- No file is detonated: the layer has no provider.
  no_detonation :
      (t : StaticVerdict) (s : CascadeState) → detonation_layer c now a t s ≡ fall_through a t s
  unfolding detonation_layer
  no_detonation t s = ground arith

  fall_through-Metered : (t : StaticVerdict) (s : CascadeState) → Metered s (fall_through a t s)
  unfolding fall_through
  fall_through-Metered t s = (omega arith, refl, omega arith, refl)

  reputation_layer-Metered :
      (t : StaticVerdict) (v : Option Verdict) (s : CascadeState)
      → Metered s (reputation_layer c now a t v s)
  unfolding reputation_layer
  reputation_layer-Metered t none s =
      subst (Metered s) (sym (no_detonation t s)) (fall_through-Metered t s)
  reputation_layer-Metered t (some v) s = (omega arith, refl, omega arith, refl)

  static_layer-Metered :
      (t : StaticVerdict) (s : CascadeState) → Metered s (static_layer c now a t s)
  unfolding static_layer
  static_layer-Metered t s = elim (Bool-cases (is_resolved t.verdict)) [
    | inl h ↦ rw h (omega arith, refl, omega arith, refl)
    | inr h ↦ rw h (
        reputation_layer-Metered t
          (if c.reputation_available then reputation_of (c.lookup_stats a.sha256) else none) s)
  ]

  cache_layer-Metered :
      (v : Option Verdict) (s : CascadeState) → Metered s (cache_layer c now a v s)
  unfolding cache_layer
  cache_layer-Metered none s =
      static_layer-Metered (static_triage a.name a.payload a.declared_mime) s
  cache_layer-Metered (some v) s = (omega arith, refl, omega arith, refl)

-- Every attachment is seen once, and what is metered is what its result says it cost: a hundred for each
-- look-up that resolved something, and nothing for a detonation.
pub analyse_metered :
    (c : Cascade) (now : ℕ) (a : Attachment) (s : CascadeState)
    → ((analyse c now a s).1.metrics.cost_micros
        ≡ s.metrics.cost_micros + (analyse c now a s).0.cost_micros)
      × ((analyse c now a s).1.metrics.detonations ≡ s.metrics.detonations)
      × ((analyse c now a s).0.cost_micros + 100 * s.metrics.reputation_calls
          ≡ 100 * (analyse c now a s).1.metrics.reputation_calls)
      × ((analyse c now a s).1.metrics.seen ≡ s.metrics.seen + 1)
unfolding analyse
analyse_metered c now a s =
    let looked = get c.ttl now a.sha256 s.entries in
    let counted : CascadeState = record {
      entries = looked.1;
      metrics = record s.metrics { seen = s.metrics.seen + 1 };
    } in
    cache_layer-Metered c now a looked.0 counted

-- A file that the static triage finds malicious or clean never reaches a paid layer, whatever the cache
-- holds.
pub triaged_is_free :
    (c : Cascade) (now : ℕ) (a : Attachment) (s : CascadeState)
    → is_resolved (static_triage a.name a.payload a.declared_mime).verdict ≡ true
    → (analyse c now a s).0.cost_micros ≡ 0
unfolding analyse cache_layer static_layer
triaged_is_free c now a s h =
    let looked = get c.ttl now a.sha256 s.entries in
    free looked.0
      (record { entries = looked.1; metrics = record s.metrics { seen = s.metrics.seen + 1 } })
  where
    free : (v : Option Verdict) (t : CascadeState) → (cache_layer c now a v t).0.cost_micros ≡ 0
    free none t = rw h refl
    free (some v) t = refl
