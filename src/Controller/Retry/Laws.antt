-- ===== src/Controller/Retry/Laws.antt =====
-- The bounds of the back-off, and what the annotations record.
use Prim.Native.String.{◌++◌}
use flux_externalsource_cont.Prelude.{
  ℕ, suc, ◌+◌, ◌<◌, ◌≤◌, ◌^◌, String, ◌≡◌, refl, ◌↔◌, Bool, true, false, Option, none, some,
  if◌then◌else◌, arith, Option-cases, ◌⊎◌, inl, inr,
}
use flux_externalsource_cont.Prelude.Int.{
  ℤ, pos, pos_part, neg_part, ◌+ℤ◌, ◌≤ℤ◌, ◌<ℤ◌, ltb_ℤ, leb_ℤ, wrap64, wrap64_small,
}
use flux_externalsource_cont.Prelude.Text.{codes}
use flux_externalsource_cont.Prelude.Dict.{Dict, lookup, insert, dict_laws}
use flux_externalsource_cont.Api.{ExternalSource}
use flux_externalsource_cont.Controller.Reconciler.{Reconciler}
use flux_externalsource_cont.Controller.Pass.{Pass}
use flux_externalsource_cont.Controller.Errors.{transient_error, classify_error}
use flux_externalsource_cont.Controller.Retry.{
  get_retry_count, calculate_retry_delay, increment_retry_count, clear_retry_count,
  get_backoff_duration, retry_count_annotation, last_failure_annotation, backoff_start_annotation,
  read_annotation, eqb_ℤ, scanned, annotations_or_empty, seed_from,
}

next_low : (z : ℤ) → pos_part z + 1 < 2 ^ 63 → pos_part (z +ℤ pos 1) < 2 ^ 63
unfolding ◌+ℤ◌
next_low z h = ground arith

next_high : (z : ℤ) → neg_part z ≤ 2 ^ 63 → neg_part (z +ℤ pos 1) ≤ 2 ^ 63
unfolding ◌+ℤ◌
next_high z h = ground arith

next_fits :
    (z : ℤ) → pos_part z + 1 < 2 ^ 63 → neg_part z ≤ 2 ^ 63 → wrap64 (z +ℤ pos 1) ≡ z +ℤ pos 1
next_fits z h k = wrap64_small (z +ℤ pos 1) (next_low z h) (next_high z k)

-- the last tests of `calculateRetryDelay`, with the delay at its maximum and a positive jitter
above_max :
    (most base attempts count : ℤ) (n : ℕ)
    → pos 0 <ℤ most
    → pos_part most + n + 1 < 2 ^ 63
    → base ≤ℤ most
    → count <ℤ attempts
    → most <ℤ (
        if leb_ℤ attempts count
        then pos 0
        else if ltb_ℤ (wrap64 (most +ℤ pos (suc n))) base
        then base
        else wrap64 (most +ℤ pos (suc n)))
unfolding ◌+ℤ◌
above_max most base attempts count n positive fits le lt =
    ground (arith, wrap64_small (most +ℤ pos (suc n)))

-- what `incrementRetryCount` writes, on a first failure or a later one
abbrev written : Dict String → String → String → String → Bool → Dict String
written m count failure start first =
    if first
    then insert backoff_start_annotation start
        (insert last_failure_annotation failure (insert retry_count_annotation count m))
    else insert last_failure_annotation failure (insert retry_count_annotation count m)

lookup-written :
    (m : Dict String) (count failure start : String) (first : Bool)
    → (lookup retry_count_annotation (written m count failure start first) ≡ some count)
      × (lookup last_failure_annotation (written m count failure start first) ≡ some failure)
      × (lookup backoff_start_annotation (written m count failure start first)
          ≡ (if first then some start else lookup backoff_start_annotation m))
lookup-written m count failure start true = simp dict_laws (refl, refl, refl)
lookup-written m count failure start false = simp dict_laws (refl, refl, refl)

read_or_empty :
    (key : String) (a : Option (Dict String))
    → lookup key (annotations_or_empty a) ≡ read_annotation key a
unfolding lookup
read_or_empty key none = refl
read_or_empty key (some m) = refl

module _ (r : Reconciler) where
  -- With a positive base delay, a delay is positive exactly for a transient error within the
  -- allowed attempts; and a delay is zero or at least the base delay, whatever the jitter.
  pub calculate_retry_delay_iff :
      (source : ExternalSource) (e : String)
      → pos 0 <ℤ r.retry.base_delay
      → ((pos 0 <ℤ calculate_retry_delay r source e) ↔ (
          (classify_error e ≡ transient_error)
          × (get_retry_count r source <ℤ r.retry.max_attempts)))
        × ((calculate_retry_delay r source e ≡ pos 0)
            ⊎ (r.retry.base_delay ≤ℤ calculate_retry_delay r source e))
  unfolding calculate_retry_delay
  calculate_retry_delay_iff source e h = ground arith

  -- the seed of the generator for this retry of the object
  abbrev pub jitter_seed : ExternalSource → ℤ
  jitter_seed source = wrap64 (
      seed_from (pos 0) (codes (source.metadata.namespace ++ "/" ++ source.metadata.name))
      +ℤ get_retry_count r source)

  capped_at_max :
      (most grown : ℤ) → most ≤ℤ grown → (if ltb_ℤ most grown then most else grown) ≡ most
  capped_at_max most grown h = ground arith

  -- The cap on the delay is applied before the jitter: for a transient error within the allowed
  -- attempts, once the exponential has reached a positive maximum that the base delay is not
  -- above, the delay is above the maximum if the jitter that the object's name and its retry count
  -- give is positive, and the sum fits 64 bits.
  pub max_delay-lt-calculate_retry_delay :
      (source : ExternalSource) (e : String) (n : ℕ)
      → classify_error e ≡ transient_error
      → get_retry_count r source <ℤ r.retry.max_attempts
      → pos 0 <ℤ r.retry.max_delay
      → r.retry.max_delay ≤ℤ r.floats.exponential r.retry.base_delay (get_retry_count r source)
      → r.floats.jitter r.retry.max_delay r.retry.jitter_factor (jitter_seed source) ≡ pos (suc n)
      → pos_part r.retry.max_delay + n + 1 < 2 ^ 63
      → r.retry.base_delay ≤ℤ r.retry.max_delay
      → r.retry.max_delay <ℤ calculate_retry_delay r source e
  unfolding calculate_retry_delay
  max_delay-lt-calculate_retry_delay source e n transient count positive reached jitter fits base =
      rw (transient, calculate_retry_delay)
        (rw (capped_at_max r.retry.max_delay _ reached, jitter)
          (above_max r.retry.max_delay r.retry.base_delay r.retry.max_attempts
            (get_retry_count r source) n positive fits base count))

  -- The documented behaviour of Sprintf and Sscanf at %d: a printed int64 is read back.
  abbrev pub ScansPrinted : Type 0
  ScansPrinted =
      (z : ℤ) → pos_part z < 2 ^ 63 → neg_part z ≤ 2 ^ 63 → r.scan_int (r.print_int z) ≡ some z

  module _ (s : Pass r) (e : String) where
    abbrev first : Bool
    first = eqb_ℤ (get_retry_count r s.source) (pos 0)

    written_lem :
        (increment_retry_count r e s).1.source.metadata.annotations
        ≡ some (
            written
              (annotations_or_empty s.source.metadata.annotations)
              (r.print_int (wrap64 (get_retry_count r s.source +ℤ pos 1)))
              e
              (r.format_rfc3339 (r.now s.world))
              first)
    unfolding increment_retry_count
    written_lem = refl

    counted :
        ScansPrinted
        → pos_part (get_retry_count r s.source) + 1 < 2 ^ 63
        → neg_part (get_retry_count r s.source) ≤ 2 ^ 63
        → get_retry_count r (increment_retry_count r e s).1.source
          ≡ get_retry_count r s.source +ℤ pos 1
    unfolding get_retry_count
    counted scans low high =
        let z = scanned r (read_annotation retry_count_annotation s.source.metadata.annotations) in
        rw written_lem (
          rw ((lookup-written _ _ _ _ first).0, next_fits z low high)
            (rw (scans (z +ℤ pos 1) (next_low z low) (next_high z high))))

    failure_annotation :
        read_annotation last_failure_annotation
          (increment_retry_count r e s).1.source.metadata.annotations
        ≡ some e
    failure_annotation = rw written_lem ((lookup-written _ _ _ _ first).1)

    start_annotation :
        read_annotation backoff_start_annotation
          (increment_retry_count r e s).1.source.metadata.annotations
        ≡ (if first
            then some (r.format_rfc3339 (r.now s.world))
            else read_annotation backoff_start_annotation s.source.metadata.annotations)
    start_annotation = rw written_lem (
        rw (← read_or_empty backoff_start_annotation s.source.metadata.annotations)
          ((lookup-written _ _ _ _ first).2))

  -- If Sscanf reads what Sprintf prints, and the next count fits 64 bits, a failure is counted:
  -- the next read of the count gives one more, the message is kept, and the start of the back-off
  -- is written by a first failure and kept by later ones.
  pub increment_retry_count_lem :
      (s : Pass r) (e : String)
      → ScansPrinted
      → pos_part (get_retry_count r s.source) + 1 < 2 ^ 63
      → neg_part (get_retry_count r s.source) ≤ 2 ^ 63
      → (let after = (increment_retry_count r e s).1.source in
          (get_retry_count r after ≡ get_retry_count r s.source +ℤ pos 1)
          × (read_annotation last_failure_annotation after.metadata.annotations ≡ some e)
          × (read_annotation backoff_start_annotation after.metadata.annotations ≡ (
              if eqb_ℤ (get_retry_count r s.source) (pos 0)
              then some (r.format_rfc3339 (r.now s.world))
              else read_annotation backoff_start_annotation s.source.metadata.annotations)))
  increment_retry_count_lem s e scans low high =
      (counted s e scans low high, failure_annotation s e, start_annotation s e)

  -- A success forgets the count and the start of the back-off.
  clear_retry_count_lem :
      (s : Pass r)
      → (get_retry_count r (clear_retry_count r s).1.source ≡ pos 0)
        × (get_backoff_duration r (clear_retry_count r s).1 ≡ pos 0)
  unfolding get_retry_count clear_retry_count get_backoff_duration
  clear_retry_count_lem s = elim (Option-cases s.source.metadata.annotations) [
    | inl e ↦ rw (e, clear_retry_count) (rw e (refl, refl))
    | inr (annotations, e) ↦ rw (e, clear_retry_count) (simp dict_laws (refl, refl))
  ]
