-- ===== src/Controller/Retry.antt =====
-- Retry accounting in the annotations, and the back-off: `calculateRetryDelay` to
-- `shouldResetRetryCount`.
pub mod Laws
use flux_externalsource_cont.Prelude.{
  ℕ, ◌+◌, ◌-◌, ◌%◌, String, Bool, true, false, not, ◌||◌, Option, none, some, List, [], ◌∷◌, ok,
  eqb, leb, ltb, ◌&&◌, if◌then◌else◌,
}
use Prim.Native.String.{◌++◌}
use flux_externalsource_cont.Prelude.Int.{
  ℤ, pos, negsuc, pos_part, neg_part, sub_ℕ, ◌+ℤ◌, ◌-ℤ◌, ◌*ℤ◌, ltb_ℤ, leb_ℤ, wrap64,
}
use flux_externalsource_cont.Prelude.Dict.{Dict, lookup, insert, remove}
use flux_externalsource_cont.Prelude.Text.{codes}
use flux_externalsource_cont.Api.{ExternalSource, ObjectMeta}
use flux_externalsource_cont.Controller.Reconciler.{Reconciler}
use flux_externalsource_cont.Controller.Pass.{Pass, Act}
use flux_externalsource_cont.Controller.Errors.{
  ErrorType, transient_error, permanent_error, configuration_error, classify_error,
}
use flux_externalsource_cont.Controller.Conditions.{stalled_condition}

abbrev pub retry_count_annotation : String
retry_count_annotation = "source.flux.oddkin.co/retry-count"

abbrev pub last_failure_annotation : String
last_failure_annotation = "source.flux.oddkin.co/last-failure"

abbrev pub backoff_start_annotation : String
backoff_start_annotation = "source.flux.oddkin.co/backoff-start"

-- equality of integers
abbrev pub eqb_ℤ : ℤ → ℤ → Bool
eqb_ℤ a b = leb_ℤ a b && leb_ℤ b a

-- the loop that sums the bytes of "namespace/name", in int64
unfoldable pub seed_from : ℤ → List ℕ → ℤ
seed_from seed [] = seed
seed_from seed (b ∷ bs) = seed_from (wrap64 (seed *ℤ pos 31 +ℤ pos b)) bs

abbrev pub read_annotation : String → Option (Dict String) → Option String
read_annotation key none = none
read_annotation key (some annotations) = lookup key annotations

abbrev pub annotations_or_empty : Option (Dict String) → Dict String
annotations_or_empty none = []
annotations_or_empty (some annotations) = annotations

module _ (r : Reconciler) where
  abbrev pub count_of : Option ℤ → ℤ
  count_of none = pos 0
  count_of (some n) = n

  abbrev pub scanned : Option String → ℤ
  scanned none = pos 0
  scanned (some t) = count_of (r.scan_int t)

  unfoldable pub get_retry_count : ExternalSource → ℤ
  get_retry_count source =
      scanned (read_annotation retry_count_annotation source.metadata.annotations)

  unfoldable pub calculate_retry_delay : ExternalSource → String → ℤ
  unfolding seed_from
  calculate_retry_delay source err =
      let retry_count = get_retry_count source in
      let grown = r.floats.exponential r.retry.base_delay retry_count in
      let delay = if ltb_ℤ r.retry.max_delay grown then r.retry.max_delay else grown in
      let seed =
        seed_from (pos 0) (codes (source.metadata.namespace ++ "/" ++ source.metadata.name)) in
      let jitter = r.floats.jitter delay r.retry.jitter_factor (wrap64 (seed +ℤ retry_count)) in
      let jittered = wrap64 (delay +ℤ jitter) in
      elim (classify_error err) [
        | transient_error ↦
            if leb_ℤ r.retry.max_attempts retry_count
            then pos 0
            else if ltb_ℤ jittered r.retry.base_delay
            then r.retry.base_delay
            else jittered
        | permanent_error ↦ pos 0
        | configuration_error ↦ pos 0
      ]

  unfoldable pub increment_retry_count : String → Act r (Unit {0})
  increment_retry_count err s =
      let retry_count = get_retry_count s.source in
      let counted = insert last_failure_annotation err (
        insert retry_count_annotation (r.print_int (wrap64 (retry_count +ℤ pos 1)))
          (annotations_or_empty s.source.metadata.annotations)) in
      let annotations =
        if eqb_ℤ retry_count (pos 0)
        then insert backoff_start_annotation (r.format_rfc3339 (r.now s.world)) counted
        else counted in
      (
        ok tt,
        record s {
          source = record (s.source) {
            metadata = record (s.source.metadata) { annotations = some annotations };
          };
        },
      )

  -- what `clearRetryCount` does to an object with annotations
  abbrev pub without_retries : ExternalSource → Dict String → ExternalSource
  without_retries source annotations = record source {
    metadata = record (source.metadata) {
      annotations = some (
          remove backoff_start_annotation
            (remove last_failure_annotation (remove retry_count_annotation annotations)));
    };
    status = record (source.status) {
      conditions = r.remove_status_condition stalled_condition source.status.conditions;
    };
  }

  unfoldable pub clear_retry_count : Act r (Unit {0})
  clear_retry_count s = elim (s.source.metadata.annotations) [
    | none ↦ (ok tt, s)
    | some annotations ↦ (ok tt, record s { source = without_retries s.source annotations })
  ]

  abbrev pub since : ℕ → Option ℕ → ℤ
  since now none = pos 0
  since now (some start) = sub_ℕ now start

  abbrev pub backoff_from : ℕ → Option String → ℤ
  backoff_from now none = pos 0
  backoff_from now (some t) = since now (r.parse_rfc3339 t)

  unfoldable pub get_backoff_duration : Pass r → ℤ
  get_backoff_duration s =
      backoff_from (r.now s.world)
        (read_annotation backoff_start_annotation s.source.metadata.annotations)

  unfoldable pub should_reset_retry_count : ExternalSource → Bool
  should_reset_retry_count source =
      not (eqb_ℤ source.status.observed_generation source.metadata.generation)
