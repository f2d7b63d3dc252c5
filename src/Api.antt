-- ===== src/Api.antt =====
-- api/v1alpha1/externalsource_types.go: the ExternalSource resource, with the fields of
-- Kubernetes' object metadata and conditions that the controller reads or writes.
-- A nil map and an empty one are told apart for annotations only, where the code asks.
use flux_externalsource_cont.Prelude.{ℕ, String, Bool, List, Option}
use flux_externalsource_cont.Prelude.Int.{ℤ}
use flux_externalsource_cont.Prelude.Dict.{Dict}

pub record EnvVar : Type 0 where
  pub name : String
  pub value : String

pub record HookSpec : Type 0 where
  pub name : String
  pub command : String
  pub args : List String
  pub timeout : String
  pub retry_policy : String
  pub env : List EnvVar

pub record HooksSpec : Type 0 where
  pub pre_request : List HookSpec
  pub post_request : List HookSpec

pub record SecretReference : Type 0 where
  pub name : String

pub record SecretKeyReference : Type 0 where
  pub name : String
  pub key : String

pub record HttpGeneratorSpec : Type 0 where
  pub url : String
  pub method : String
  pub headers_secret_ref : Option SecretReference
  pub ca_bundle_secret_ref : Option SecretKeyReference
  pub insecure_skip_verify : Bool

pub record GeneratorSpec : Type 0 where
  pub type : String
  pub http : Option HttpGeneratorSpec

pub record ExternalSourceSpec : Type 0 where
  pub interval : String
  pub suspend : Bool
  pub destination_path : String
  pub max_retries : ℤ
  pub hooks : Option HooksSpec
  pub generator : GeneratorSpec

-- A point in time, in nanoseconds.
abbrev pub Time : Type 0
Time = ℕ

pub data ConditionStatus : Type 0 where
  condition_true condition_false condition_unknown : ConditionStatus

pub record Condition : Type 0 where
  pub type : String
  pub status : ConditionStatus
  pub reason : String
  pub message : String
  pub last_transition_time : Time
  pub observed_generation : ℤ

pub record ArtifactMetadata : Type 0 where
  pub url : String
  pub revision : String
  pub last_update_time : Time
  pub metadata : Dict String

pub record ExternalSourceStatus : Type 0 where
  pub conditions : List Condition
  pub artifact : Option ArtifactMetadata
  pub last_handled_etag : String
  pub observed_generation : ℤ

pub record ObjectMeta : Type 0 where
  pub name : String
  pub namespace : String
  pub generation : ℤ
  pub annotations : Option (Dict String)
  pub finalizers : List String
  pub deletion_timestamp : Option Time

pub record ExternalSource : Type 0 where
  pub metadata : ObjectMeta
  pub spec : ExternalSourceSpec
  pub status : ExternalSourceStatus
