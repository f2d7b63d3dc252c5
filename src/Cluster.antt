-- ===== src/Cluster.antt =====
-- The Kubernetes API as the controller uses it (client.Client, apimeta, controllerutil): types of
-- its answers. The operations themselves are parameters, in Controller/Reconciler.
use flux_externalsource_cont.Prelude.{String, Bool, true, false, Option}
use flux_externalsource_cont.Prelude.Dict.{Dict}
use flux_externalsource_cont.Api.{Time}

-- An error of the API server, by the reason that the code asks for, with its message.
pub data ApiError : Type 0 where
  not_found conflict server_timeout other : String → ApiError

abbrev pub message : ApiError → String
message (not_found m) = m
message (conflict m) = m
message (server_timeout m) = m
message (other m) = m

abbrev pub is_not_found : ApiError → Bool
is_not_found (not_found m) = true
is_not_found _ = false

-- fluxmeta.Artifact
pub record FluxArtifact : Type 0 where
  pub url : String
  pub path : String
  pub revision : String
  pub digest : String
  pub last_update_time : Time
  pub metadata : Dict String

-- fluxmeta.NamespacedObjectKindReference
pub record SourceRef : Type 0 where
  pub api_version : String
  pub kind : String
  pub name : String
  pub namespace : String

-- sourcev1.ExternalArtifact; `controller` names the owner that the garbage collector follows
pub record ExternalArtifact : Type 0 where
  pub name : String
  pub namespace : String
  pub source_ref : SourceRef
  pub controller : Option String
  pub artifact : Option FluxArtifact
