-- ===== src/Tests.antt =====
-- A small cluster on which the theorems are tried out: one source, one child resource, and
-- counters in place of the network.
mod Controller
mod Passes
mod Components
mod Configuration
mod Network
mod Sidecar
mod Serving
mod Files
mod Bucket
mod Start
mod Patience
mod Active
use Prim.Native.Char.{code}
use flux_externalsource_cont.Prelude.{
  ℕ, zero, suc, ◌+◌, ◌*◌, ◌^◌, String, ◌≡◌, refl, Bool, true, false, Option, none, some, List, [],
  ◌∷◌, Result, ok, err, ◌==◌, eqb, eq_iff, if◌then◌else◌, arith,
}
use mathlib.Core.Option
use flux_externalsource_cont.Prelude.Int.{ℤ, pos, negsuc, pos_part}
use flux_externalsource_cont.Prelude.Dict.{Dict}
use flux_externalsource_cont.Api.{
  Condition, ExternalSource, HttpGeneratorSpec, HookSpec, ArtifactMetadata,
}
use flux_externalsource_cont.Config.Floats.{Floats}
use flux_externalsource_cont.Cluster.{ApiError, not_found, other, ExternalArtifact}
use flux_externalsource_cont.Generator.{SourceGenerator, SourceData, Bytes}
use flux_externalsource_cont.Artifact.{Artifact}
use flux_externalsource_cont.Controller.Pass.{Pass}
use flux_externalsource_cont.Controller.Reconciler.{Reconciler}
use flux_externalsource_cont.Controller.Conditions.Laws.{ConditionLaws, shown}

-- what there is, whether the API server fails, and how often hooks ran,
-- ETags were asked for, and the child's status was written, and how many updates the API server
-- still refuses, and how many reconciliations are active
pub record Town : Type 0 where
  pub source : Option ExternalSource
  pub child : Option ExternalArtifact
  pub broken : Bool
  pub hooks_run : ℕ
  pub etags_read : ℕ
  pub child_writes : ℕ
  pub refusals : ℕ
  pub active : ℕ

-- numbers in unary
abbrev strokes : ℕ → String
strokes zero = String.[]
strokes (suc n) = String.◌∷◌ "|" (strokes n)

abbrev print : ℤ → String
print (pos n) = strokes n
print (negsuc n) = String.◌∷◌ "-" (strokes n)

abbrev count : String → ℕ
count String.[] = 0
count (String.◌∷◌ c s) = suc (count s)

abbrev scan : String → Option ℤ
scan String.[] = some (pos 0)
scan (String.◌∷◌ c s) =
    if eqb (code c) 45 then some (negsuc (count s)) else some (pos (suc (count s)))

count-strokes : (n : ℕ) → count (strokes n) ≡ n
count-strokes zero = refl
count-strokes (suc n) = omega (arith, count-strokes n)

pub scan-print : (z : ℤ) → scan (print z) ≡ some z
scan-print (pos zero) = refl
scan-print (pos (suc n)) = rw count-strokes refl
scan-print (negsuc n) = rw count-strokes refl

abbrev set : Condition → List Condition → List Condition
set c [] = c ∷ []
set c (d ∷ cs) = let rest = set c cs in if d.type == c.type then c ∷ cs else d ∷ rest

abbrev drop_type : String → List Condition → List Condition
drop_type t [] = []
drop_type t (d ∷ cs) = let rest = drop_type t cs in if d.type == t then rest else d ∷ rest

abbrev find : String → List Condition → Option Condition
find t [] = none
find t (d ∷ cs) = if d.type == t then some d else find t cs

abbrev pub toy_floats : Floats
toy_floats = record {
  Float = ℕ;
  quarter = 1;
  parse_float = λ s. none;
  below_zero = λ f. false;
  above_one = λ f. false;
  exponential = λ base count. pos (pos_part base * 2 ^ pos_part count);
  jitter = λ delay factor seed. pos 1;
}

abbrev pub toy_generator : SourceGenerator Town
toy_generator = record {
  generate =
      λ c w. (ok (record { bytes = 104 ∷ 105 ∷ []; last_modified = "v2"; metadata = [] }), w);
  supports_conditional_fetch = true;
  get_last_modified = λ c w. (ok "v2", record w { etags_read = w.etags_read + 1 });
}

abbrev found : Option ExternalSource → Result ApiError ExternalSource
found none = err (not_found "no such source")
found (some s) = ok s

abbrev pub found_child : Bool → Option ExternalArtifact → Result ApiError ExternalArtifact
found_child true child = err (other "timeout")
found_child false none = err (not_found "no such artifact")
found_child false (some a) = ok a

abbrev pub toy : Reconciler
toy = record {
  World = Town;
  get_source = λ namespace name w. (found w.source, w);
  update_source = λ s w. (ok s, record w { source = some s });
  update_source_status = λ s w. (ok s, record w { source = some s });
  get_artifact = λ namespace name w. (found_child w.broken w.child, w);
  create_artifact = λ a w. (ok tt, record w { child = some a });
  update_artifact_status =
      λ a w. (ok tt, record w { child = some a; child_writes = w.child_writes + 1 });
  contains_finalizer = λ s f. true;
  add_finalizer = λ s f. s;
  remove_finalizer = λ s f. record s { metadata = record (s.metadata) { finalizers = [] } };
  set_controller_reference = λ s a. ok (record a { controller = some s.metadata.name });
  set_status_condition = set;
  remove_status_condition = drop_type;
  find_status_condition = find;
  print_int = print;
  scan_int = scan;
  now = λ w. 7;
  duration_string = λ d. "a while";
  parse_duration = λ s. ok (pos 300_000_000_000);
  format_rfc3339 = λ t. "then";
  parse_rfc3339 = λ s. some 5;
  floats = toy_floats;
  create_generator = λ t. ok toy_generator;
  hook_executor = record {
    execute = λ input hook w. (
      if hook.command == "fail" then err "exit status 1" else ok (33 ∷ input),
      record w { hooks_run = w.hooks_run + 1 },
    );
  };
  artifact_manager = record {
    package_data = λ bytes path w.
        (ok (record { bytes = bytes; path = path; revision = "r2"; metadata = [] }), w);
    store = λ artifact source w. (ok "http://artifacts/r2", w);
    cleanup = λ source keep w. (ok tt, w);
  };
  metrics_recorder = none;
  retry = record { max_attempts = pos 3; base_delay = pos 1; max_delay = pos 4; jitter_factor = 1 };
}

find-set :
    (t : String) (c : Condition) (cs : List Condition)
    → Option.map shown (find t (set c cs))
      ≡ (if c.type == t then some (shown c) else Option.map shown (find t cs))
find-set t c [] = ground arith
find-set t c (d ∷ cs) =
    ground (arith, find-set t c cs, eq_iff d.type c.type, eq_iff d.type t, eq_iff c.type t)

find-drop :
    (t u : String) (cs : List Condition)
    → Option.map shown (find t (drop_type u cs))
      ≡ (if u == t then none else Option.map shown (find t cs))
find-drop t u [] = ground arith
find-drop t u (d ∷ cs) =
    ground (arith, find-drop t u cs, eq_iff d.type u, eq_iff d.type t, eq_iff u t)

pub toy_laws : ConditionLaws toy
toy_laws = record { find-set = find-set; find-remove = find-drop }

abbrev pub hook : String → String → HookSpec
hook command policy = record {
  name = "h";
  command = command;
  args = [];
  timeout = "";
  retry_policy = policy;
  env = [];
}

abbrev pub artifact : ArtifactMetadata
artifact = record {
  url = "http://artifacts/r1";
  revision = "r1";
  last_update_time = 1;
  metadata = [];
}

abbrev pub spec_of_http : HttpGeneratorSpec
spec_of_http = record {
  url = "http://example";
  method = "";
  headers_secret_ref = none;
  ca_bundle_secret_ref = none;
  insecure_skip_verify = false;
}

-- a source with an artifact, an ETag, and the given conditions and suspension
abbrev pub source : String → List Condition → Bool → ExternalSource
source etag conditions suspend = record {
  metadata = record {
    name = "s";
    namespace = "n";
    generation = pos 2;
    annotations = some [];
    finalizers = "source.flux.oddkin.co/externalsource-finalizer" ∷ [];
    deletion_timestamp = none;
  };
  spec = record {
    interval = "5m";
    suspend = suspend;
    destination_path = "";
    max_retries = pos 0;
    hooks = some (record { pre_request = []; post_request = hook "run" "fail" ∷ [] });
    generator = record { type = "http"; http = some spec_of_http };
  };
  status = record {
    conditions = conditions;
    artifact = some artifact;
    last_handled_etag = etag;
    observed_generation = pos 2;
  };
}

abbrev pub town : Bool → Town
town broken = record {
  source = none;
  child = none;
  broken = broken;
  hooks_run = 0;
  etags_read = 0;
  child_writes = 0;
  refusals = 0;
  active = 0;
}

abbrev pub fresh : Pass toy
fresh = record { source = source "v1" [] false; world = town false }

abbrev pub up_to_date : Pass toy
up_to_date = record { source = source "v2" [] false; world = town false }

abbrev pub hi : Bytes
hi = 104 ∷ 105 ∷ []
