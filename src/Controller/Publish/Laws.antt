-- ===== src/Controller/Publish/Laws.antt =====
-- What a publication that succeeds has done.
use flux_externalsource_cont.Prelude.{
  ℕ, zero, suc, ◌+◌, String, ◌≡◌, refl, Bool, true, false, ◌⊎◌, inl, inr, some, Result, ok, err,
  arith, ltb, Bool-cases, Result-cases,
}
use flux_externalsource_cont.Prelude.Actions.{Action}
use flux_externalsource_cont.Prelude.Dict.{Dict}
use flux_externalsource_cont.Api.{ExternalSource}
use flux_externalsource_cont.Cluster.{ApiError, FluxArtifact, ExternalArtifact, is_not_found}
use flux_externalsource_cont.Controller.Reconciler.{Reconciler}
use flux_externalsource_cont.Controller.Publish.{
  needs_update, after_verify, after_update, after_get, status_rounds, update_status_with_retry,
  create_published, update_published, publish, max_status_retries, reconcile_external_artifact,
  flux_artifact, new_artifact,
}

module _ (r : Reconciler) (namespace name : String) (artifact : FluxArtifact) where
  -- the child's status is written with this artifact
  abbrev write : ExternalArtifact → r.World → Result ApiError (Unit {0}) × r.World
  write object = r.update_artifact_status (record object { artifact = some artifact })

  -- the worlds that reads of the child lead to, and writes of what was read with this artifact
  pub data Reaches (w' : r.World) : r.World → Type 0 where
    stays : {w : r.World} → w ≡ w' → Reaches w' w
    reads : {w : r.World} → Reaches w' (r.get_artifact namespace name w).1 → Reaches w' w
    writes :
        {w : r.World} (object : ExternalArtifact)
        → (r.get_artifact namespace name w).0 ≡ ok object
        → Reaches w' (write object (r.get_artifact namespace name w).1).1
        → Reaches w' w

  -- Between two worlds of a run, the server took this artifact for the child that it had shown.
  pub record Accepted (w w' : r.World) : Type 0 where
    pub world : r.World
    pub object : ExternalArtifact
    pub before : Reaches world w
    pub found : (r.get_artifact namespace name world).0 ≡ ok object
    pub accepted : (write object (r.get_artifact namespace name world).1).0 ≡ ok tt
    pub behind : Reaches w' (write object (r.get_artifact namespace name world).1).1

  reads-Accepted :
      (w w' : r.World) → Accepted (r.get_artifact namespace name w).1 w' → Accepted w w'
  reads-Accepted w w' a = record {
    world = a.world;
    object = a.object;
    before = reads a.before;
    found = a.found;
    accepted = a.accepted;
    behind = a.behind;
  }

  writes-Accepted :
      (w w' : r.World) (object : ExternalArtifact)
      → (r.get_artifact namespace name w).0 ≡ ok object
      → Accepted (write object (r.get_artifact namespace name w).1).1 w'
      → Accepted w w'
  writes-Accepted w w' object found a = record {
    world = a.world;
    object = a.object;
    before = writes object found a.before;
    found = a.found;
    accepted = a.accepted;
    behind = a.behind;
  }

  module _ (more : Bool) (again : Action r.World (Unit {0})) (w' : r.World)
      (later : (u : r.World) → again u ≡ (ok tt, w') → Accepted u w') where
    after_verify-ends :
        (seen : Result ApiError ExternalArtifact) (v : r.World)
        → after_verify r namespace name artifact more again seen v ≡ (ok tt, w')
        → (v ≡ w') ⊎ (again v ≡ (ok tt, w'))
    unfolding after_verify
    after_verify-ends (ok seen) v e = ground arith
    after_verify-ends (err m) v e = ground arith

    after_update-Accepted :
        (w : r.World) (object : ExternalArtifact) (updated : Result ApiError (Unit {0}))
        → (r.get_artifact namespace name w).0 ≡ ok object
        → (write object (r.get_artifact namespace name w).1).0 ≡ updated
        → after_update r namespace name artifact more again updated
            (write object (r.get_artifact namespace name w).1).1
          ≡ (ok tt, w')
        → Accepted w w'
    unfolding after_update
    after_update-Accepted w object (ok done) found ran e =
        let u = (write object (r.get_artifact namespace name w).1).1 in
        elim (after_verify-ends (r.get_artifact namespace name u).0
          (r.get_artifact namespace name u).1 e) [
            | inl ends ↦ record {
              world = w;
              object = object;
              before = stays refl;
              found = found;
              accepted = ran;
              behind = reads (stays ends);
            }
            | inr goes_on ↦
                writes-Accepted w w' object found
                  (reads-Accepted u w' (later (r.get_artifact namespace name u).1 goes_on))
          ]
    after_update-Accepted w object (err m) found ran e =
        writes-Accepted w w' object found (later _ (ground arith))

    after_get-Accepted :
        (w : r.World) (got : Result ApiError ExternalArtifact)
        → (r.get_artifact namespace name w).0 ≡ got
        → after_get r namespace name artifact more again got (r.get_artifact namespace name w).1
          ≡ (ok tt, w')
        → Accepted w w'
    unfolding after_get
    after_get-Accepted w (ok object) found e = after_update-Accepted w object _ found refl e
    after_get-Accepted w (err m) found e = reads-Accepted w w' (later _ (ground arith))

  status_rounds-Accepted :
      (rounds i : ℕ) (w w' : r.World)
      → status_rounds r namespace name artifact rounds i w ≡ (ok tt, w')
      → Accepted w w'
  unfolding status_rounds
  status_rounds-Accepted zero i w w' e = cc
  status_rounds-Accepted (suc rounds) i w w' e =
      after_get-Accepted (ltb (i + 1) max_status_retries)
        (status_rounds r namespace name artifact rounds (i + 1)) w'
        (λ u. status_rounds-Accepted rounds (i + 1) u w') w _ refl e

module _ (r : Reconciler) (source : ExternalSource) (url revision : String)
    (metadata : Dict String) where
  -- the answer to the first read
  abbrev first : r.World → Result ApiError ExternalArtifact × r.World
  first = r.get_artifact source.metadata.namespace source.metadata.name

  -- the artifact to publish, at the time behind the first read
  abbrev shown : r.World → FluxArtifact
  shown w = flux_artifact r source url revision metadata (first w).1

  abbrev write_shown : r.World → ExternalArtifact → Result ApiError (Unit {0}) × r.World
  write_shown w existing =
      r.update_artifact_status (record existing { artifact = some (shown w) }) (first w).1

  -- what a publication that returned without an error has done between two worlds
  pub data Published (w w' : r.World) : Type 0 where
    current :
        (existing : ExternalArtifact)
        → (first w).0 ≡ ok existing
        → needs_update existing.artifact url revision metadata ≡ false
        → (first w).1 ≡ w'
        → Published w w'
    updated :
        (existing : ExternalArtifact)
        → (first w).0 ≡ ok existing
        → (write_shown w existing).0 ≡ ok tt
        → (write_shown w existing).1 ≡ w'
        → Published w w'
    created :
        (missing : ApiError) (owned : ExternalArtifact)
        → (first w).0 ≡ err missing
        → is_not_found missing ≡ true
        → r.set_controller_reference source (new_artifact r source url revision metadata) ≡ ok owned
        → (r.create_artifact owned (first w).1).0 ≡ ok tt
        → Accepted r source.metadata.namespace source.metadata.name
            (shown w)
            (r.create_artifact owned (first w).1).1
            w'
        → Published w w'

  update_published-Published :
      (w w' : r.World) (existing : ExternalArtifact)
      → (first w).0 ≡ ok existing
      → update_published r source url revision metadata (shown w) existing (first w).1 ≡ (ok tt, w')
      → Published w w'
  unfolding update_published
  update_published-Published w w' existing got e =
      elim (Bool-cases (needs_update existing.artifact url revision metadata)) [
        | inr same ↦ current existing got same (ground arith)
        | inl stale ↦ updated existing got (ground arith) (ground arith)
      ]

  create_published-Published :
      (w w' : r.World) (missing : ApiError) (given : Result String ExternalArtifact)
      → (first w).0 ≡ err missing
      → is_not_found missing ≡ true
      → r.set_controller_reference source (new_artifact r source url revision metadata) ≡ given
      → create_published r source url revision metadata (shown w) given (first w).1 ≡ (ok tt, w')
      → Published w w'
  unfolding create_published
  create_published-Published w w' missing (err m) got absent owner e = absurd (cc)
  create_published-Published w w' missing (ok owned) got absent owner e =
      elim (Result-cases (r.create_artifact owned (first w).1).0) [
        | inl (_, good) ↦ created missing owned got absent owner good (
            unfold update_status_with_retry in
            status_rounds-Accepted r source.metadata.namespace source.metadata.name (shown w)
              max_status_retries 0 _ w' (rw (good, create_published) at e))
        | inr (m, bad) ↦ absurd (ground arith)
      ]

  publish-Published :
      (w w' : r.World) (got : Result ApiError ExternalArtifact)
      → (first w).0 ≡ got
      → publish r source url revision metadata got (shown w) (first w).1 ≡ (ok tt, w')
      → Published w w'
  unfolding publish
  publish-Published w w' (ok existing) got e = update_published-Published w w' existing got e
  publish-Published w w' (err m) got e = elim (Bool-cases (is_not_found m)) [
    | inl missing ↦
        create_published-Published w w' m _ got missing refl (rw (missing, publish) at e)
    | inr broken ↦ absurd (ground arith)
  ]

  -- If publishing returns without an error, then the child of this namespace and name was read
  -- first, and: it needed no update, and nothing was written; or the server took the artifact for
  -- it, and the publication ended there; or it was missing, was created for this owner, and behind
  -- that, by reads of the child and writes of what they gave, the server took the artifact for the
  -- child as it had shown it, in the same run.
  pub reconcile_external_artifact-Published :
      (w w' : r.World)
      → reconcile_external_artifact r source url revision metadata w ≡ (ok tt, w')
      → Published w w'
  unfolding reconcile_external_artifact
  reconcile_external_artifact-Published w w' e = publish-Published w w' _ refl e
