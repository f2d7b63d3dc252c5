-- ===== src/Artifact/Server/Laws.antt =====
-- The server over the memory backend, behind the artifact manager.
use Prim.Native.String.{◌++◌}
use Prim.Native.Char.{Char}
use text.Mathlib.TextLemmas.{append_assoc, cons-append, cons-ne-nil, nil-append}
use flux_externalsource_cont.Prelude.{
  String, ◌≡◌, refl, sym, ap, ◌∙◌, Bool, true, false, not, ◌&&◌, Bool-cases, inl, inr, Option, none,
  some, ◌==◌, if◌then◌else◌, eq_iff, arith,
}
use flux_externalsource_cont.Prelude.Dict.{lookup, lookup-insert}
use flux_externalsource_cont.Generator.{Bytes}
use flux_externalsource_cont.Storage.Memory
use flux_externalsource_cont.Storage.Memory.{
  MemoryBackend, memory_storage, found, has_prefix, starts,
}
use flux_externalsource_cont.Artifact.{Artifact}
use flux_externalsource_cont.Artifact.Manager
use flux_externalsource_cont.Artifact.Manager.{Packing, prefix_of, key_of, cleanup}
use flux_externalsource_cont.Artifact.Manager.Laws.{cleanup-memory}
use flux_externalsource_cont.Artifact.Server.{
  Server, Reply, http_error, served, headers_for, reply_for, serve_artifact, trim_slash,
}

true-ne-false : Path Bool true false → ⊥
true-ne-false e = ground arith

not_blank : (c : Char) (rest : String) → (String.◌∷◌ c rest == "") ≡ false
not_blank c rest = elim (Bool-cases (String.◌∷◌ c rest == "")) [
  | inl e ↦ absurd (cons-ne-nil c rest ((eq_iff _ "").0 e))
  | inr n ↦ n
]

eq_sym : (s t : String) → (s == t) ≡ (t == s)
eq_sym s t = ground (arith, eq_iff s t, eq_iff t s)

trim_slash-append : (path : String) → trim_slash ("/" ++ path) ≡ path
trim_slash-append path =
    ap trim_slash (cons-append "/" "" path ∙ ap (λ s. String.◌∷◌ "/" s) (nil-append path))

message_parts :
    (path : String)
    → "artifact not found: " ++ path ≡ "artifact " ++ ("not found" ++ (": " ++ path))
message_parts path =
    append_assoc "artifact not found" ": " path
    ∙ append_assoc "artifact " "not found" (": " ++ path)

module _ (contains : (s part : String) → Bool)
    (finds : (before part after : String) → contains (before ++ (part ++ after)) part ≡ true)
    (s : Server MemoryBackend) (over_memory : s.storage ≡ memory_storage) where
  -- a reply to a GET of a path that is not empty, from the object at the path
  abbrev reply_of : (path : String) → Option Bytes → Reply
  reply_of path none = http_error "Artifact not found" 404
  reply_of path (some bytes) = served (headers_for contains s path) bytes

  reply_for-found :
      (path : String) (object : Option Bytes)
      → reply_for contains s path (found path object) ≡ reply_of path object
  reply_for-found path (some bytes) = refl
  reply_for-found path none =
      rw (message_parts path, finds "artifact " "not found" (": " ++ path)) refl

  serve_artifact-reply_of :
      (path : String) (m : MemoryBackend)
      → serve_artifact contains s "GET" ("/" ++ path) m ≡ (
        if path == ""
            then http_error "Artifact key not specified" 400
            else reply_of path (lookup path m.objects),
        m,
      )
  unfolding serve_artifact memory_storage Memory.retrieve
  serve_artifact-reply_of path m = elim (Bool-cases (path == "")) [
    | inl e ↦ rw (trim_slash-append, e) refl
    | inr n ↦
        rw (trim_slash-append, n, over_memory)
          λ i. (reply_for-found path (lookup path m.objects) i, m)
  ]

  -- the ways in which a path relates to the key and to the prefix
  by_path :
      (path : String) (bytes : Bytes) (old : Option Bytes) (blank same under : Bool)
      → (blank ≡ true → (same ≡ false) × (under ≡ false))
      → (if blank
          then http_error "Artifact key not specified" 400
          else reply_of path (if under && not same then none else if same then some bytes else old))
        ≡ (if same
            then served (headers_for contains s path) bytes
            else if under
            then http_error "Artifact not found" 404
            else if blank
            then http_error "Artifact key not specified" 400
            else reply_of path old)
  by_path path bytes old true true under h = absurd (true-ne-false ((h refl).0))
  by_path path bytes old true false true h = absurd (true-ne-false ((h refl).1))
  by_path path bytes old true false false h = refl
  by_path path bytes old false true true h = refl
  by_path path bytes old false true false h = refl
  by_path path bytes old false false true h = refl
  by_path path bytes old false false false h = refl

  blank_path :
      (rest path : String)
      → (path == "") ≡ true
      → ((("artifacts/" ++ rest) == path) ≡ false)
        × (has_prefix path ("artifacts/" ++ rest) ≡ false)
  unfolding starts
  blank_path rest path blank =
      rw ((eq_iff path "").0 blank, cons-append "a" "rtifacts/" rest)
        (not_blank "a" ("rtifacts/" ++ rest), refl)

  -- Where strings.Contains finds a part that is there: over the memory backend, behind the storing
  -- of an artifact and the cleanup of its source, a GET of the artifact's key gives its bytes, a
  -- GET of another path under the source's prefix gives 404, and a GET of any other path gives what
  -- it gave before. No GET changes what is stored.
  pub serve_artifact-store-cleanup :
      (p : Packing MemoryBackend) (a : Artifact) (source path : String) (m : MemoryBackend)
      → (let key = key_of p memory_storage source a.revision in
          let stored = (Manager.store p memory_storage a source m).1 in
          let kept = (cleanup p memory_storage source a.revision stored).1 in
          serve_artifact contains s "GET" ("/" ++ path) kept ≡ (
            if key == path
                then served (headers_for contains s path) a.bytes
                else if has_prefix path (prefix_of p memory_storage source)
                then http_error "Artifact not found" 404
                else (serve_artifact contains s "GET" ("/" ++ path) m).0,
            kept,
          ))
  unfolding Manager.store memory_storage Memory.store
  serve_artifact-store-cleanup p a source path m =
      let key = key_of p memory_storage source a.revision in
      let stored = (Manager.store p memory_storage a source m).1 in
      let kept = (cleanup p memory_storage source a.revision stored).1 in
      let object = (cleanup-memory p source a.revision path stored).1 in
      let blank = blank_path (source ++ "/" ++ a.revision ++ ".tar.gz") path in
      let under = blank_path (source ++ "/") path in
      serve_artifact-reply_of path kept ∙ λ i. (
        (ap
                (λ o.
                  if path == ""
                  then http_error "Artifact key not specified" 400
                  else reply_of path o)
                (object ∙ rw (eq_sym path key, lookup-insert) refl)
              ∙ by_path path a.bytes (lookup path m.objects) (path == "") (key == path)
                  (has_prefix path (prefix_of p memory_storage source))
                  (λ e. ((blank e).0, (under e).1))
              ∙ ap
                  (λ (o : Reply × MemoryBackend).
                    if key == path
                    then served (headers_for contains s path) a.bytes
                    else if has_prefix path (prefix_of p memory_storage source)
                    then http_error "Artifact not found" 404
                    else o.0)
                  (sym (serve_artifact-reply_of path m)))
            i,
        kept,
      )
