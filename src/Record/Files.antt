-- ===== src/Record/Files.antt =====
-- The file operations of src/replay/record_store.cpp: the artifact is written to a temporary file
-- that is then renamed. The file system is a table from paths to contents; a path is its text.
use mathlib.Core.Option
use gdb_cli_tools.Prelude.{
  ◌<◌, ◌≡◌, refl, sym, ap, ◌∙◌, subst, inl, inr, Bool, true, false, Option, none, some, [], ◌∷◌,
  ◌++◌, append-nil, arith, if◌then◌else◌, Bool-cases, length, take, length-append, All, Bytes,
  codes, same, same_refl, same→eq,
}
use gdb_cli_tools.Record.Stream.{Reader}
use gdb_cli_tools.Record.Stream.Laws.{Exact}
use gdb_cli_tools.Record.Artifact.{
  RecordedActionGroup, ActionCodec, artifact_bytes, read_artifact, artifact_magic,
}
use gdb_cli_tools.Record.Artifact.RoundTrip.{stored, Decodes, read_artifact-Exact}

abbrev pub Files : Type 0
Files = Bytes → Option Bytes

unfoldable pub update : Files → Bytes → Option Bytes → Files
update files path content q = if same q path then content else files q

-- What the system does to one write: the directories cannot be made, the stream does not open, it
-- fails after some bytes, it fails when it is closed, which the code does not look at, so that only
-- some bytes are in the file, the temporary file, with all bytes or with some, cannot be renamed, or
-- all of it works.
pub data Outcome : Type 0 where
  no_directories : Outcome
  no_open : Outcome
  fails : Bytes → Outcome
  fails_late : Bytes → Outcome
  no_rename : Bytes → Outcome
  works : Outcome

unfoldable pub temp_path : Bytes → Bytes
temp_path path = path ++ codes ".tmp"

unfoldable pub rename : Files → Bytes → Bytes → Files
unfolding update
rename files from to = update (update files to (files from)) from none

-- What follows once the stream is open: the bytes to write, or the exception that a text or the
-- number of actions is too large; `partial` is what stands in the temporary file then. `renames` says
-- whether fs::rename works; it throws where it does not.
unfoldable pub commit : Bool → Bytes → Files → Bytes → Option Bytes → Files × Bool
unfolding temp_path rename update
commit renames partial files path none = (update files (temp_path path) (some partial), false)
commit false partial files path (some text) = (update files (temp_path path) (some text), false)
commit true partial files path (some text) =
    (rename (update files (temp_path path) (some text)) (temp_path path) path, true)

-- The new files, and whether no exception was thrown.
unfoldable pub write_record_artifact :
    {A : Type 0}
    → ActionCodec A
    → Outcome
    → Bytes
    → Files
    → Bytes
    → RecordedActionGroup A
    → Files × Bool
unfolding commit
write_record_artifact codec no_directories partial files path group = (files, false)
write_record_artifact codec no_open partial files path group = (files, false)
write_record_artifact codec (fails written) partial files path group =
    (update files (temp_path path) (some written), false)
write_record_artifact codec (fails_late written) partial files path group =
    commit true partial files path (Option.map (λ _. written) (artifact_bytes codec group))
write_record_artifact codec (no_rename written) partial files path group =
    commit false partial files path (Option.map (λ _. written) (artifact_bytes codec group))
write_record_artifact codec works partial files path group =
    commit true partial files path (artifact_bytes codec group)

-- A missing file is an exception; bytes behind the last action are not looked at.
unfoldable pub read_file : {A : Type 0} → Reader A → Option Bytes → Option A
read_file r none = none
read_file r (some text) = elim (r text) [ none ↦ none | some (a, rest) ↦ some a ]

unfoldable pub read_record_artifact :
    {A : Type 0} → ActionCodec A → Files → Bytes → Option (RecordedActionGroup A)
unfolding read_artifact read_file
read_record_artifact codec files path = read_file (read_artifact codec) (files path)

unfoldable pub is_record_artifact : Files → Bytes → Bool
is_record_artifact files path = elim (files path) [
  | none ↦ false
  | some text ↦ same (take (length artifact_magic) text) artifact_magic
]

length-same : (s t : Bytes) → length s < length t → same s t ≡ false
length-same [] [] h = absurd (omega arith)
length-same [] (d ∷ t) h = refl
length-same (c ∷ s) [] h = refl
length-same (c ∷ s) (d ∷ t) h = ground (arith, length-same s t (omega arith))

path-ne-temp : (path : Bytes) → same path (temp_path path) ≡ false
unfolding temp_path
path-ne-temp path = length-same path _ (omega (arith, length-append path (codes ".tmp")))

temp-ne-path : (path : Bytes) → same (temp_path path) path ≡ false
temp-ne-path path = elim (Bool-cases (same (temp_path path) path)) [
  | inl e ↦
      cc (subst (λ t. same path t ≡ true) (sym (same→eq _ _ e)) (same_refl path), path-ne-temp path)
  | inr e ↦ e
]

read_file-Exact :
    {A : Type 0} (r : Reader A) (text : Bytes) (a : A)
    → Exact r text a
    → read_file r (some text) ≡ some a
unfolding read_file
read_file-Exact {A} r text a x =
    ap {B = Option A} (λ o. elim o [ none ↦ none | some (b, rest) ↦ some b ])
      (subst (λ t. r t ≡ some (a, [])) (append-nil text) (x.reads []))

-- The files behind a write that went through.
committed :
    (files : Files) (path text q : Bytes)
    → rename (update files (temp_path path) (some text)) (temp_path path) path q
      ≡ (if same q (temp_path path) then none else if same q path then some text else files q)
unfolding rename update
committed files path text q = elim (Bool-cases (same q (temp_path path))) [
  | inl e ↦ rw e
  | inr e ↦ rw (e, same_refl (temp_path path))
]

module _ {A : Type 0} (codec : ActionCodec A) (partial : Bytes) (files : Files) (path : Bytes)
    (g : RecordedActionGroup A) where
  commit_atomic :
      (renames : Bool) (content : Option Bytes)
      → (commit renames partial files path content).1 ≡ false
      → (q : Bytes) → same q (temp_path path) ≡ false
      → (commit renames partial files path content).0 q ≡ files q
  unfolding commit update
  commit_atomic renames none e q n = rw n
  commit_atomic false (some text) e q n = rw n
  commit_atomic true (some text) e q n = absurd (cc)

  -- A write that throws changes no file but the temporary one, so that an artifact that was at the path
  -- is read as before: whether the directories cannot be made, the stream does not open or fails, a
  -- text or the number of actions is too large, or the temporary file cannot be renamed.
  pub write_record_artifact_atomic :
      (o : Outcome)
      → (write_record_artifact codec o partial files path g).1 ≡ false
      → (q : Bytes) → same q (temp_path path) ≡ false
      → (write_record_artifact codec o partial files path g).0 q ≡ files q
  unfolding write_record_artifact update
  write_record_artifact_atomic no_directories e q n = refl
  write_record_artifact_atomic no_open e q n = refl
  write_record_artifact_atomic (fails written) e q n = rw n
  write_record_artifact_atomic (fails_late written) e q n =
      commit_atomic true (Option.map (λ _. written) (artifact_bytes codec g)) e q n
  write_record_artifact_atomic (no_rename written) e q n =
      commit_atomic false (Option.map (λ _. written) (artifact_bytes codec g)) e q n
  write_record_artifact_atomic works e q n = commit_atomic true (artifact_bytes codec g) e q n

  -- What a reader finds behind a commit that did not throw.
  commit_lem :
      (content : Option Bytes)
      → (commit true partial files path content).1 ≡ true
      → (text : Bytes) × (content ≡ some text)
        × ((commit true partial files path content).0 path ≡ some text)
        × ((commit true partial files path content).0 (temp_path path) ≡ none)
        × ((q : Bytes)
            → same q (temp_path path) ≡ false
            → same q path ≡ false
            → (commit true partial files path content).0 q ≡ files q)
  unfolding commit
  commit_lem none e = absurd (cc)
  commit_lem (some text) e = (
    text,
    refl,
    committed files path text path ∙ rw (path-ne-temp path, same_refl path),
    committed files path text (temp_path path) ∙ rw (same_refl (temp_path path)),
    λ q n m. committed files path text q ∙ rw (n, m),
  )

  -- A write that works, whose texts are not too large, and each of whose actions the codec reads back
  -- from its JSON text, leaves an artifact that is read back as the group that is stored, no temporary
  -- file, and every other file as it was.
  pub read-write_record_artifact :
      (q : Bytes)
      → All (Decodes codec) g.actions
      → (write_record_artifact codec works partial files path g).1 ≡ true
      → same q (temp_path path) ≡ false
      → same q path ≡ false
      → let files' = (write_record_artifact codec works partial files path g).0 in
        (read_record_artifact codec files' path ≡ some (stored codec g))
        × (files' (temp_path path) ≡ none)
        × (files' q ≡ files q)
  unfolding write_record_artifact read_record_artifact
  read-write_record_artifact q h e n m =
      let (text, w, p, t, others) = commit_lem (artifact_bytes codec g) e in
      (
        ap (read_file (read_artifact codec)) p
            ∙ read_file-Exact (read_artifact codec) text (stored codec g)
                (read_artifact-Exact codec g h w),
        t,
        others q n m,
      )

  -- A write whose last bytes are lost when the stream is closed is not noticed: it does not throw,
  -- and what is in the file is renamed over the artifact that was there.
  pub write_record_artifact_fails_late :
      (written text : Bytes)
      → artifact_bytes codec g ≡ some text
      → let out = write_record_artifact codec (fails_late written) partial files path g in
        (out.1 ≡ true) × (out.0 path ≡ some written)
  unfolding write_record_artifact commit
  write_record_artifact_fails_late written text e =
      rw e (refl, committed files path written path ∙ rw (path-ne-temp path, same_refl path))
