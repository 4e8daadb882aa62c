-- ===== src/Record/Artifact/RoundTrip.antt =====
-- The artifact format of src/replay/record_store.cpp, written and read.
use mathlib.Core.Option.{some-injective}
use gdb_cli_tools.Prelude.{
  ℕ, ◌<◌, ◌++◌, Bytes, take, length, ◌≡◌, refl, sym, subst, inl, inr, Option, none, some, List, [],
  ◌∷◌, append-nil, arith, ltb, Bool-cases, All,
}
use gdb_cli_tools.Replay.Policy.{normalize_replay_failure_policy, policy_continue}
use gdb_cli_tools.Record.Stream.{
  Reader, ◌>>=◌, pure, read_bytes, u32_max, write_u32, read_u32, write_string, read_string,
}
use gdb_cli_tools.Record.Stream.Laws.{
  Exact, Exact-bind, Exact-pure, read_bytes-Exact, read_u32-Exact, read_string-Exact,
}
use gdb_cli_tools.Replay.Policy.{normalize_replay_failure_policy_lem}
use gdb_cli_tools.Record.Artifact.{
  RecordedActionGroup, ActionCodec, artifact_magic, artifact_version, then_write, metadata_text,
  write_actions, write_count, artifact_bytes, decode_action, read_actions, read_artifact,
}

Exact-write :
    {A B : Type 0} (r : Reader A) (k : A → Reader B) (m n : Option Bytes) {a : A} {b : B}
    {text : Bytes}
    → ((s : Bytes) → m ≡ some s → Exact r s a)
    → ((t : Bytes) → n ≡ some t → Exact (k a) t b)
    → then_write m n ≡ some text
    → Exact (r >>= k) text b
Exact-write r k none n h l e = absurd (cc)
Exact-write r k (some s) none h l e = absurd (cc)
Exact-write r k (some s) (some t) {b = b} h l e =
    subst (λ u. Exact (r >>= k) u b) (some-injective _ _ e)
      (Exact-bind r k s t (h s refl) (l t refl))

module _ {A : Type 0} (codec : ActionCodec A) where
  -- The group that is stored: its policy normalised, and null for missing metadata.
  abbrev pub stored : RecordedActionGroup A → RecordedActionGroup A
  stored g = record g {
    failure_policy = normalize_replay_failure_policy g.failure_policy policy_continue;
    task_metadata_json = metadata_text g.task_metadata_json;
  }

  -- The action is read back from its payload.
  abbrev pub Decodes : A → Type 0
  Decodes a = codec.decode (codec.encode a) ≡ some a

  decode_action-Decodes : (a : A) → Decodes a → decode_action codec (codec.encode a) ≡ pure a
  unfolding decode_action
  decode_action-Decodes a h = rw (h, decode_action)

  Exact-end :
      {X Y : Type 0} (r : Reader X) (f : X → Y) {s : Bytes} {x : X}
      → Exact r s x
      → Exact (r >>= λ y. pure (f y)) s (f x)
  Exact-end r f {s} {x} e =
      subst (λ u. Exact (r >>= λ y. pure (f y)) u (f x)) (append-nil s)
        (Exact-bind r (λ y. pure (f y)) s [] e (Exact-pure (f x)))

  read_actions-Exact :
      (actions : List A) {text : Bytes}
      → All Decodes actions
      → write_actions codec actions ≡ some text
      → Exact (read_actions codec (length actions)) text actions
  unfolding write_actions read_actions
  read_actions-Exact [] h e =
      subst (λ u. Exact {A = List A} (pure []) u []) (some-injective _ _ e) (Exact-pure [])
  read_actions-Exact (a ∷ actions) (h, hs) e =
      Exact-write read_string _ (write_string (codec.encode a)) (write_actions codec actions)
        (λ s. read_string-Exact (codec.encode a))
        (λ t q. rw (decode_action-Decodes a h) (
          Exact-end (read_actions codec (length actions)) (λ l. a ∷ l)
            (read_actions-Exact actions hs q)))
        e

  count-Exact :
      (actions : List A) {text : Bytes}
      → write_count codec actions ≡ some text
      → Exact read_u32 text (length actions)
  unfolding write_count
  count-Exact actions {text} e = elim (Bool-cases (ltb u32_max (length actions))) [
    | inl h ↦ absurd (ground arith)
    | inr h ↦
        subst (λ u. Exact read_u32 u (length actions)) (cc (some-injective _ _ (rw h at e)))
          (read_u32-Exact (length actions) (ground arith))
  ]

  policy_again :
      (g : RecordedActionGroup A)
      → normalize_replay_failure_policy
          (normalize_replay_failure_policy g.failure_policy policy_continue)
          policy_continue
        ≡ normalize_replay_failure_policy g.failure_policy policy_continue
  policy_again g =
      (normalize_replay_failure_policy_lem g.failure_policy policy_continue policy_continue).1

  pub read_artifact-Exact :
      (g : RecordedActionGroup A) {text : Bytes}
      → All Decodes g.actions
      → artifact_bytes codec g ≡ some text
      → Exact (read_artifact codec) text (stored g)
  unfolding artifact_bytes read_artifact
  read_artifact-Exact g h e =
      Exact-write (read_bytes (length artifact_magic)) _ (some artifact_magic) _
        (λ s p.
          subst (λ u. Exact (read_bytes (length artifact_magic)) u artifact_magic)
            (some-injective _ _ p) (read_bytes-Exact artifact_magic))
        (λ _.
          Exact-write read_u32 _ (some (write_u32 artifact_version)) _
            (λ s p.
              subst (λ u. Exact read_u32 u artifact_version) (some-injective _ _ p)
                (read_u32-Exact artifact_version (omega arith)))
            (λ _.
              Exact-write read_string _ (write_string g.name) _ (λ _. read_string-Exact g.name)
                (λ _.
                  Exact-write read_string _ (write_string g.source_session_id) _
                    (λ _. read_string-Exact g.source_session_id)
                    (λ _.
                      Exact-write read_string _ (write_string g.created_at) _
                        (λ _. read_string-Exact g.created_at)
                        (λ _.
                          Exact-write read_string _
                            (write_string
                              (normalize_replay_failure_policy g.failure_policy policy_continue))
                            _
                            (λ _.
                              read_string-Exact
                                (normalize_replay_failure_policy g.failure_policy policy_continue))
                            (λ _.
                              Exact-write read_string _
                                (write_string (metadata_text g.task_metadata_json)) _
                                (λ _. read_string-Exact (metadata_text g.task_metadata_json))
                                (λ _.
                                  Exact-write read_u32 _ (write_count codec g.actions) _
                                    (λ _. count-Exact g.actions)
                                    (λ t q.
                                      subst
                                        (λ policy.
                                          Exact
                                            (read_actions codec (length g.actions) >>= λ actions.
                                              pure (record (stored g) {
                                                failure_policy = policy;
                                                actions = actions;
                                              }))
                                            t (stored g))
                                        (sym (policy_again g))
                                        (Exact-end (read_actions codec (length g.actions))
                                          (λ actions. record (stored g) { actions = actions })
                                          (read_actions-Exact g.actions h q))))))))))
        e

  -- Reading the bytes that write_record_artifact writes gives the group back, its policy normalised
  -- and missing metadata as null, whatever follows them in the file; and a file that is cut anywhere
  -- inside them is refused. Each action must be read back from its own payload.
  pub read_artifact-artifact_bytes :
      (g : RecordedActionGroup A) (text rest : Bytes) (n : ℕ)
      → All Decodes g.actions
      → artifact_bytes codec g ≡ some text
      → n < length text
      → (read_artifact codec (text ++ rest) ≡ some (stored g, rest))
        × (read_artifact codec (take n text) ≡ none)
  read_artifact-artifact_bytes g text rest n h e l =
      let x = read_artifact-Exact g h e in (x.reads rest, x.refuses n l)
