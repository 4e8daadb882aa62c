-- ===== src/Evidence/Store/Laws.antt =====
-- What a call leaves in the evidence store, whether a file could be opened or not.
use gdb_cli_tools.Prelude.{
  true, ◌&&◌, ◌≡◌, refl, ◌⊎◌, inl, inr, Bool, false, some, [], ◌∷◌, ◌++◌, Bool-cases, Bytes,
  same_refl,
}
use gdb_cli_tools.Record.Files.{update}
use gdb_cli_tools.Evidence.{Evidence}
use gdb_cli_tools.Evidence.Text.{index_json}
use gdb_cli_tools.Evidence.Store.{
  EvidenceStore, write_text_file, write_index, keep, push_evidence, index_path,
}

module _ (join : Bytes → Bytes → Bytes) (normal : Bytes → Bytes) (opens : Bytes → Bool)
    (assets : Bytes) where
  -- The three files of a piece of evidence can be opened.
  abbrev pub files_open : Evidence → Bool
  files_open ev = opens ev.raw_file && (opens ev.summary_file && opens ev.view_file)

  -- What keep leaves: the list, longer by the evidence where its files can be opened, and then the
  -- index in step with it where the index can be opened too.
  abbrev pub KeepsWhen : Bool → Evidence → EvidenceStore → EvidenceStore × Bool → Type 0
  KeepsWhen full ev store (after, ok) =
      (after.counter ≡ store.counter)
      × ((((after.evidence ≡ store.evidence) × (full ≡ false)) × (ok ≡ false))
          ⊎ (((after.evidence ≡ store.evidence ++ ev ∷ []) × (full ≡ true))
              × (((opens (index_path join normal opens assets) ≡ false) × (ok ≡ false))
                  ⊎ ((ok ≡ true)
                      × (after.files (index_path join normal opens assets)
                          ≡ some (index_json normal after.evidence))))))

  abbrev pub Keeps : Evidence → EvidenceStore → EvidenceStore × Bool → Type 0
  Keeps ev store after = KeepsWhen (files_open ev) ev store after

  index_written :
      (ev : Evidence) (s₁ s : EvidenceStore)
      → s₁.counter ≡ s.counter
      → s₁.evidence ≡ s.evidence
      → KeepsWhen true ev s
          (write_index join normal opens assets (push_evidence join normal opens assets ev s₁))
  unfolding write_index write_text_file update
  index_written ev s₁ s c e = elim (Bool-cases (opens (index_path join normal opens assets))) [
    | inl o ↦
        rw o
          (c, inr ((rw e, refl), inr (refl, rw (same_refl (index_path join normal opens assets)))))
    | inr o ↦ rw o (c, inr ((rw e, refl), inl (refl, refl)))
  ]

  -- keep leaves the counter as it is. Where one of the three files of the evidence cannot be opened, it
  -- throws and leaves the evidence list as it was. Where they can be opened, the new evidence is at the
  -- end of the list: if the index can be opened, keep does not throw and the index file is the JSON of
  -- the whole list; if it cannot, keep throws with the evidence in the list.
  pub keep-Keeps :
      (ev : Evidence) (raw : Bytes) (store : EvidenceStore)
      → Keeps ev store (keep join normal opens assets ev raw store)
  unfolding keep write_text_file
  keep-Keeps ev raw store = elim (Bool-cases (opens ev.raw_file)) [
    | inr o ↦ rw o (refl, inl ((refl, refl), refl))
    | inl o ↦ elim (Bool-cases (opens ev.summary_file)) [
      | inr p ↦ rw (o, p) (refl, inl ((refl, refl), refl))
      | inl p ↦ elim (Bool-cases (opens ev.view_file)) [
        | inr q ↦ rw (o, p, q) (refl, inl ((refl, refl), refl))
        | inl q ↦ rw (o, p, q) (index_written ev _ store refl refl)
      ]
    ]
  ]
