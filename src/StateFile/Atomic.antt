-- ===== src/StateFile/Atomic.antt =====
-- A save replaces the state file at once or not at all (src/statepersist.go).
use pg_guard.Prelude.{
  ℕ, zero, suc, ◌≡◌, ◌⊎◌, inl, inr, refl, ap, Bool, true, false, some, List, ◌++◌, Text, lit,
  text_eq, text_eq-eq, text_eq_refl, length, length-append, All, All-append_one, Bool-cases, arith,
}
use pg_guard.StateFile.{
  PersistedState, Codec, Disk, Written, not_opened, whole, cut, Answers, Saved, growing, rename,
  write_then_rename, save_persisted_state,
}

-- The disks passed through hold the file as it was; success and the new content come together.
abbrev pub Replaces : Text → Text → Disk → Saved → Type 0
Replaces path content disk r =
    All (λ d. d path ≡ disk path) r.passed
    × (((r.saved ≡ true) × (r.final path ≡ some content))
        ⊎ ((r.saved ≡ false) × (r.final path ≡ disk path)))

-- The file that is written first is another one.
tmp_differs : (path : Text) → text_eq (path ++ lit ".tmp") path ≡ false
tmp_differs path = elim (Bool-cases (text_eq (path ++ lit ".tmp") path)) [
  | inl e ↦ absurd (
      omega (
        arith,
        length-append path (lit ".tmp"),
        ap length (text_eq-eq (path ++ lit ".tmp") path e),
      ))
  | inr e ↦ e
]

growing_elsewhere :
    (n : ℕ) (tmp path content : Text) (disk : Disk)
    → text_eq tmp path ≡ false
    → All (λ d. d path ≡ disk path) (growing n tmp content disk)
growing_elsewhere zero tmp path content disk h = ground arith
growing_elsewhere (suc n) tmp path content disk h =
    All-append_one (λ d. d path ≡ disk path) (growing n tmp content disk) _
      (growing_elsewhere n tmp path content disk h) (ground arith)

rename-Replaces :
    (renames : Bool) (tmp path content : Text) (disk d : Disk) (passed : List Disk)
    → All (λ e. e path ≡ disk path) passed
    → d path ≡ disk path
    → Replaces path content disk (rename renames tmp path content d passed)
rename-Replaces true tmp path content disk d passed h e = ground (arith, text_eq_refl path)
rename-Replaces false tmp path content disk d passed h e = ground arith

-- Any file that is written beside another and renamed over it.
pub written-Replaces :
    (renames : Bool) (written : Written) (tmp path content : Text) (disk : Disk)
    → text_eq tmp path ≡ false
    → Replaces path content disk (write_then_rename renames written tmp path content disk)
written-Replaces renames not_opened tmp path content disk e = ground arith
written-Replaces renames (cut n) tmp path content disk e =
    ground (arith, e, growing_elsewhere n tmp path content disk)
written-Replaces renames whole tmp path content disk e =
    rename-Replaces renames tmp path content disk _ _
      (refl, growing_elsewhere (length content) tmp path content disk e) (ground (arith, e))

module _ (codec : Codec) (answers : Answers) where
  -- At every moment of a save, whatever fails in it, the state file holds what it held before; only
  -- the last step, the rename, replaces it, by the whole new content. The save reports success
  -- exactly then.
  pub save_atomic :
      (path : Text) (s : PersistedState) (content : Text) (disk : Disk)
      → codec.marshal s ≡ some content
      → Replaces path content disk (save_persisted_state codec answers path s disk)
  unfolding save_persisted_state
  save_atomic path s content disk h = elim (Bool-cases answers.makes_dir) [
    | inl e ↦
        rw (e, h)
          (written-Replaces answers.renames answers.written (path ++ lit ".tmp") path content disk
            (tmp_differs path))
    | inr e ↦ rw e (ground arith)
  ]
