-- ===== src/Textfile/Readers.antt =====
-- What a reader of the metrics file may find (src/textfile.go).
use pg_guard.Prelude.{
  ◌≡◌, ◌⊎◌, inl, inr, refl, ◌∙◌, false, Bool-cases, Option, some, List, [], ◌∷◌, ◌++◌, Text, lit,
  text_eq, All, All-append, arith,
}
use pg_guard.Config.{Config}
use pg_guard.StateFile.{Answers, Disk, Saved}
use pg_guard.StateFile.Atomic.{Replaces, written-Replaces}
use pg_guard.Textfile.{temp_path, final_path, write_textfile, write_all, start_textfile_writer}

text_eq-append : (p s t : Text) → text_eq (p ++ s) (p ++ t) ≡ text_eq s t
unfolding text_eq
text_eq-append [] s t = refl
text_eq-append (c ∷ p) s t = ground (arith, text_eq-append p s t)

paths_differ : (cfg : Config) → text_eq (temp_path cfg) (final_path cfg) ≡ false
unfolding text_eq
paths_differ cfg = text_eq-append cfg.textfile_dir (lit "/pg-guard.temp") (lit "/pg-guard.prom")

-- What was there, or the whole text of one of the writes.
abbrev pub IsWhole : Option Text → List (Answers × Text) → Option Text → Type 0
IsWhole before [] found = found ≡ before
IsWhole before ((answers, body) ∷ ticks) found = (found ≡ some body) ⊎ IsWhole before ticks found

IsWhole-before :
    (before found : Option Text) (ticks : List (Answers × Text))
    → found ≡ before
    → IsWhole before ticks found
IsWhole-before before found [] e = e
IsWhole-before before found ((answers, body) ∷ ticks) e = inr (IsWhole-before before found ticks e)

-- What is whole after a write was whole before it, or is the text that was written.
IsWhole-after :
    (before now found : Option Text) (body : Text) (ticks : List (Answers × Text))
    → (now ≡ some body) ⊎ (now ≡ before)
    → IsWhole now ticks found
    → (found ≡ some body) ⊎ IsWhole before ticks found
IsWhole-after before now found body [] (inl e) h = inl (h ∙ e)
IsWhole-after before now found body [] (inr e) h = inr (h ∙ e)
IsWhole-after before now found body ((answers, b) ∷ ticks) k (inl e) = inr (inl e)
IsWhole-after before now found body ((answers, b) ∷ ticks) k (inr h) =
    elim (IsWhole-after before now found body ticks k h) [ inl e ↦ inl e | inr w ↦ inr (inr w) ]

write-Replaces :
    (cfg : Config) (answers : Answers) (body : Text) (disk : Disk)
    → Replaces (final_path cfg) body disk (write_textfile cfg answers body disk)
unfolding write_textfile
write-Replaces cfg answers body disk = elim (Bool-cases answers.makes_dir) [
  | inl e ↦ ground (
    arith,
    e,
    written-Replaces answers.renames answers.written (temp_path cfg) (final_path cfg) body disk
        (paths_differ cfg),
  )
  | inr e ↦ ground (arith, e)
]

either_way :
    (path body : Text) (disk : Disk) (r : Saved)
    → Replaces path body disk r
    → (r.final path ≡ some body) ⊎ (r.final path ≡ disk path)
either_way path body disk r (kept, inl (saved, e)) = inl e
either_way path body disk r (kept, inr (failed, e)) = inr e

All-imp : {P Q : Disk → Type 0} (ds : List Disk) → ((d : Disk) → P d → Q d) → All P ds → All Q ds
All-imp [] f h = tt
All-imp (d ∷ ds) f (h, hs) = (f d h, All-imp ds f hs)

module _ (cfg : Config) where
  write_all-IsWhole :
      (ticks : List (Answers × Text)) (disk : Disk)
      → All
          (λ d. IsWhole (disk (final_path cfg)) ticks (d (final_path cfg)))
          (write_all cfg ticks disk).0
  unfolding write_all
  write_all-IsWhole [] disk = tt
  write_all-IsWhole ((answers, body) ∷ ticks) disk =
      let r = write_textfile cfg answers body disk in
      let path = final_path cfg in
      let replaced = write-Replaces cfg answers body disk in
      let now = either_way path body disk r replaced in
      All-append _ r.passed _
        (All-imp r.passed (λ d e. IsWhole-before (disk path) (d path) ((answers, body) ∷ ticks) e)
          replaced.0)
        (
          IsWhole-after (disk path) (r.final path) (r.final path) body ticks now
              (IsWhole-before (r.final path) (r.final path) ticks refl),
          All-imp _ (λ d h. IsWhole-after (disk path) (r.final path) (d path) body ticks now h)
              (write_all-IsWhole ticks r.final),
        )

  -- Whoever reads the metrics file, at any moment of any run of the writer and whatever fails in it,
  -- finds the file as it was before the run, or the whole text of one of the writes, never a part.
  pub textfile_never_partial :
      (ticks : List (Answers × Text)) (disk : Disk)
      → All
          (λ d. IsWhole (disk (final_path cfg)) ticks (d (final_path cfg)))
          (start_textfile_writer cfg ticks disk).0
  unfolding start_textfile_writer
  textfile_never_partial ticks disk = elim (Bool-cases cfg.textfile_enabled) [
    | inl e ↦ ground (arith, e, write_all-IsWhole ticks disk)
    | inr e ↦ ground (arith, e)
  ]
