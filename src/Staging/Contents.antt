-- ===== src/Staging/Contents.antt =====
-- What the private copies hold (src/tls.go).
use pg_guard.Prelude.{
  Bool, true, false, is_some, Option, none, some, List, [], ◌∷◌, ◌++◌, map, ◌≡◌, ◌⊎◌, refl, ap, ◌∙◌,
  Text, text_eq, text_eq-eq, has_prefix, has_prefix-append, All, if◌then◌else◌, Bool-cases, inl,
  inr, arith,
}
use mathlib.Core.Path.{subst}
use pg_guard.StateFile.{Disk, put}
use pg_guard.Staging.{
  Staging, base_name, copies, staged_path, copy_if, then_more, stage_more, stage_tls_file,
  stage_files,
}

abbrev first_source : Option Text → Option Text → Option Text
first_source none o = o
first_source (some a) o = some a

-- The last of the sources with this base name.
pub last_named : Text → List Text → Option Text
last_named base [] = none
last_named base (src ∷ srcs) =
    first_source (last_named base srcs) (if text_eq (base_name src) base then some src else none)

abbrev pub content_from : Disk → Option Text → Option Text → Option Text
content_from disk none otherwise = otherwise
content_from disk (some src) otherwise = disk src

either_source :
    (o : Option Text) (test : Bool) (src s : Text)
    → first_source o (if test then some src else none) ≡ some s
    → (o ≡ some s) ⊎ (src ≡ s)
either_source (some t) test src s e = inl e
either_source none true src s e = inr (cc e)
either_source none false src s e = absurd (cc e)

text_eq-prefix : (p a b : Text) → text_eq (p ++ a) (p ++ b) ≡ text_eq a b
unfolding text_eq
text_eq-prefix [] a b = refl
text_eq-prefix (x ∷ p) a b = ground (arith, text_eq-prefix p a b)

-- A text that differs from another in having a prefix.
differs : (p a s : Text) → has_prefix p s ≡ false → text_eq (p ++ a) s ≡ false
differs p a s h = elim (Bool-cases (text_eq (p ++ a) s)) [
  | inl same ↦ absurd (
      ground (
        arith,
        subst (λ t. has_prefix p t ≡ true) (text_eq-eq (p ++ a) s same) (has_prefix-append p a),
      ))
  | inr other ↦ other
]

-- What a source in front adds to what is staged of the others.
abbrev Grown : Text → Option (List Text) × Disk → Option (List Text) × Disk → Type 0
Grown path (some paths, disk) r = (r.0 ≡ some (path ∷ paths)) × (r.1 ≡ disk)
Grown path (none, disk) r = ⊥

then_more-Grown :
    (path : Text) (r : Option (List Text) × Disk)
    → is_some (then_more path r).0 ≡ true
    → Grown path r (then_more path r)
then_more-Grown path (none, disk) h = absurd (cc h)
then_more-Grown path (some paths, disk) h = (refl, refl)

copy_if-Grown :
    (content : Option Text) (dir writes : Bool) (path : Text) (disk : Disk)
    (more : Disk → Option (List Text) × Disk)
    → is_some (stage_more more (copy_if content dir writes path disk)).0 ≡ true
    → Grown path
        (more (put path content disk))
        (stage_more more (copy_if content dir writes path disk))
copy_if-Grown (some c) true true path disk more h =
    then_more-Grown path (more (put path (some c) disk)) h
copy_if-Grown none dir writes path disk more h = absurd (cc h)
copy_if-Grown (some c) false writes path disk more h = absurd (cc h)
copy_if-Grown (some c) true false path disk more h = absurd (cc h)

module _ (st : Staging) where
  -- A file that is none of the copies.
  abbrev pub Outside : Text → Type 0
  Outside src = has_prefix (copies st) src ≡ false

  abbrev after : Text → Disk → Disk
  after src disk = put (staged_path st (base_name src)) (disk src) disk

  after-Outside : (src s : Text) (disk : Disk) → Outside s → after src disk s ≡ disk s
  after-Outside src s disk h = rw (differs (copies st) (base_name src) s h) refl

  after_copy :
      (src base : Text) (disk : Disk)
      → after src disk (staged_path st base)
        ≡ (if text_eq (base_name src) base then disk src else disk (staged_path st base))
  after_copy src base disk = rw (text_eq-prefix (copies st) (base_name src) base) refl

  stage_files-Grown :
      (src : Text) (srcs : List Text) (disk : Disk)
      → is_some (stage_files st (src ∷ srcs) disk).0 ≡ true
      → Grown
          (staged_path st (base_name src))
          (stage_files st srcs (after src disk))
          (stage_files st (src ∷ srcs) disk)
  unfolding stage_files stage_tls_file
  stage_files-Grown src srcs disk h =
      copy_if-Grown (disk src) st.makes_dir (st.writes (staged_path st (base_name src)))
        (staged_path st (base_name src)) disk (stage_files st srcs) h

  -- Each copy holds what the last of the sources with its name held.
  abbrev pub Copied : List Text → Disk → Text → Option (List Text) × Disk → Type 0
  Copied srcs disk base r =
      (r.0 ≡ some (map (λ (src : Text). staged_path st (base_name src)) srcs))
      × (r.1 (staged_path st base)
          ≡ content_from disk (last_named base srcs) (disk (staged_path st base)))

  last_named-Outside :
      (base : Text) (srcs : List Text) (s : Text)
      → All Outside srcs
      → last_named base srcs ≡ some s
      → Outside s
  unfolding last_named
  last_named-Outside base [] s h e = absurd (cc e)
  last_named-Outside base (src ∷ srcs) s h e =
      elim (either_source (last_named base srcs) (text_eq (base_name src) base) src s e) [
        | inl later ↦ last_named-Outside base srcs s h.1 later
        | inr same ↦ subst Outside same h.0
      ]

  seen_through :
      (src base : Text) (disk : Disk) (o : Option Text)
      → ((s : Text) → o ≡ some s → Outside s)
      → content_from (after src disk) o (after src disk (staged_path st base))
        ≡ content_from disk
            (first_source o (if text_eq (base_name src) base then some src else none))
            (disk (staged_path st base))
  seen_through src base disk (some s) h = after-Outside src s disk (h s refl)
  seen_through src base disk none h = elim (Bool-cases (text_eq (base_name src) base)) [
    | inl same ↦ rw same (after_copy src base disk ∙ rw same refl)
    | inr other ↦ rw other (after_copy src base disk ∙ rw other refl)
  ]

  go_on :
      (src : Text) (srcs : List Text) (disk : Disk) (base : Text) (r r' : Option (List Text) × Disk)
      → Grown (staged_path st (base_name src)) r r'
      → (is_some r.0 ≡ true → Copied srcs (after src disk) base r)
      → All Outside (src ∷ srcs)
      → Copied (src ∷ srcs) disk base r'
  unfolding last_named
  go_on src srcs disk base (none, d) r' g ih h = absurd g
  go_on src srcs disk base (some paths, d) r' g ih h = (
    cc (g.0, (ih refl).0),
    ap (λ (f : Disk). f (staged_path st base)) g.1
        ∙ ((ih refl).1
            ∙ seen_through src base disk (last_named base srcs)
                (λ s e. last_named-Outside base srcs s h.1 e)),
  )

  -- Once all the sources have been staged, and none of them is itself a copy, the copies stand in the
  -- order of the sources, each in the staging directory under the base name of its source, and
  -- each holds what the last source with that base name held: the source's own content if no later
  -- one has its base name, and another file's if one has.
  pub copies_hold_last :
      (srcs : List Text) (disk : Disk) (base : Text)
      → All Outside srcs
      → is_some (stage_files st srcs disk).0 ≡ true
      → Copied srcs disk base (stage_files st srcs disk)
  unfolding stage_files last_named
  copies_hold_last [] disk base h k = (refl, refl)
  copies_hold_last (src ∷ srcs) disk base h k =
      go_on src srcs disk base (stage_files st srcs (after src disk))
        (stage_files st (src ∷ srcs) disk) (stage_files-Grown src srcs disk k)
        (λ j. copies_hold_last srcs (after src disk) base h.1 j) h
