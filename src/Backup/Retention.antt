-- ===== src/Backup/Retention.antt =====
-- Which backups the pruning removes (src/backup.go).
use pg_guard.Prelude.{
  ℕ, zero, suc, ◌-◌, ◌≡◌, refl, ap, sym, Bool, true, not, List, [], ◌∷◌, ◌++◌, Text, text_eq,
  text_eq-eq, ◌∙◌, leb, if◌then◌else◌, length, take, drop, All, keep_if, Bool-cases, inl, inr,
  arith,
}
use pg_guard.Backup.Sorting.{
  Below, sort_texts-Sorted, length-sort_texts, Sorted-cut, take-append-drop, length-drop,
}
use pg_guard.Config.{Config}
use pg_guard.Auth.{any_equal}
use pg_guard.Backup.{
  Entry, World, is_backup_name, insert_text, sort_texts, names_of, surplus, without, remove_each,
  prune_old_backups, retained,
}

surplus-take :
    (retain : ℕ) (names : List Text)
    → surplus retain names ≡ take (length names - retain) (sort_texts names)
unfolding surplus
surplus-take retain names = ground arith

-- The names that are removed and those that are kept are together the sorted names of all backups.
-- As many are kept as the setting says, or all of them if there are no more; and no removed
-- name stands after a kept one, so the newest backups are kept.
pub surplus_is_oldest :
    (retain : ℕ) (names : List Text)
    → (kept : List Text) × (sort_texts names ≡ surplus retain names ++ kept)
      × (length kept ≡ (if leb (length names) retain then length names else retain))
      × All (λ x. Below x kept) (surplus retain names)
surplus_is_oldest retain names =
    let n = length names - retain in
    (
      drop n (sort_texts names),
      rw (surplus-take retain names) (take-append-drop n (sort_texts names)),
      ground (arith, length-drop n (sort_texts names), length-sort_texts names),
      rw (surplus-take retain names) (Sorted-cut n (sort_texts names) (sort_texts-Sorted names)),
    )

-- One removal and the rest of them leave the entries with none of the names.
without-any_equal :
    (n : Text) (ns : List Text) (es : List Entry)
    → keep_if (λ e. not (any_equal e.name ns)) (without n es)
      ≡ keep_if (λ e. not (any_equal e.name (n ∷ ns))) es
unfolding any_equal
without-any_equal n ns [] = refl
without-any_equal n ns (e ∷ es) = ground (arith, without-any_equal n ns es)

keep_none : (es : List Entry) → keep_if (λ e. not (any_equal e.name [])) es ≡ es
unfolding any_equal
keep_none [] = refl
keep_none (e ∷ es) = ground (arith, keep_none es)

-- If all removals work, the entries that are left are those with none of the names, in their order.
remove_each-all :
    (removes : Text → Bool) (ns : List Text) (es : List Entry)
    → (remove_each removes ns es).0 ≡ true
    → (remove_each removes ns es).1 ≡ keep_if (λ e. not (any_equal e.name ns)) es
unfolding remove_each any_equal
remove_each-all removes [] es h = sym (keep_none es)
remove_each-all removes (n ∷ ns) es h =
    ground (arith, h, remove_each-all removes ns (without n es), without-any_equal n ns es)

-- A pruning that works removes from the directory exactly the entries that bear the name of a
-- surplus backup: the others stay, in their order.
pub prune_removes_surplus :
    (w : World) (cfg : Config) (es : List Entry)
    → (prune_old_backups w cfg es).0 ≡ true
    → (prune_old_backups w cfg es).1
      ≡ keep_if
          (λ e. not (any_equal e.name (surplus (retained cfg.backup_retain) (names_of es))))
          es
unfolding prune_old_backups
prune_removes_surplus w cfg es h =
    ground
      (arith, h, remove_each-all w.removes (surplus (retained cfg.backup_retain) (names_of es)) es)

abbrev AllBackups : List Text → Type 0
AllBackups ns = All (λ n. is_backup_name n ≡ true) ns

names_of-AllBackups : (es : List Entry) → AllBackups (names_of es)
names_of-AllBackups [] = tt
names_of-AllBackups (e ∷ es) = ground (arith, names_of-AllBackups es)

insert_text-AllBackups :
    (x : Text) (ys : List Text)
    → is_backup_name x ≡ true
    → AllBackups ys
    → AllBackups (insert_text x ys)
unfolding insert_text
insert_text-AllBackups x [] h a = (h, tt)
insert_text-AllBackups x (y ∷ ys) h a = ground (arith, h, a, insert_text-AllBackups x ys)

sort_texts-AllBackups : (xs : List Text) → AllBackups xs → AllBackups (sort_texts xs)
unfolding sort_texts
sort_texts-AllBackups [] a = tt
sort_texts-AllBackups (x ∷ xs) a =
    insert_text-AllBackups x (sort_texts xs) a.0 (sort_texts-AllBackups xs a.1)

take-AllBackups : (n : ℕ) (xs : List Text) → AllBackups xs → AllBackups (take n xs)
take-AllBackups zero xs a = tt
take-AllBackups (suc n) [] a = tt
take-AllBackups (suc n) (x ∷ xs) a = (a.0, take-AllBackups n xs a.1)

surplus-AllBackups : (r : ℕ) (es : List Entry) → AllBackups (surplus r (names_of es))
surplus-AllBackups r es = rw (surplus-take r (names_of es)) (
    take-AllBackups (length (names_of es) - r) (sort_texts (names_of es))
      (sort_texts-AllBackups (names_of es) (names_of-AllBackups es)))

-- The entries whose name is not that of a backup.
abbrev pub foreign : List Entry → List Entry
foreign es = keep_if (λ e. not (is_backup_name e.name)) es

foreign-without :
    (n : Text) (es : List Entry) → is_backup_name n ≡ true → foreign (without n es) ≡ foreign es
foreign-without n [] h = refl
foreign-without n (e ∷ es) h = elim (Bool-cases (text_eq n e.name)) [
  | inl same ↦
      let eq = text_eq-eq n e.name same in
      ground (arith, same, sym (ap is_backup_name eq) ∙ h, foreign-without n es h)
  | inr other ↦ ground (arith, other, foreign-without n es h)
]

foreign-remove_each :
    (removes : Text → Bool) (ns : List Text) (es : List Entry)
    → AllBackups ns
    → foreign (remove_each removes ns es).1 ≡ foreign es
unfolding remove_each
foreign-remove_each removes [] es a = refl
foreign-remove_each removes (n ∷ ns) es a =
    ground (arith, foreign-without n es a.0, foreign-remove_each removes ns (without n es) a.1)

-- Whether or not the pruning works, the entries that do not bear the name of a backup stay in the
-- directory as they were.
pub prune_spares_foreign :
    (w : World) (cfg : Config) (es : List Entry)
    → foreign (prune_old_backups w cfg es).1 ≡ foreign es
unfolding prune_old_backups
prune_spares_foreign w cfg es = ground (
  arith,
  foreign-remove_each w.removes (surplus (retained cfg.backup_retain) (names_of es)) es
      (surplus-AllBackups (retained cfg.backup_retain) es),
)
