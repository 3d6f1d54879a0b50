-- ===== src/Detect/Only.antt =====
-- A binary is detected only where there is no other (src/detect_linux.go).
use pg_guard.Prelude.{
  ◌≤◌, ◌≢◌, Bool, true, false, not, ◌&&◌, ◌||◌, Option, List, [], ◌∷◌, ◌≡◌, ◌↔◌, refl, Text,
  text_eq, text_eq_iff, is_empty, length, length-append, if◌then◌else◌, Bool-cases, inl, inr, arith,
}
use pg_guard.Detect.{one_binary, by_count, add_path, add_paths, candidates, detect_on_linux}

module _ (exists : Text → Bool) where
  abbrev pub is_usable : Text → Bool
  is_usable path = not (is_empty path) && exists path

  -- Every usable path of the list is this one; and it is one of them.
  abbrev pub all_are : Text → List Text → Bool
  all_are p [] = true
  all_are p (q ∷ qs) = (not (is_usable q) || text_eq q p) && all_are p qs

  abbrev pub some_is : Text → List Text → Bool
  some_is p [] = false
  some_is p (q ∷ qs) = (is_usable q && text_eq q p) || some_is p qs

  add_path_grows :
      (path : Text) (found : List Text) → length found ≤ length (add_path exists path found)
  unfolding add_path
  add_path_grows path found = ground (arith, length-append found (path ∷ []))

  add_paths_grows : (paths found : List Text) → length found ≤ length (add_paths exists paths found)
  unfolding add_paths
  add_paths_grows [] found = omega arith
  add_paths_grows (path ∷ paths) found =
      omega (arith, add_path_grows path found, add_paths_grows paths (add_path exists path found))

  add_path_to_one :
      (q p : Text)
      → add_path exists q (p ∷ [])
        ≡ (if not (is_usable q) || text_eq q p then p ∷ [] else p ∷ (q ∷ []))
  unfolding add_path
  add_path_to_one q p = ground arith

  add_path_to_none : (q : Text) → add_path exists q [] ≡ (if is_usable q then q ∷ [] else [])
  unfolding add_path
  add_path_to_none q = ground arith

  several : (ps : List Text) (p : Text) → 2 ≤ length ps → by_count ps ≢ one_binary p
  several [] p h = absurd (omega arith)
  several (a ∷ []) p h = absurd (omega arith)
  several (a ∷ b ∷ ps) p h = λ e. cc e

  one_stays :
      (qs : List Text) (p : Text) → all_are p qs ≡ true → add_paths exists qs (p ∷ []) ≡ p ∷ []
  unfolding add_paths
  one_stays [] p h = refl
  one_stays (q ∷ qs) p h = ground (arith, add_path_to_one q p, one_stays qs p)

  one_is_lost :
      (qs : List Text) (p : Text) → all_are p qs ≡ false → 2 ≤ length (add_paths exists qs (p ∷ []))
  unfolding add_paths
  one_is_lost [] p h = absurd (ground arith)
  one_is_lost (q ∷ qs) p h = elim (Bool-cases (not (is_usable q) || text_eq q p)) [
    | inl same ↦ rw (add_path_to_one q p, same) (one_is_lost qs p (ground arith))
    | inr other ↦ rw (add_path_to_one q p, other) (add_paths_grows qs (p ∷ (q ∷ [])))
  ]

  from_one :
      (qs : List Text) (q p : Text)
      → (by_count (add_paths exists qs (q ∷ [])) ≡ one_binary p)
        ↔ ((text_eq q p && all_are p qs) ≡ true)
  from_one qs q p = elim (Bool-cases (all_are q qs)) [
    | inl all ↦
        rw (one_stays qs q all)
          (λ e. ground (arith, text_eq_iff q p), λ h. ground (arith, text_eq_iff q p))
    | inr other ↦ (
      λ e. absurd (several (add_paths exists qs (q ∷ [])) p (one_is_lost qs q other) e),
      λ h. ground (arith, text_eq_iff q p),
    )
  ]

  from_none :
      (qs : List Text) (p : Text)
      → (by_count (add_paths exists qs []) ≡ one_binary p) ↔ ((some_is p qs && all_are p qs) ≡ true)
  unfolding add_paths
  from_none [] p = (λ e. cc e, λ h. cc h)
  from_none (q ∷ qs) p = elim (Bool-cases (is_usable q)) [
    | inl usable ↦
        rw (add_path_to_none q, usable)
          (λ e. ground (arith, from_one qs q p), λ h. ground (arith, from_one qs q p))
    | inr useless ↦ rw (add_path_to_none q, useless) (from_none qs p)
  ]

  -- The search succeeds with a binary exactly if that is among the matches of the glob and the
  -- result of the search on PATH, not an empty path, and exists, and every other such path is the
  -- same one: where two installations exist, none is chosen.
  pub detects_the_only_binary :
      (matches : List Text) (on_path : Option Text) (p : Text)
      → let paths = candidates exists matches on_path in
        (detect_on_linux exists matches on_path ≡ one_binary p)
        ↔ ((some_is p paths && all_are p paths) ≡ true)
  unfolding detect_on_linux
  detects_the_only_binary matches on_path p = from_none (candidates exists matches on_path) p
