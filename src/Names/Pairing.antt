-- ===== src/Names/Pairing.antt =====
-- Two nodes derive each other's names (src/config.go).
use pg_guard.Prelude.{
  ℕ, ◌≡◌, inl, inr, refl, sym, true, false, some, [], ◌∷◌, ◌++◌, Text, text_eq, text_eq-eq,
  is_empty, has_suffix, trim_suffix, Bool-cases, ◌==◌, arith,
}
use pg_guard.Names.{derive_peer_host, first_suffix, second_suffix}

-- A dash and a digit.
abbrev dash : ℕ → Text
dash d = 45 ∷ (d ∷ [])

has_suffix-append : (d : ℕ) (r : Text) → has_suffix (dash d) (r ++ dash d) ≡ true
unfolding has_suffix text_eq
has_suffix-append d [] = ground arith
has_suffix-append d (x ∷ r) = ground (arith, has_suffix-append d r)

is_empty-append : (d : ℕ) (r : Text) → is_empty (r ++ dash d) ≡ false
is_empty-append d [] = refl
is_empty-append d (x ∷ r) = refl

has_suffix_other :
    (d e : ℕ) (r : Text) → (d == e) ≡ false → has_suffix (dash d) (r ++ dash e) ≡ false
unfolding has_suffix text_eq
has_suffix_other d e [] h = ground (arith, h)
has_suffix_other d e (x ∷ []) h = ground (arith, h)
has_suffix_other d e (x ∷ (y ∷ r)) h =
    ground (arith, is_empty-append e r, has_suffix_other d e (y ∷ r) h)

trim_suffix-append : (d : ℕ) (r : Text) → trim_suffix (dash d) (r ++ dash d) ≡ r
unfolding trim_suffix text_eq
trim_suffix-append d [] = ground arith
trim_suffix-append d (x ∷ []) = ground arith
trim_suffix-append d (x ∷ (y ∷ r)) =
    ground (arith, is_empty-append d r, trim_suffix-append d (y ∷ r))

has_suffix-split :
    (d : ℕ) (s : Text) → has_suffix (dash d) s ≡ true → s ≡ trim_suffix (dash d) s ++ dash d
unfolding has_suffix trim_suffix
has_suffix-split d [] h = absurd (ground (arith, h))
has_suffix-split d (x ∷ s) h = elim (Bool-cases (text_eq (dash d) (x ∷ s))) [
  | inl same ↦ rw same (sym (text_eq-eq (dash d) (x ∷ s) same))
  | inr other ↦ ground (arith, h, other, has_suffix-split d s)
]

from_first :
    (h p : Text)
    → has_suffix first_suffix h ≡ true
    → derive_peer_host h ≡ some p
    → derive_peer_host p ≡ some h
unfolding derive_peer_host
from_first h p f e =
    let r = trim_suffix first_suffix h in
    ground (
      arith,
      f,
      e,
      has_suffix_other 48 49 r refl,
      has_suffix-append 49 r,
      trim_suffix-append 49 r,
      has_suffix-split 48 h f,
    )

from_second :
    (h p : Text)
    → has_suffix first_suffix h ≡ false
    → has_suffix second_suffix h ≡ true
    → derive_peer_host h ≡ some p
    → derive_peer_host p ≡ some h
unfolding derive_peer_host
from_second h p g f e =
    let r = trim_suffix second_suffix h in
    ground
      (arith, g, f, e, has_suffix-append 48 r, trim_suffix-append 48 r, has_suffix-split 49 h f)

-- If a node derives the name of its peer, the peer derives the name of the node.
pub derive_peer_host_pairs :
    (h p : Text) → derive_peer_host h ≡ some p → derive_peer_host p ≡ some h
unfolding derive_peer_host
derive_peer_host_pairs h p e = elim (Bool-cases (has_suffix first_suffix h)) [
  | inl first ↦ from_first h p first e
  | inr other ↦ elim (Bool-cases (has_suffix second_suffix h)) [
    | inl second ↦ from_second h p other second e
    | inr neither ↦ absurd (ground (arith, e, other, neither))
  ]
]
