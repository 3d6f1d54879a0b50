-- ===== src/Backup/Sorting.antt =====
-- The order of sort.Strings, and the parts of a sorted list (src/backup.go).
use pg_guard.Prelude.{
  ℕ, zero, suc, ◌-◌, ◌≡◌, refl, ap, true, false, List, [], ◌∷◌, ◌++◌, Text, length, take, drop, All,
  arith,
}
use pg_guard.Backup.{text_leb, insert_text, sort_texts}

pub text_leb_total : (x y : Text) → text_leb x y ≡ false → text_leb y x ≡ true
unfolding text_leb
text_leb_total [] y h = ground (arith, h)
text_leb_total (a ∷ x) [] h = refl
text_leb_total (a ∷ x) (b ∷ y) h = ground (arith, h, text_leb_total x y)

pub text_leb_trans :
    (x y z : Text) → text_leb x y ≡ true → text_leb y z ≡ true → text_leb x z ≡ true
unfolding text_leb
text_leb_trans [] y z h k = refl
text_leb_trans (a ∷ x) [] z h k = ground (arith, h)
text_leb_trans (a ∷ x) (b ∷ y) [] h k = ground (arith, k)
text_leb_trans (a ∷ x) (b ∷ y) (c ∷ z) h k = ground (arith, h, k, text_leb_trans x y z)

-- Nothing in the list stands before the text.
abbrev pub Below : Text → List Text → Type 0
Below x ys = All (λ y. text_leb x y ≡ true) ys

abbrev pub Sorted : List Text → Type 0
Sorted [] = Unit
Sorted (x ∷ xs) = Below x xs × Sorted xs

pub Below-trans : (x y : Text) (ys : List Text) → text_leb x y ≡ true → Below y ys → Below x ys
Below-trans x y [] h b = tt
Below-trans x y (z ∷ ys) h b = (text_leb_trans x y z h b.0, Below-trans x y ys h b.1)

pub Below-insert_text :
    (z x : Text) (ys : List Text) → text_leb z x ≡ true → Below z ys → Below z (insert_text x ys)
unfolding insert_text
Below-insert_text z x [] h b = (h, tt)
Below-insert_text z x (y ∷ ys) h b = ground (arith, h, b, Below-insert_text z x ys)

pub insert_text-Sorted : (x : Text) (ys : List Text) → Sorted ys → Sorted (insert_text x ys)
unfolding insert_text
insert_text-Sorted x [] s = (tt, tt)
insert_text-Sorted x (y ∷ ys) s = ground (
  arith,
  s,
  Below-trans x y ys,
  text_leb_total x y,
  Below-insert_text y x ys,
  insert_text-Sorted x ys,
)

pub sort_texts-Sorted : (xs : List Text) → Sorted (sort_texts xs)
unfolding sort_texts
sort_texts-Sorted [] = tt
sort_texts-Sorted (x ∷ xs) = insert_text-Sorted x (sort_texts xs) (sort_texts-Sorted xs)

pub length-insert_text : (x : Text) (ys : List Text) → length (insert_text x ys) ≡ suc (length ys)
unfolding insert_text
length-insert_text x [] = refl
length-insert_text x (y ∷ ys) = ground (arith, length-insert_text x ys)

pub length-sort_texts : (xs : List Text) → length (sort_texts xs) ≡ length xs
unfolding sort_texts
length-sort_texts [] = refl
length-sort_texts (x ∷ xs) =
    ground (arith, length-insert_text x (sort_texts xs), length-sort_texts xs)

-- What stands before the cut is below what stands after it.
pub Sorted-cut : (n : ℕ) (xs : List Text) → Sorted xs → All (λ x. Below x (drop n xs)) (take n xs)
Sorted-cut zero xs s = tt
Sorted-cut (suc n) [] s = tt
Sorted-cut (suc n) (x ∷ xs) s = (Below-drop n x xs s.0, Sorted-cut n xs s.1)
  where
    Below-drop : (n : ℕ) (x : Text) (xs : List Text) → Below x xs → Below x (drop n xs)
    Below-drop zero x xs b = b
    Below-drop (suc n) x [] b = tt
    Below-drop (suc n) x (y ∷ xs) b = Below-drop n x xs b.1

pub take-append-drop : (n : ℕ) (xs : List Text) → xs ≡ take n xs ++ drop n xs
take-append-drop zero xs = refl
take-append-drop (suc n) [] = refl
take-append-drop (suc n) (x ∷ xs) = ap (λ l. x ∷ l) (take-append-drop n xs)

pub length-drop : (n : ℕ) (xs : List Text) → length (drop n xs) ≡ length xs - n
length-drop zero xs = omega arith
length-drop (suc n) [] = omega arith
length-drop (suc n) (x ∷ xs) = omega (arith, length-drop n xs)
