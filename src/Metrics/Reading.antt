-- ===== src/Metrics/Reading.antt =====
-- How Prometheus reads the text of a page of metrics (src/metrics.go): lines that begin with # are
-- comments, and any other line is a name, a blank and a value.
use mathlib.Core.List.{append_assoc, append-nil}
use pg_guard.Prelude.{
  ℕ, Bool, true, false, not, ◌&&◌, ◌||◌, List, [], ◌∷◌, ◌++◌, map, ◌≡◌, refl, ap, Text, lit,
  is_empty, newline, IsLine, split_lines, split_lines-append, ◌==◌, leb, if◌then◌else◌, arith,
}
use pg_guard.Metrics.{Value, MetricKind, gauge_kind, counter_kind, Metric}
use pg_guard.Metrics.Page.{kind_word, write_metric, metrics_page}

-- What stands before the first blank of a line, and what stands behind it.
pub split_at_blank : Text → Text → Text × Text
split_at_blank name [] = (name, [])
split_at_blank name (c ∷ s) =
    let rest = split_at_blank (name ++ (c ∷ [])) s in if c == 32 then (name, s) else rest

abbrev read_sample : Text → List (Text × Text) → List (Text × Text)
read_sample [] samples = samples
read_sample (c ∷ s) samples = if c == 35 then samples else split_at_blank [] (c ∷ s) ∷ samples

pub read_samples : List Text → List (Text × Text)
read_samples [] = []
read_samples (l ∷ ls) = read_sample l (read_samples ls)

unfoldable pub read_page : Text → List (Text × Text)
unfolding split_at_blank read_samples
read_page s = read_samples (split_lines s)

-- A byte of a name: a small letter or an underscore.
abbrev is_name_byte : ℕ → Bool
is_name_byte c = (leb 97 c && leb c 122) || c == 95

abbrev all_bytes : (ℕ → Bool) → Text → Bool
all_bytes test [] = true
all_bytes test (c ∷ s) = test c && all_bytes test s

-- A name of such bytes, and an explanation on one line.
abbrev pub is_sound : Metric → Bool
is_sound m =
    not (is_empty m.name)
    && (all_bytes is_name_byte m.name && all_bytes (λ c. not (c == newline)) m.help)

abbrev help_line : Metric → Text
help_line m = lit "# HELP " ++ (m.name ++ (lit " " ++ m.help))

abbrev type_line : Metric → Text
type_line m = lit "# TYPE " ++ (m.name ++ (lit " " ++ kind_word m.kind))

abbrev sample_line : (Value → Text) → Metric → Text
sample_line format m = m.name ++ (lit " " ++ format m.value)

write_metric-lines :
    (format : Value → Text) (m : Metric) (rest : Text)
    → write_metric format m ++ rest
      ≡ help_line m
        ++ (newline ∷ (type_line m ++ (newline ∷ (sample_line format m ++ (newline ∷ rest)))))
unfolding write_metric
write_metric-lines format m rest = simp append_assoc

IsLine-append : (s t : Text) → IsLine s → IsLine t → IsLine (s ++ t)
IsLine-append [] t h k = k
IsLine-append (c ∷ s) t h k = (h.0, IsLine-append s t h.1 k)

name-IsLine : (name : Text) → all_bytes is_name_byte name ≡ true → IsLine name
name-IsLine [] h = tt
name-IsLine (c ∷ s) h = (ground arith, name-IsLine s (ground arith))

help-IsLine : (help : Text) → all_bytes (λ c. not (c == newline)) help ≡ true → IsLine help
help-IsLine [] h = tt
help-IsLine (c ∷ s) h = (ground arith, help-IsLine s (ground arith))

kind-IsLine : (k : MetricKind) → IsLine (kind_word k)
kind-IsLine gauge_kind = ground arith
kind-IsLine counter_kind = ground arith

split_at_blank_name :
    (acc name v : Text)
    → all_bytes is_name_byte name ≡ true
    → split_at_blank acc (name ++ (32 ∷ v)) ≡ (acc ++ name, v)
unfolding split_at_blank
split_at_blank_name acc [] v h = rw (append-nil acc) refl
split_at_blank_name acc (c ∷ name) v h =
    rw
      (
        not_blank,
        split_at_blank_name (acc ++ (c ∷ [])) name v (ground arith),
        append_assoc acc (c ∷ []) name,
      )
      refl
  where
    not_blank : (c == 32) ≡ false
    not_blank = ground arith

read_sample_line :
    (name v : Text) (samples : List (Text × Text))
    → is_empty name ≡ false
    → all_bytes is_name_byte name ≡ true
    → read_sample (name ++ (32 ∷ v)) samples ≡ (name, v) ∷ samples
read_sample_line [] v samples h k = absurd (ground (arith, h))
read_sample_line (c ∷ name) v samples h k =
    rw (no_comment) (ap (λ p. p ∷ samples) (split_at_blank_name [] (c ∷ name) v k))
  where
    no_comment : (c == 35) ≡ false
    no_comment = ground arith

-- A name, a blank and more.
named-IsLine :
    (name t : Text) → all_bytes is_name_byte name ≡ true → IsLine t → IsLine (name ++ (32 ∷ t))
named-IsLine name t h k = IsLine-append name (32 ∷ t) (name-IsLine name h) (refl, k)

unfoldable pub all_sound : List Metric → Bool
all_sound [] = true
all_sound (m ∷ ms) = is_sound m && all_sound ms

read_page_none : read_page [] ≡ []
unfolding read_page split_lines
read_page_none = refl

module _ (format : Value → Text) (one_line : (v : Value) → IsLine (format v)) where
  read_one :
      (m : Metric) (rest : Text)
      → is_sound m ≡ true
      → read_page (write_metric format m ++ rest) ≡ (m.name, format m.value) ∷ read_page rest
  unfolding read_page
  read_one m rest h =
      rw
        (
          write_metric-lines format m rest,
          split_lines-append (help_line m)
              (type_line m ++ (newline ∷ (sample_line format m ++ (newline ∷ rest)))) helps,
          split_lines-append (type_line m) (sample_line format m ++ (newline ∷ rest)) types,
          split_lines-append (sample_line format m) rest samples,
        )
        (read_sample_line m.name (format m.value) (read_samples (split_lines rest)) (ground arith)
          (ground arith))
    where
      name_bytes : all_bytes is_name_byte m.name ≡ true
      name_bytes = ground arith

      helps : IsLine (help_line m)
      helps =
          IsLine-append (lit "# HELP ") (m.name ++ (lit " " ++ m.help)) (ground arith)
            (named-IsLine m.name m.help name_bytes (help-IsLine m.help (ground arith)))

      types : IsLine (type_line m)
      types =
          IsLine-append (lit "# TYPE ") (m.name ++ (lit " " ++ kind_word m.kind)) (ground arith)
            (named-IsLine m.name (kind_word m.kind) name_bytes (kind-IsLine m.kind))

      samples : IsLine (sample_line format m)
      samples = named-IsLine m.name (format m.value) name_bytes (one_line m.value)

  pub read_page-metrics_page :
      (ms : List Metric)
      → all_sound ms ≡ true
      → read_page (metrics_page format ms) ≡ map (λ m. (m.name, format m.value)) ms
  unfolding metrics_page all_sound
  read_page-metrics_page [] h = read_page_none
  read_page-metrics_page (m ∷ ms) h =
      rw
        (
          read_one m (metrics_page format ms) (ground arith),
          read_page-metrics_page ms (ground arith),
        )
        refl
