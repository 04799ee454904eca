-- ===== src/Header/Ranges.antt =====
-- Which headers `validate_ranges` of src/storage/mod.rs accepts.
use ruzu.Prelude.{
  Decides, >>-Decides, if-Decides, ok-Decides, ℕ, ◌+◌, ◌^◌, ◌<◌, ◌≤◌, ◌≡◌, ◌↔◌, inl, inr, true,
  false, List, [], ◌∷◌, arith, page_range_overlap, Bool-cases, ltb,
}
use ruzu.Header.{
  PageRange, DatabaseHeader, overlaps, contains_page, end_page, is_empty, new_range,
  check_header_page, check_header_pages, check_overlaps, check_pairs, ranges, validate_ranges,
}

-- The end of the range is a 32-bit number.
unfoldable pub Fits : PageRange → Type 0
Fits range = range.start_page + range.num_pages < 2 ^ 32

unfoldable pub AllFit : List PageRange → Type 0
AllFit [] = Unit {0}
AllFit (range ∷ rest) = Fits range × AllFit rest

-- A range that fits holds the pages from its start on, as many as it says.
pub contains_page_lem :
    (range : PageRange) (page : ℕ)
    → Fits range
    → (contains_page range page ≡ true)
      ↔ ((range.start_page ≤ page) × (page < range.start_page + range.num_pages))
unfolding Fits contains_page end_page
contains_page_lem range page fits = ground arith

module _ (a b : PageRange) (fits_a : Fits a) (fits_b : Fits b) where
  later_start :
      (overlaps a b ≡ true)
      → (page : ℕ) × (contains_page a page ≡ true) × (contains_page b page ≡ true)
  unfolding Fits overlaps contains_page end_page
  later_start e = elim (Bool-cases (ltb a.start_page b.start_page)) [
    | inl lt ↦ (b.start_page, ground arith, ground arith)
    | inr ge ↦ (a.start_page, ground arith, ground arith)
  ]

  shared_page :
      (page : ℕ) → contains_page a page ≡ true → contains_page b page ≡ true → overlaps a b ≡ true
  unfolding Fits overlaps contains_page end_page
  shared_page page in_a in_b = ground arith

  -- Two ranges of pages that end below `2 ^ 32` overlap exactly if they share a page.
  pub overlaps_iff :
      (overlaps a b ≡ true)
      ↔ ((page : ℕ) × (contains_page a page ≡ true) × (contains_page b page ≡ true))
  overlaps_iff = (later_start, λ shared. shared_page shared.0 shared.1 shared.2)

-- No page of the range is one of the others'.
pub Apart : PageRange → List PageRange → Type 0
Apart range [] = Unit {0}
Apart range (other ∷ rest) =
    ((page : ℕ) → contains_page range page ≡ true → contains_page other page ≡ false)
    × Apart range rest

-- No page is in two of the ranges.
pub PairwiseApart : List PageRange → Type 0
PairwiseApart [] = Unit {0}
PairwiseApart (range ∷ rest) = Apart range rest × PairwiseApart rest

-- No range holds page 0.
pub WithoutHeaderPage : List PageRange → Type 0
WithoutHeaderPage [] = Unit {0}
WithoutHeaderPage (range ∷ rest) = (contains_page range 0 ≡ false) × WithoutHeaderPage rest

check_header_page-Decides :
    (range : PageRange)
    → Fits range
    → Decides page_range_overlap (check_header_page range) (contains_page range 0 ≡ false)
unfolding Fits check_header_page overlaps contains_page end_page is_empty new_range
check_header_page-Decides range fits = record {
  accepted = λ e. ground arith;
  holds = λ e. ground arith;
  refused = ground arith;
}

check_header_pages-Decides :
    (all : List PageRange)
    → AllFit all
    → Decides page_range_overlap (check_header_pages all) (WithoutHeaderPage all)
unfolding check_header_pages AllFit WithoutHeaderPage
check_header_pages-Decides [] fits = ok-Decides page_range_overlap
check_header_pages-Decides (range ∷ rest) (fits, rest_fit) =
    >>-Decides page_range_overlap (check_header_page range) (check_header_pages rest)
      (check_header_page-Decides range fits) (check_header_pages-Decides rest rest_fit)

overlaps-false :
    (a b : PageRange)
    → Fits a
    → Fits b
    → (overlaps a b ≡ false)
      ↔ ((page : ℕ) → contains_page a page ≡ true → contains_page b page ≡ false)
overlaps-false a b fits_a fits_b = (
  λ e page in_a. elim (Bool-cases (contains_page b page)) [
    | inl in_b ↦ (let shared = shared_page a b fits_a fits_b page in_a in_b in cc)
    | inr out ↦ out
  ],
  λ apart. elim (Bool-cases (overlaps a b)) [
    | inl e ↦
        (let shared = later_start a b fits_a fits_b e in
          let out = apart shared.0 shared.1 in let is_in = shared.2 in cc)
    | inr e ↦ e
  ],
)

check_overlaps-Decides :
    (range : PageRange) (rest : List PageRange)
    → Fits range
    → AllFit rest
    → Decides page_range_overlap (check_overlaps range rest) (Apart range rest)
unfolding check_overlaps AllFit Apart
check_overlaps-Decides range [] fits rest_fit = ok-Decides page_range_overlap
check_overlaps-Decides range (other ∷ rest) fits (other_fits, rest_fit) =
    if-Decides page_range_overlap (overlaps range other) (check_overlaps range rest)
      (overlaps-false range other fits other_fits) (check_overlaps-Decides range rest fits rest_fit)

check_pairs-Decides :
    (all : List PageRange)
    → AllFit all
    → Decides page_range_overlap (check_pairs all) (PairwiseApart all)
unfolding check_pairs AllFit PairwiseApart
check_pairs-Decides [] fits = ok-Decides page_range_overlap
check_pairs-Decides (range ∷ rest) (fits, rest_fit) =
    >>-Decides page_range_overlap (check_overlaps range rest) (check_pairs rest)
      (check_overlaps-Decides range rest fits rest_fit) (check_pairs-Decides rest rest_fit)

-- On a header whose ranges end below `2 ^ 32`, `validate_ranges` succeeds exactly when no range
-- contains page 0 and no page is in two of the ranges, and otherwise fails with an overlap.
pub validate_ranges-Decides :
    (header : DatabaseHeader)
    → AllFit (ranges header)
    → Decides page_range_overlap
        (validate_ranges header)
        (WithoutHeaderPage (ranges header) × PairwiseApart (ranges header))
unfolding validate_ranges
validate_ranges-Decides header fits =
    >>-Decides page_range_overlap (check_header_pages (ranges header)) (check_pairs (ranges header))
      (check_header_pages-Decides (ranges header) fits) (check_pairs-Decides (ranges header) fits)
