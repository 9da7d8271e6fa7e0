-- ===== src/Files/Bytes.antt =====
-- What `_validate_pdf` and `_scan_malware` of backend/app/services/product_files.py accept, said of
-- the bytes themselves.
use mathlib.Core.Path.{subst}
use qatth.Base.{
  ℕ, ◌≡◌, refl, sym, ap, true, false, none, some, List, [], ◌∷◌, ◌++◌, ◌⊎◌, inl, inr, arith,
  Bool-cases, Option-cases,
}
use qatth.Files.Content.{
  starts_with, contains, last_bytes, pdf_header, pdf_end, java_script, launch, embedded_file,
  validate_pdf, chunks, Answer, Scanner, scan_malware,
}

abbrev pub StartsWith : List ℕ → List ℕ → Type 0
StartsWith part bs = (rest : List ℕ) × (bs ≡ part ++ rest)

abbrev pub Contains : List ℕ → List ℕ → Type 0
Contains part bs = (before : List ℕ) × (after : List ℕ) × (bs ≡ before ++ (part ++ after))

starts_with-StartsWith : (part bs : List ℕ) → starts_with part bs ≡ true → StartsWith part bs
unfolding starts_with
starts_with-StartsWith [] bs h = (bs, refl)
starts_with-StartsWith (p ∷ ps) [] h = ground arith
starts_with-StartsWith (p ∷ ps) (b ∷ bs) h =
    let same : p ≡ b = ground arith in
    let (rest, e) = starts_with-StartsWith ps bs (ground arith) in
    (rest, rw same (ap (λ xs. b ∷ xs) e))

starts_with_self : (part rest : List ℕ) → starts_with part (part ++ rest) ≡ true
unfolding starts_with
starts_with_self [] rest = refl
starts_with_self (p ∷ ps) rest = ground (arith, starts_with_self ps rest)

contains_here : (part bs : List ℕ) → starts_with part bs ≡ true → contains part bs ≡ true
unfolding contains
contains_here part [] h = h
contains_here part (b ∷ bs) h = rw (contains, h) refl

contains-Contains : (part bs : List ℕ) → contains part bs ≡ true → Contains part bs
unfolding contains
contains-Contains part [] h = let (rest, e) = starts_with-StartsWith part [] h in ([], rest, e)
contains-Contains part (b ∷ bs) h = elim (Bool-cases (starts_with part (b ∷ bs))) [
  | inl t ↦ let (rest, e) = starts_with-StartsWith part (b ∷ bs) t in ([], rest, e)
  | inr f ↦
      let (before, after, e) = contains-Contains part bs (rw f at h) in
      (b ∷ before, after, ap (λ xs. b ∷ xs) e)
]

contains_part : (before part after : List ℕ) → contains part (before ++ (part ++ after)) ≡ true
unfolding contains
contains_part [] part after = contains_here part (part ++ after) (starts_with_self part after)
contains_part (b ∷ bs) part after = ground (arith, contains_part bs part after)

contains-Contains_not : (part bs : List ℕ) → contains part bs ≡ false → ¬ (Contains part bs)
contains-Contains_not part bs h (before, after, e) =
    let found : contains part bs ≡ true =
      subst (λ xs. contains part xs ≡ true) (sym e) (contains_part before part after) in
    ground arith

Contains-contains : (part bs : List ℕ) → Contains part bs → contains part bs ≡ true
Contains-contains part bs (before, after, e) =
    subst (λ xs. contains part xs ≡ true) (sym e) (contains_part before part after)

absent : (part bs : List ℕ) → ¬ (Contains part bs) → contains part bs ≡ false
absent part bs h = elim (Bool-cases (contains part bs)) [
  | inl t ↦ absurd (h (contains-Contains part bs t))
  | inr f ↦ f
]

-- A file that starts as a PDF, has its end mark in its last 8192 bytes, and has no script, launch
-- action or embedded file anywhere.
abbrev pub IsSafePdf : List ℕ → Type 0
IsSafePdf bs =
    StartsWith pdf_header bs
    × Contains pdf_end (last_bytes 8192 bs)
    × ¬ (Contains java_script bs)
    × ¬ (Contains launch bs)
    × ¬ (Contains embedded_file bs)

passed-IsSafePdf : (bs : List ℕ) → validate_pdf bs ≡ none → IsSafePdf bs
unfolding validate_pdf
passed-IsSafePdf bs h = elim (Bool-cases (starts_with pdf_header bs)) [
  | inr a ↦ absurd (ground (arith, rw (validate_pdf, a) at h))
  | inl a ↦ elim (Bool-cases (contains pdf_end (last_bytes 8192 bs))) [
    | inr b ↦ absurd (ground (arith, rw (validate_pdf, a, b) at h))
    | inl b ↦ elim (Bool-cases (contains java_script bs)) [
      | inl c ↦ absurd (ground (arith, rw (validate_pdf, a, b, c) at h))
      | inr c ↦ elim (Bool-cases (contains launch bs)) [
        | inl d ↦ absurd (ground (arith, rw (validate_pdf, a, b, c, d) at h))
        | inr d ↦ elim (Bool-cases (contains embedded_file bs)) [
          | inl e ↦ absurd (ground (arith, rw (validate_pdf, a, b, c, d, e) at h))
          | inr e ↦ (
            starts_with-StartsWith pdf_header bs a,
            contains-Contains pdf_end (last_bytes 8192 bs) b,
            contains-Contains_not java_script bs c,
            contains-Contains_not launch bs d,
            contains-Contains_not embedded_file bs e,
          )
        ]
      ]
    ]
  ]
]

-- The validation accepts exactly the files that start as a PDF, have the end mark in their last
-- 8192 bytes, and have none of the three names of active or embedded content anywhere.
pub validate_pdf-IsSafePdf :
    (bs : List ℕ)
    → (validate_pdf bs ≡ none → IsSafePdf bs) × (IsSafePdf bs → validate_pdf bs ≡ none)
unfolding validate_pdf
validate_pdf-IsSafePdf bs = (passed-IsSafePdf bs, λ safe. accepted safe)
  where
    accepted : IsSafePdf bs → validate_pdf bs ≡ none
    accepted ((rest, start), end, script, action, file) =
        let a : starts_with pdf_header bs ≡ true =
          subst (λ xs. starts_with pdf_header xs ≡ true) (sym start)
            (starts_with_self pdf_header rest) in
        let b = Contains-contains pdf_end (last_bytes 8192 bs) end in
        let c = absent java_script bs script in
        let d = absent launch bs action in
        let e = absent embedded_file bs file in rw (validate_pdf, a, b, c, d, e) refl

-- A scanner is configured and answered to all bytes with an OK that finds nothing; or none is
-- configured, in an environment that may do without.
abbrev pub IsScanned : Scanner → List ℕ → Type 0
IsScanned s bs =
    ((s.is_configured ≡ true)
      × (a : Answer) × (s.answer (chunks bs) ≡ some a)
      × (a.has_found ≡ false)
      × (a.has_ok ≡ true))
    ⊎ ((s.is_configured ≡ false) × (s.is_lenient ≡ true))

pub scan_malware-IsScanned : (s : Scanner) (bs : List ℕ) → scan_malware s bs ≡ none → IsScanned s bs
unfolding scan_malware
scan_malware-IsScanned s bs h = elim (Bool-cases s.is_configured) [
  | inr c ↦ elim (Bool-cases s.is_lenient) [
    | inl l ↦ inr (c, l)
    | inr l ↦ absurd (ground (arith, rw (scan_malware, c, l) at h))
  ]
  | inl c ↦ elim (Option-cases (s.answer (chunks bs))) [
    | inl n ↦ absurd (ground (arith, rw (scan_malware, c, n) at h))
    | inr (a, e) ↦ elim (Bool-cases a.has_found) [
      | inl f ↦ absurd (ground (arith, rw (scan_malware, c, e, f) at h))
      | inr f ↦ elim (Bool-cases a.has_ok) [
        | inl o ↦ inl (c, a, e, f, o)
        | inr o ↦ absurd (ground (arith, rw (scan_malware, c, e, f, o) at h))
      ]
    ]
  ]
]
