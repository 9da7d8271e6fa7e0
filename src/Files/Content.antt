-- ===== src/Files/Content.antt =====
-- What `_validate_pdf` and `_scan_malware` of backend/app/services/product_files.py read in the
-- bytes of a file. The connection to the scanner is a parameter: its answer to the frames that it
-- is sent, or none where the socket fails.
use qatth.Base.{
  ℕ, zero, suc, ◌-◌, Bool, true, false, not, ◌&&◌, ◌||◌, Option, none, some, List, [], ◌∷◌, ◌==◌,
  if◌then◌else◌, take, length,
}
use qatth.Schema.Common.{Code, AppError}
use qatth.Db.{app_error, retryable_error}

abbrev pub drop : {A : Type 0} → ℕ → List A → List A
drop zero xs = xs
drop (suc n) [] = []
drop (suc n) (x ∷ xs) = drop n xs

-- `bytes.startswith`.
unfoldable pub starts_with : List ℕ → List ℕ → Bool
starts_with [] bs = true
starts_with (p ∷ ps) [] = false
starts_with (p ∷ ps) (b ∷ bs) = p == b && starts_with ps bs

-- `part in content`.
unfoldable pub contains : List ℕ → List ℕ → Bool
contains part [] = starts_with part []
contains part (b ∷ bs) = starts_with part (b ∷ bs) || contains part bs

-- `content[-n:]`, for a positive number.
abbrev pub last_bytes : ℕ → List ℕ → List ℕ
last_bytes n bs = drop (length bs - n) bs

-- The bytes "%PDF-", "%%EOF", "/JavaScript", "/Launch" and "/EmbeddedFile".
abbrev pub pdf_header : List ℕ
pdf_header = 37 ∷ 80 ∷ 68 ∷ 70 ∷ 45 ∷ []

abbrev pub pdf_end : List ℕ
pdf_end = 37 ∷ 37 ∷ 69 ∷ 79 ∷ 70 ∷ []

abbrev pub java_script : List ℕ
java_script = 47 ∷ 74 ∷ 97 ∷ 118 ∷ 97 ∷ 83 ∷ 99 ∷ 114 ∷ 105 ∷ 112 ∷ 116 ∷ []

abbrev pub launch : List ℕ
launch = 47 ∷ 76 ∷ 97 ∷ 117 ∷ 110 ∷ 99 ∷ 104 ∷ []

abbrev pub embedded_file : List ℕ
embedded_file = 47 ∷ 69 ∷ 109 ∷ 98 ∷ 101 ∷ 100 ∷ 100 ∷ 101 ∷ 100 ∷ 70 ∷ 105 ∷ 108 ∷ 101 ∷ []

-- `_validate_pdf`: what it raises.
unfoldable pub validate_pdf : List ℕ → Option AppError
validate_pdf bs =
    if not (starts_with pdf_header bs) || not (contains pdf_end (last_bytes 8192 bs))
    then some (app_error 422 Code.invalid_pdf)
    else if contains java_script bs || contains launch bs || contains embedded_file bs
    then some (app_error 422 Code.unsafe_pdf)
    else none

-- The chunks of `content[offset : offset + size]`, on fuel; as many steps as there are bytes are
-- enough for a positive size.
unfoldable pub chunks_on : ℕ → ℕ → List ℕ → List (List ℕ)
chunks_on zero size bs = []
chunks_on (suc n) size [] = []
chunks_on (suc n) size (b ∷ bs) = take size (b ∷ bs) ∷ chunks_on n size (drop size (b ∷ bs))

abbrev pub chunk_size : ℕ
chunk_size = 65536

unfoldable pub chunks : List ℕ → List (List ℕ)
chunks bs = chunks_on (length bs) chunk_size bs

-- What the scanner's answer says, as far as it is asked.
pub record Answer : Type 0 where
  pub has_found : Bool
  pub has_ok : Bool

pub record Scanner : Type 0 where
  -- Whether `clamav_host` is set, and whether the environment is one that may do without.
  pub is_configured : Bool
  pub is_lenient : Bool
  -- The answer to the chunks that are sent, each with its length in front.
  pub answer : List (List ℕ) → Option Answer

-- `_scan_malware`: what it raises.
unfoldable pub scan_malware : Scanner → List ℕ → Option AppError
scan_malware s bs =
    if not s.is_configured
    then (if s.is_lenient
        then none
        else some (retryable_error 503 Code.malware_scanner_unavailable))
    else elim (s.answer (chunks bs)) [
      | none ↦ some (retryable_error 503 Code.malware_scanner_unavailable)
      | some a ↦
          if a.has_found
          then some (app_error 422 Code.malware_detected)
          else if a.has_ok
          then none
          else some (retryable_error 503 Code.malware_scanner_error)
    ]
