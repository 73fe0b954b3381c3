-- ===== src/Protocol/StatusCode/Classes.antt =====
-- How status codes are classified (crates/xeedee/src/protocol/status.rs).
use xeedee.Base.{ℕ, ◌≤◌, ◌<◌, ◌≡◌, refl, sym, subst, ◌⊎◌, inl, inr, none, some, arith, Option-cases}
use xeedee.Protocol.ErrorCode
use xeedee.Protocol.ErrorCode.{ErrorCode}
use xeedee.Protocol.StatusCode.{StatusCode, Classified, success, error, unknown, try_classify}
use xeedee.Protocol.SuccessCode
use xeedee.Protocol.SuccessCode.{SuccessCode}

pub from_raw-raw_success : (c : SuccessCode) → SuccessCode.from_raw (SuccessCode.raw c) ≡ some c
unfolding SuccessCode.from_raw SuccessCode.raw
from_raw-raw_success c = ground arith

pub raw-from_raw_success :
    (n : ℕ) (c : SuccessCode) → SuccessCode.from_raw n ≡ some c → SuccessCode.raw c ≡ n
unfolding SuccessCode.from_raw SuccessCode.raw
raw-from_raw_success n c h = ground arith

no_success : (n : ℕ) → SuccessCode.from_raw n ≡ none → (n < 200) ⊎ (206 < n)
unfolding SuccessCode.from_raw
no_success n h = ground arith

pub from_raw-raw_error : (e : ErrorCode) → ErrorCode.from_raw (ErrorCode.raw e) ≡ some e
unfolding ErrorCode.from_raw ErrorCode.raw
from_raw-raw_error e = ground arith

pub error_range : (n : ℕ) (e : ErrorCode) → ErrorCode.from_raw n ≡ some e → (400 ≤ n) × (n < 500)
unfolding ErrorCode.from_raw
error_range n e h = ground arith

raw-from_raw_error :
    (n : ℕ) (e : ErrorCode)
    → ErrorCode.from_raw n ≡ some e
    → (ErrorCode.raw e ≡ n) ⊎ ((e ≡ ErrorCode.other_error) × (420 ≤ n))
unfolding ErrorCode.from_raw ErrorCode.raw
raw-from_raw_error n e h = ground arith

no_error : (n : ℕ) → ErrorCode.from_raw n ≡ none → (n < 400) ⊎ (500 ≤ n)
unfolding ErrorCode.from_raw
no_error n h = ground arith

module _ (s : StatusCode) where
  pub classify_success :
      (c : SuccessCode) → SuccessCode.from_raw s.raw ≡ some c → try_classify s ≡ success c
  unfolding try_classify
  classify_success c h = rw (h, try_classify) refl

  classify_error :
      (e : ErrorCode)
      → SuccessCode.from_raw s.raw ≡ none
      → ErrorCode.from_raw s.raw ≡ some e
      → try_classify s ≡ error e
  unfolding try_classify
  classify_error e h k = rw (h, k, try_classify) refl

  classify_unknown :
      SuccessCode.from_raw s.raw ≡ none
      → ErrorCode.from_raw s.raw ≡ none
      → try_classify s ≡ unknown s
  unfolding try_classify
  classify_unknown h k = rw (h, k, try_classify) refl

success-none : (n : ℕ) → 206 < n → SuccessCode.from_raw n ≡ none
unfolding SuccessCode.from_raw
success-none n h = ground arith

-- A named code is classified as itself.
pub try_classify-error :
    (n : ℕ) (e : ErrorCode)
    → ErrorCode.from_raw n ≡ some e
    → try_classify (record { raw = n }) ≡ error e
try_classify-error n e h =
    classify_error (record { raw = n }) e (success-none n (omega (arith, (error_range n e h).0))) h

-- What the classes mean, on the number.
abbrev pub Means : ℕ → Classified → Type 0
Means n (success c) = SuccessCode.raw c ≡ n
Means n (error e) = (ErrorCode.raw e ≡ n) ⊎ ((e ≡ ErrorCode.other_error) × (420 ≤ n) × (n < 500))
Means n (unknown s) = (s.raw ≡ n) × ((n < 200) ⊎ ((206 < n) × (n < 400)) ⊎ (500 ≤ n))

-- Every status code has the class that its number says: a success code is one of the seven with
-- its own number, an error code is the named one with that number or, from 420 to 499, the
-- catch-all, and what is left unknown is the code itself, outside 200 to 206 and outside 400 to 499.
pub try_classify-Means : (s : StatusCode) → Means s.raw (try_classify s)
try_classify-Means s = elim (Option-cases (SuccessCode.from_raw s.raw)) [
  | inr (c, yes_success) ↦
      subst (Means s.raw) (sym (classify_success s c yes_success))
        (raw-from_raw_success s.raw c yes_success)
  | inl not_success ↦ elim (Option-cases (ErrorCode.from_raw s.raw)) [
    | inr (e, yes_error) ↦
        subst (Means s.raw) (sym (classify_error s e not_success yes_error))
          (ground (arith, raw-from_raw_error s.raw e yes_error, error_range s.raw e yes_error))
    | inl not_error ↦
        subst (Means s.raw) (sym (classify_unknown s not_success not_error))
          (refl, ground (arith, no_success s.raw not_success, no_error s.raw not_error))
  ]
]
