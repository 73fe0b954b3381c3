-- ===== src/Dangerous/Sigscan/Scan.antt =====
-- What the byte scans find (crates/xeedee/src/commands/dangerous/sigscan.rs).
use xeedee.Base.{
  ℕ, zero, suc, ◌+◌, ◌-◌, ◌*◌, ◌≤◌, ◌<◌, ◌≡◌, refl, sym, ap, ◌∙◌, subst, inl, inr, true, false,
  Option, none, some, List, [], ◌∷◌, ◌++◌, append-nil, append_assoc, arith, Bytes, bytes_eq,
  bytes_eq_refl, bytes_eq_sound, leb, leb→le, leb_false→lt, Bool-cases, length, take, drop,
}
use xeedee.Dangerous.Sigscan.{
  matches, cannot_occur, find_loop, find_bytes, find_all_loop, find_bytes_all,
}

-- The needle stands at this offset.
abbrev pub Occurs : Bytes → Bytes → ℕ → Type 0
Occurs haystack needle i = take (length needle) (drop i haystack) ≡ needle

-- The scan's answer: the first aligned offset where the needle stands, or that there is none.
pub IsFirst : Bytes → Bytes → ℕ → ℕ → Option ℕ → Type 0
IsFirst haystack needle align last none =
    (j : ℕ) → j * align ≤ last → Occurs haystack needle (j * align) → ⊥
IsFirst haystack needle align last (some i) =
    (k : ℕ) × (i ≡ k * align)
    × (i ≤ last)
    × Occurs haystack needle i
    × ((j : ℕ) → j < k → Occurs haystack needle (j * align) → ⊥)

-- No aligned offset from number `from` on, before number `to`, has the needle.
abbrev pub NoneBetween : Bytes → Bytes → ℕ → ℕ → ℕ → Type 0
NoneBetween haystack needle align from to =
    (j : ℕ) → from ≤ j → j < to → Occurs haystack needle (j * align) → ⊥

-- Exactly the aligned offsets from number `from` on where the needle stands, in ascending order.
pub IsEvery : Bytes → Bytes → ℕ → ℕ → ℕ → List ℕ → Type 0
IsEvery haystack needle align last from [] =
    (j : ℕ) → from ≤ j → j * align ≤ last → Occurs haystack needle (j * align) → ⊥
IsEvery haystack needle align last from (i ∷ l) =
    (k : ℕ) × (from ≤ k)
    × (i ≡ k * align)
    × (i ≤ last)
    × Occurs haystack needle i
    × NoneBetween haystack needle align from k
    × IsEvery haystack needle align last (suc k) l

times_mono : (k j align : ℕ) → k ≤ j → k * align ≤ j * align
times_mono k j align h = grind arith

times_suc : (k align : ℕ) → suc k * align ≡ k * align + align
times_suc k align = grind arith

matches_refl :
    (haystack needle : Bytes) (i : ℕ) → Occurs haystack needle i → matches haystack needle i ≡ true
matches_refl haystack needle i h = ap (λ t. bytes_eq t needle) h ∙ bytes_eq_refl needle

abbrev pub first_of : List ℕ → Option ℕ
first_of [] = none
first_of (i ∷ l) = some i

module _ (haystack needle : Bytes) (align last : ℕ) (positive : 0 < align) where
  abbrev Misses : ℕ → Type 0
  Misses k = (j : ℕ) → j < k → Occurs haystack needle (j * align) → ⊥

  not_at :
      (k i j : ℕ)
      → i ≡ k * align
      → matches haystack needle i ≡ false
      → k ≤ j
      → j < suc k
      → Occurs haystack needle (j * align)
      → ⊥
  not_at k i j at not_here low high occurs =
      let same : j ≡ k = omega (arith, low, high) in
      let here : Occurs haystack needle i =
        subst (Occurs haystack needle) (ap (λ n. n * align) same ∙ sym at) occurs in
      cc (not_here, matches_refl haystack needle i here)

  Misses-more :
      (k i : ℕ) → i ≡ k * align → matches haystack needle i ≡ false → Misses k → Misses (suc k)
  Misses-more k i at not_here before j few occurs = elim (Bool-cases (leb k j)) [
    | inr earlier ↦ before j (leb_false→lt k j earlier) occurs
    | inl later ↦ not_at k i j at not_here (leb→le k j later) few occurs
  ]

  Misses-past :
      (k i : ℕ) → i ≡ k * align → last < i → Misses k → IsFirst haystack needle align last none
  unfolding IsFirst
  Misses-past k i at past before j inside occurs = elim (Bool-cases (leb k j)) [
    | inl later ↦ absurd (omega (arith, past, at, inside, times_mono k j align (leb→le k j later)))
    | inr earlier ↦ before j (leb_false→lt k j earlier) occurs
  ]

  loop-IsFirst :
      (fuel k i : ℕ)
      → i ≡ k * align
      → 0 < fuel
      → last + 1 < i + fuel
      → Misses k
      → (r : Option ℕ) × (find_loop fuel haystack needle align last i ≡ some r)
        × IsFirst haystack needle align last r
  unfolding find_loop IsFirst
  loop-IsFirst zero k i at more few before = absurd (omega (arith, more))
  loop-IsFirst (suc fuel) k i at more few before = elim (Bool-cases (leb i last)) [
    | inr past ↦
        (none, rw (past, find_loop) refl, Misses-past k i at (leb_false→lt i last past) before)
    | inl inside ↦ elim (Bool-cases (matches haystack needle i)) [
      | inl here ↦ (
        some i,
        rw (inside, find_loop) (rw (here, find_loop) refl),
        (k, at, leb→le i last inside, bytes_eq_sound _ _ here, before),
      )
      | inr not_here ↦
          let within : i ≤ last = leb→le i last inside in
          let (r, found, first) =
            loop-IsFirst fuel (suc k) (i + align) (omega (arith, at, times_suc k align))
              (omega arith) (omega arith) (Misses-more k i at not_here before) in
          (r, rw (inside, find_loop) (rw (not_here, find_loop) found), first)
    ]
  ]

  -- Nothing is missed at an offset where the needle does not stand.
  IsEvery-from :
      (k i : ℕ) (l : List ℕ)
      → i ≡ k * align
      → matches haystack needle i ≡ false
      → IsEvery haystack needle align last (suc k) l
      → IsEvery haystack needle align last k l
  unfolding IsEvery
  IsEvery-from k i [] at not_here later = λ j low inside occurs. elim (Bool-cases (leb (suc k) j)) [
    | inl above ↦ later j (leb→le (suc k) j above) inside occurs
    | inr here ↦ not_at k i j at not_here low (leb_false→lt (suc k) j here) occurs
  ]
  IsEvery-from k i (o ∷ l) at not_here (m, low, place, inside, occurs, gap, later) = (
    m,
    omega (arith, low),
    place,
    inside,
    occurs,
    λ j from to hit. elim (Bool-cases (leb (suc k) j)) [
      | inl above ↦ gap j (leb→le (suc k) j above) to hit
      | inr here ↦ not_at k i j at not_here from (leb_false→lt (suc k) j here) hit
    ],
    later,
  )

  IsEvery-past : (k i : ℕ) → i ≡ k * align → last < i → IsEvery haystack needle align last k []
  unfolding IsEvery
  IsEvery-past k i at past j later inside occurs =
      absurd (omega (arith, past, at, inside, times_mono k j align later))

  all-loop :
      (fuel k i : ℕ) (out : List ℕ)
      → i ≡ k * align
      → 0 < fuel
      → last + 1 < i + fuel
      → (l : List ℕ) × (find_all_loop fuel haystack needle align last i out ≡ some (out ++ l))
        × IsEvery haystack needle align last k l
        × (find_loop fuel haystack needle align last i ≡ some (first_of l))
  unfolding find_all_loop find_loop IsEvery
  all-loop zero k i out at more few = absurd (omega (arith, more))
  all-loop (suc fuel) k i out at more few = elim (Bool-cases (leb i last)) [
    | inr past ↦ (
      [],
      rw (past, find_all_loop) (ap some (sym (append-nil out))),
      IsEvery-past k i at (leb_false→lt i last past),
      rw (past, find_loop) refl,
    )
    | inl inside ↦
        let within : i ≤ last = leb→le i last inside in
        let next : i + align ≡ suc k * align = omega (arith, at, times_suc k align) in
        elim (Bool-cases (matches haystack needle i)) [
          | inl here ↦
              let (l, all_found, occur, first) =
                all-loop fuel (suc k) (i + align) (out ++ i ∷ []) next (omega arith)
                  (omega arith) in
              (
                i ∷ l,
                rw (inside, find_all_loop)
                    (rw (here) (all_found ∙ ap some (append_assoc out (i ∷ []) l))),
                (
                  k,
                  omega arith,
                  at,
                  within,
                  bytes_eq_sound _ _ here,
                  λ j low high. absurd (omega (arith, low, high)),
                  occur,
                ),
                rw (inside, find_loop) (rw (here, find_loop) refl),
              )
          | inr not_here ↦
              let (l, all_found, occur, first) =
                all-loop fuel (suc k) (i + align) out next (omega arith) (omega arith) in
              (
                l,
                rw (inside, find_all_loop) (rw (not_here) all_found),
                IsEvery-from k i l at not_here occur,
                rw (inside, find_loop) (rw (not_here, find_loop) first),
              )
        ]
  ]

-- A scan that steps by at least one byte ends: it gives the first aligned offset at which the
-- needle stands in the haystack, none before it fits, or it gives nothing and none fits. The scan
-- for all occurrences ends too, with exactly the aligned offsets at which the needle stands, in
-- ascending order, and the first of them is the one that the first scan gives. The needle is not empty
-- and no longer than the haystack.
pub find_bytes-IsFirst :
    (haystack needle : Bytes) (align : ℕ)
    → 0 < align
    → 0 < length needle
    → length needle ≤ length haystack
    → (r : Option ℕ) × (l : List ℕ) × (find_bytes haystack needle align ≡ some r)
      × IsFirst haystack needle align (length haystack - length needle) r
      × (find_bytes_all haystack needle align ≡ some l)
      × IsEvery haystack needle align (length haystack - length needle) 0 l
      × (r ≡ first_of l)
unfolding find_bytes find_bytes_all
find_bytes-IsFirst haystack needle align positive some_needle fits =
    let possible : cannot_occur haystack needle ≡ false = ground arith in
    let last : ℕ = length haystack - length needle in
    let (r, found, first) =
      loop-IsFirst haystack needle align last positive (suc (length haystack)) 0 0 (omega arith)
        (omega arith) (omega arith) (λ j few. absurd (omega (arith, few))) in
    let (l, all_found, occur, head) =
      all-loop haystack needle align last positive (suc (length haystack)) 0 0 [] (omega arith)
        (omega arith) (omega arith) in
    (
      r,
      l,
      rw (possible, find_bytes) found,
      first,
      rw (possible, find_bytes_all) all_found,
      occur,
      some_inj (sym found ∙ head),
    )
  where
    some_inj : {a b : Option ℕ} → some a ≡ some b → a ≡ b
    some_inj h = cc
