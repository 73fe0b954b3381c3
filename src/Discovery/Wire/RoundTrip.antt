-- ===== src/Discovery/Wire/RoundTrip.antt =====
-- What a reply packet is read as (crates/xeedee/src/discovery/wire.rs).
use xeedee.Base.{
  ℕ, ◌<◌, ◌≡◌, refl, sym, ap, ◌∙◌, subst, ◌≢◌, ◌⊎◌, inl, inr, true, false, [], ◌∷◌, ◌++◌, arith,
  Bytes, Result, ok, err, ltb, ◌==◌, ltb→lt, ltb_false→le, Bool-cases, length, take, drop,
  length-take, take-append-drop,
}
use xeedee.Crates.{Crates, Documented, plain, for_all_crates}
use xeedee.Text.Utf8.{is_utf8}
use xeedee.Discovery.Wire
use xeedee.Discovery.Wire.{
  NapError, NapResponse, RequestOpcode, parser_response, parse_response, response_opcode,
  classify_parse_failure, encode_request, as_byte, is_control, max_name_len,
}

-- The packet a console sends, with what a larger datagram has behind it.
abbrev pub reply : Bytes → Bytes → Bytes
reply name behind = response_opcode ∷ length name ∷ (name ++ behind)

-- What each answer says of the packet it was given for.
pub Verdict : Bytes → Result NapError NapResponse → Type 0
Verdict packet (ok r) = (behind : Bytes) × (packet ≡ reply r.name behind) × (is_utf8 r.name ≡ true)
Verdict packet (err Wire.empty_packet) = packet ≡ []
Verdict packet (err (Wire.unexpected_opcode expected got)) =
    (rest : Bytes) × (packet ≡ got ∷ rest) × (expected ≡ response_opcode) × (got ≢ response_opcode)
Verdict packet (err (Wire.truncated expected got)) =
    (packet ≡ response_opcode ∷ [])
    ⊎ ((raw : Bytes) × (packet ≡ response_opcode ∷ expected ∷ raw)
        × (got ≡ length raw)
        × (got < expected))
Verdict packet (err Wire.non_utf8_name) =
    (name : Bytes) × (behind : Bytes) × (packet ≡ reply name behind) × (is_utf8 name ≡ false)
Verdict packet (err Wire.name_too_long) = ⊥
Verdict packet (err Wire.name_contains_control_char) = ⊥

module _ (n : ℕ) (raw : Bytes) where
  short_name :
      ltb (length raw) n ≡ true
      → parse_response plain (response_opcode ∷ n ∷ raw) ≡ err (Wire.truncated n (length raw))
  unfolding parse_response parser_response plain classify_parse_failure
  short_name h = ground arith

  whole_name :
      ltb (length raw) n ≡ false
      → is_utf8 (take n raw) ≡ true
      → parse_response plain (response_opcode ∷ n ∷ raw) ≡ ok (record { name = take n raw })
  unfolding parse_response parser_response plain
  whole_name h k = ground arith

  bad_name :
      ltb (length raw) n ≡ false
      → is_utf8 (take n raw) ≡ false
      → parse_response plain (response_opcode ∷ n ∷ raw) ≡ err Wire.non_utf8_name
  unfolding parse_response parser_response plain classify_parse_failure
  bad_name h k = ground arith

  -- A packet with enough behind its head is a reply.
  cut_reply :
      ltb (length raw) n ≡ false → response_opcode ∷ n ∷ raw ≡ reply (take n raw) (drop n raw)
  cut_reply h =
      let enough : n ≡ length (take n raw) =
        omega (arith, length-take n raw, ltb_false→le (length raw) n h) in
      let whole : raw ≡ take n raw ++ drop n raw = sym (take-append-drop n raw) in
      ap (λ k. response_opcode ∷ k ∷ raw) enough
      ∙ ap (λ t. response_opcode ∷ length (take n raw) ∷ t) whole

  named-Verdict :
      Verdict (response_opcode ∷ n ∷ raw) (parse_response plain (response_opcode ∷ n ∷ raw))
  unfolding Verdict
  named-Verdict = elim (Bool-cases (ltb (length raw) n)) [
    | inl short ↦
        subst (Verdict (response_opcode ∷ n ∷ raw)) (sym (short_name short))
          (inr (raw, refl, refl, ltb→lt (length raw) n short))
    | inr full ↦ elim (Bool-cases (is_utf8 (take n raw))) [
      | inl good ↦
          subst (Verdict (response_opcode ∷ n ∷ raw)) (sym (whole_name full good))
            (drop n raw, cut_reply full, good)
      | inr bad ↦
          subst (Verdict (response_opcode ∷ n ∷ raw)) (sym (bad_name full bad))
            (take n raw, drop n raw, cut_reply full, bad)
    ]
  ]

other_opcode :
    (op : ℕ) (s : Bytes)
    → (op == response_opcode) ≡ false
    → parse_response plain (op ∷ s) ≡ err (Wire.unexpected_opcode response_opcode op)
unfolding parse_response parser_response plain classify_parse_failure
other_opcode op [] h = ground arith
other_opcode op (n ∷ raw) h = ground arith

no_name : parse_response plain (response_opcode ∷ []) ≡ err (Wire.truncated 0 0)
unfolding parse_response parser_response plain classify_parse_failure
no_name = refl

plain-Verdict : (packet : Bytes) → Verdict packet (parse_response plain packet)
unfolding parse_response parser_response plain classify_parse_failure Verdict
plain-Verdict [] = refl
plain-Verdict (op ∷ s) = elim (Bool-cases (op == response_opcode)) [
  | inl same ↦
      let at : op ≡ response_opcode = ground arith in
      subst (λ o. Verdict (o ∷ s) (parse_response plain (o ∷ s))) (sym at) (after_opcode s)
  | inr other ↦
      subst (Verdict (op ∷ s)) (sym (other_opcode op s other))
        (s, refl, refl, λ (e : op ≡ response_opcode). ground arith)
]
  where
    after_opcode :
        (t : Bytes) → Verdict (response_opcode ∷ t) (parse_response plain (response_opcode ∷ t))
    after_opcode [] = subst (Verdict (response_opcode ∷ [])) (sym no_name) (inl refl)
    after_opcode (n ∷ raw) = named-Verdict n raw

-- Every answer to a datagram is true of it: a name is accepted only from the reply that carries
-- it, with bytes possibly behind it, and each error names what the datagram lacks.
pub parse_response-Verdict :
    (x : Crates) (d : Documented x) (packet : Bytes) → Verdict packet (parse_response x packet)
parse_response-Verdict x d packet =
    for_all_crates (λ y. Verdict packet (parse_response y packet)) (plain-Verdict packet) x d
