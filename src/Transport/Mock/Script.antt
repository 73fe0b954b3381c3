-- ===== src/Transport/Mock/Script.antt =====
-- What is left of a script (crates/xeedee/src/transport/mock.rs), and the states in which the mock
-- stands at the next byte of it.
use xeedee.Base.{
  ℕ, zero, suc, ◌+◌, ◌-◌, ◌≤◌, ◌<◌, ◌≡◌, refl, sym, ap, ◌∙◌, subst, ◌⊎◌, inl, inr, Bool, true,
  false, none, some, List, [], ◌∷◌, ◌++◌, append_assoc, arith, Bytes, leb, leb→le, leb_false→lt,
  Bool-cases, length, take, drop, get_elem?, All, length-take, length-drop, drop_all,
}
use xeedee.Transport.Capture.{
  CaptureLog, CaptureEntry, Direction, server_to_client, client_to_server,
}
use xeedee.Transport.Mock.{
  MockTransport, from_log, advance_frame, consume, frame_view, current_frame,
}

-- A byte with its direction.
abbrev pub Item : Type 0
Item = Direction × ℕ

unfoldable pub tagged : Direction → Bytes → List Item
tagged d [] = []
tagged d (b ∷ s) = (d, b) ∷ tagged d s

-- What is played of a frame; a mock that takes any write plays only the server's side.
unfoldable pub items : Bool → CaptureEntry → List Item
unfolding tagged
items lax e = elim e.direction [
  | server_to_client ↦ tagged server_to_client e.data_bytes
  | client_to_server ↦ elim lax [ true ↦ [] | false ↦ tagged client_to_server e.data_bytes ]
]

unfoldable pub play : Bool → List CaptureEntry → List Item
unfolding items
play lax [] = []
play lax (e ∷ entries) = items lax e ++ play lax entries

unfoldable pub play_from : Bool → ℕ → List CaptureEntry → List Item
unfolding play items
play_from lax offset [] = []
play_from lax offset (e ∷ entries) = drop offset (items lax e) ++ play lax entries

-- What is left of the script.
unfoldable pub script : MockTransport → List Item
unfolding play_from
script m = play_from m.lax_writes m.offset (drop m.cursor m.frames)

-- The offset stands at a byte of the current frame, or there is none.
unfoldable pub Stands : ℕ → List CaptureEntry → Type 0
Stands offset [] = offset ≡ 0
Stands offset (e ∷ entries) = offset < length e.data_bytes

abbrev pub HasBytes : CaptureEntry → Type 0
HasBytes e = 0 < length e.data_bytes

pub record IsStanding (m : MockTransport) : Type 0 where
  pub frames_fill : All HasBytes m.frames
  pub stands : Stands m.offset (drop m.cursor m.frames)

tagged-take-drop :
    (d : Direction) (n : ℕ) (s : Bytes) → tagged d (take n s) ++ drop n (tagged d s) ≡ tagged d s
unfolding tagged
tagged-take-drop d zero s = refl
tagged-take-drop d (suc n) [] = refl
tagged-take-drop d (suc n) (b ∷ s) = ap (λ t. (d, b) ∷ t) (tagged-take-drop d n s)

pub tagged-drop : (d : Direction) (n : ℕ) (s : Bytes) → tagged d (drop n s) ≡ drop n (tagged d s)
unfolding tagged
tagged-drop d zero s = refl
tagged-drop d (suc n) [] = refl
tagged-drop d (suc n) (b ∷ s) = tagged-drop d n s

-- What is at the cursor.
pub get-drop :
    (n : ℕ) (l : List CaptureEntry)
    → ((get_elem? l n ≡ none) × (drop n l ≡ []))
      ⊎ ((e : CaptureEntry) × (rest : List CaptureEntry) × (get_elem? l n ≡ some e)
          × (drop n l ≡ e ∷ rest)
          × (drop (n + 1) l ≡ rest)
          × (n < length l))
get-drop zero [] = inl (refl, refl)
get-drop (suc n) [] = inl (refl, refl)
get-drop zero (e ∷ l) = inr (e, l, refl, refl, refl, omega arith)
get-drop (suc n) (e ∷ l) = elim (get-drop n l) [
  | inl (h, k) ↦ inl (h, k)
  | inr (f, rest, h, k, k', less) ↦
      inr (f, rest, h, k, subst (λ i. drop i (e ∷ l) ≡ rest) (suc_add n) k', omega (arith, less))
]
  where
    suc_add : (n : ℕ) → suc (n + 1) ≡ suc n + 1
    suc_add n = omega arith

All-drop : (n : ℕ) (l : List CaptureEntry) → All HasBytes l → All HasBytes (drop n l)
All-drop zero l h = h
All-drop (suc n) [] h = h
All-drop (suc n) (e ∷ l) (_, h) = All-drop n l h

pub zero-Stands : (l : List CaptureEntry) → All HasBytes l → Stands 0 l
unfolding Stands
zero-Stands [] _ = refl
zero-Stands (e ∷ l) (h, _) = h

-- A mock at its start is in such a state when no frame is empty.
pub from_log-IsStanding : (log : CaptureLog) → All HasBytes log.entries → IsStanding (from_log log)
from_log-IsStanding log h = record { frames_fill = h; stands = zero-Stands log.entries h }

-- A mock that moves to the next frame stands, whatever the offset was.
pub advance_frame-fills : (m : MockTransport) → All HasBytes m.frames → IsStanding (advance_frame m)
advance_frame-fills m h = record {
  frames_fill = h;
  stands = zero-Stands (drop (m.cursor + 1) m.frames) (All-drop (m.cursor + 1) m.frames h);
}

length-tagged : (d : Direction) (s : Bytes) → length (tagged d s) ≡ length s
unfolding tagged
length-tagged d [] = refl
length-tagged d (b ∷ s) = ap suc (length-tagged d s)

play_from-zero : (lax : Bool) (l : List CaptureEntry) → play_from lax 0 l ≡ play lax l
unfolding play_from
play_from-zero lax [] = refl
play_from-zero lax (e ∷ l) = refl

drop-drop : {A : Type 0} → (n k : ℕ) (s : List A) → drop n (drop k s) ≡ drop (k + n) s
drop-drop n zero s = ap (λ i. drop i s) (omega arith)
drop-drop n (suc k) [] = drop_all n [] (omega arith) ∙ sym (drop_all (suc k + n) [] (omega arith))
drop-drop n (suc k) (a ∷ s) = drop-drop n k s ∙ ap (λ i. drop i (a ∷ s)) (suc_add k n)
  where
    suc_add : (k n : ℕ) → suc (k + n) ≡ suc k + n
    suc_add k n = omega arith

drop-items :
    (d : Direction) (offset n : ℕ) (s : Bytes)
    → drop offset (tagged d s) ≡ tagged d (take n (drop offset s)) ++ drop (offset + n) (tagged d s)
drop-items d offset n s =
    sym (tagged-drop d offset s)
    ∙ sym (tagged-take-drop d n (drop offset s))
    ∙ ap (λ t. tagged d (take n (drop offset s)) ++ t)
        (ap (drop n) (tagged-drop d offset s) ∙ drop-drop n offset (tagged d s))

-- The mock stands in the frame `e`, which it plays.
module _ (m : MockTransport) (e : CaptureEntry) (rest : List CaptureEntry)
    (now : drop m.cursor m.frames ≡ e ∷ rest) (later : drop (m.cursor + 1) m.frames ≡ rest)
    (played : items m.lax_writes e ≡ tagged e.direction e.data_bytes) where
  script_here :
      (n : ℕ)
      → n ≡ m.offset
      → script m ≡ drop n (tagged e.direction e.data_bytes) ++ play m.lax_writes rest
  unfolding script play_from
  script_here n same = rw (now, played, same) refl

  -- What is left when `n` bytes have been played.
  script-consume :
      (n : ℕ)
      → m.offset + n ≤ length e.data_bytes
      → script (consume n (length e.data_bytes) m)
        ≡ drop (m.offset + n) (tagged e.direction e.data_bytes) ++ play m.lax_writes rest
  unfolding script consume play_from
  script-consume n inside = elim (Bool-cases (leb (length e.data_bytes) (m.offset + n))) [
    | inl all ↦
        rw (all, later, play_from-zero)
          (ap (λ t. t ++ play m.lax_writes rest)
            (sym (
              drop_all _ _ (
                subst (λ k. k ≤ m.offset + n) (sym (length-tagged e.direction e.data_bytes))
                  (leb→le _ _ all)))))
    | inr part ↦ rw (part, now, played) refl
  ]

  pub consume-IsStanding :
      (n : ℕ)
      → IsStanding m
      → m.offset + n ≤ length e.data_bytes
      → IsStanding (consume n (length e.data_bytes) m)
  unfolding consume Stands
  consume-IsStanding n h inside = elim (Bool-cases (leb (length e.data_bytes) (m.offset + n))) [
    | inl all ↦ rw (all) (advance_frame-fills m h.frames_fill)
    | inr part ↦ rw (part) record {
      frames_fill = h.frames_fill;
      stands = subst (Stands (m.offset + n)) (sym now) (leb_false→lt _ _ part);
    }
  ]

  -- The `n` bytes at the offset are the next of the script.
  pub script_step :
      (n : ℕ)
      → m.offset + n ≤ length e.data_bytes
      → script m
        ≡ tagged e.direction (take n (drop m.offset e.data_bytes))
          ++ script (consume n (length e.data_bytes) m)
  script_step n inside =
      script_here m.offset refl
      ∙ ap (λ t. t ++ play m.lax_writes rest) (drop-items e.direction m.offset n e.data_bytes)
      ∙ append_assoc (tagged e.direction (take n (drop m.offset e.data_bytes))) _ _
      ∙ ap (λ t. tagged e.direction (take n (drop m.offset e.data_bytes)) ++ t)
          (sym (script-consume n inside))

pub Direction-cases : (d : Direction) → (d ≡ server_to_client) ⊎ (d ≡ client_to_server)
Direction-cases server_to_client = inl refl
Direction-cases client_to_server = inr refl

pub items-server :
    (lax : Bool) (e : CaptureEntry)
    → e.direction ≡ server_to_client
    → items lax e ≡ tagged e.direction e.data_bytes
unfolding items
items-server lax e way = rw (way) refl

pub items-client :
    (lax : Bool) (e : CaptureEntry)
    → e.direction ≡ client_to_server
    → lax ≡ false
    → items lax e ≡ tagged e.direction e.data_bytes
unfolding items
items-client lax e way strict = rw (way, strict) refl

items-ignored : (e : CaptureEntry) → e.direction ≡ client_to_server → items true e ≡ []
unfolding items
items-ignored e way = rw (way) refl

-- The offset is inside the frame that the mock stands in.
pub stands_inside :
    (m : MockTransport) (e : CaptureEntry) (rest : List CaptureEntry)
    → drop m.cursor m.frames ≡ e ∷ rest
    → IsStanding m
    → m.offset < length e.data_bytes
unfolding Stands
stands_inside m e rest now h = subst (Stands m.offset) now h.stands

pub view_here :
    (m : MockTransport) (e : CaptureEntry)
    → current_frame m ≡ some e
    → frame_view m ≡ some (e.direction, length e.data_bytes - m.offset, length e.data_bytes)
unfolding frame_view
view_here m e got = rw (got) refl

pub view_end : (m : MockTransport) → current_frame m ≡ none → frame_view m ≡ none
unfolding frame_view
view_end m got = rw (got) refl

-- A frame that is passed over has nothing to play.
pub script-passed :
    (m : MockTransport) (e : CaptureEntry) (rest : List CaptureEntry)
    → drop m.cursor m.frames ≡ e ∷ rest
    → drop (m.cursor + 1) m.frames ≡ rest
    → e.direction ≡ client_to_server
    → m.lax_writes ≡ true
    → script (advance_frame m) ≡ script m
unfolding script play_from
script-passed m e rest now later client lax =
    rw (now, later, lax, items-ignored e client, play_from-zero)
      (ap (λ t. t ++ play true rest) (sym (drop_all m.offset [] (omega arith))))

pub script-over : (m : MockTransport) → drop m.cursor m.frames ≡ [] → script m ≡ []
unfolding script play_from
script-over m now = rw (now) refl

-- A mock that stands in a frame which it plays has a byte of it to play.
pub script-left :
    (m : MockTransport) (e : CaptureEntry) (rest : List CaptureEntry) (d : Direction)
    → drop m.cursor m.frames ≡ e ∷ rest
    → drop (m.cursor + 1) m.frames ≡ rest
    → items m.lax_writes e ≡ tagged e.direction e.data_bytes
    → e.direction ≡ d
    → IsStanding m
    → (left : Bytes) × (after : List Item) × (script m ≡ tagged d left ++ after) × (0 < length left)
script-left m e rest d now later played way h = (
  take n (drop m.offset e.data_bytes),
  script (consume n (length e.data_bytes) m),
  script_step m e rest now later played n (omega (arith, inside))
      ∙ ap
          (λ w.
            tagged w (take n (drop m.offset e.data_bytes))
            ++ script (consume n (length e.data_bytes) m))
          way,
  omega (
    arith,
    length-take n (drop m.offset e.data_bytes),
    length-drop m.offset e.data_bytes,
    inside,
  ),
)
  where
    n : ℕ
    n = length e.data_bytes - m.offset

    inside : m.offset < length e.data_bytes
    inside = stands_inside m e rest now h

-- A mock at its start has all of the log to play.
pub script-start : (log : CaptureLog) → script (from_log log) ≡ play false log.entries
unfolding script
script-start log = play_from-zero false log.entries
