-- ===== src/Protocol/Tokens/Items.antt =====
-- Written keys, values and flags are the tokens that are read (crates/xeedee/src/protocol/parse.rs).
use xeedee.Base.{
  Bool, false, ◌&&◌, ℕ, zero, suc, ◌≤◌, ◌<◌, ◌≡◌, refl, sym, ap, ◌∙◌, subst, true, false, none,
  some, List, [], ◌∷◌, ◌++◌, append_assoc, arith, Bytes, length, All, length-append,
}
use xeedee.Crates.{Crates, Documented, for_all_crates, plain, is_blank, plain_take_while}
use xeedee.Protocol.Tokens.{
  KvValue, KvTokens, is_key, kv_value, kv_key, kv_loop, kv_tokens, push_pair, push_flag, default,
}
use xeedee.Text.Ascii.{is_whitespace}
use xeedee.Protocol.Tokens.Pieces.{
  Stops, AllPass, taken_run, EndsToken, pair_key, flag_key, text, IsPlainValue, value_read,
}

-- What is written in a line behind its command.
pub data Item : Type 0 where
  pair_item : Bytes → KvValue → Item
  flag_item : Bytes → Item

abbrev pub render_item : Item → Bytes
render_item (pair_item k v) = k ++ b'=' ∷ text v
render_item (flag_item k) = k

abbrev pub IsItem : Item → Type 0
IsItem (pair_item k v) = AllPass is_key k × (1 ≤ length k) × IsPlainValue v
IsItem (flag_item k) = AllPass is_key k × (1 ≤ length k)

-- The tokens with one more item behind those that are there.
abbrev pub add_item : Item → KvTokens → KvTokens
add_item (pair_item k v) out = record { pairs = out.pairs ++ (k, v) ∷ []; flags = out.flags }
add_item (flag_item k) out = record { pairs = out.pairs; flags = out.flags ++ k ∷ [] }

unfoldable pub render_items : List Item → Bytes
render_items [] = []
render_items (item ∷ items) = 32 ∷ (render_item item ++ render_items items)

unfoldable pub add_items : List Item → KvTokens → KvTokens
add_items [] out = out
add_items (item ∷ items) out = add_items items (add_item item out)

items_end : (items : List Item) → EndsToken (render_items items)
unfolding render_items
items_end [] = tt
items_end (item ∷ items) = refl

key_not_blank : (c : ℕ) → is_key c ≡ true → is_blank c ≡ false
unfolding is_key is_whitespace
key_not_blank c h = ground (arith, h)

-- In front of an item stands a space, or nothing.
abbrev IsGap : Bytes → Type 0
IsGap [] = Unit
IsGap (c ∷ s) = (c ≡ 32) × (s ≡ [])

gap_read :
    (gap : Bytes) (c : ℕ) (s : Bytes)
    → IsGap gap
    → is_key c ≡ true
    → plain.space0 (gap ++ c ∷ s) ≡ some (gap, c ∷ s)
unfolding plain Stops
gap_read [] c s h key = taken_run 0 is_blank [] (c ∷ s) tt (key_not_blank c key) (omega arith)
gap_read (d ∷ gap) c s (is_space, none_else) key =
    taken_run 0 is_blank (d ∷ gap) (c ∷ s) (blank_at, subst (AllPass is_blank) (sym none_else) tt)
      (key_not_blank c key) (omega arith)
  where
    blank_at : is_blank d ≡ true
    blank_at = ap is_blank is_space

loop_pair :
    (fuel c : ℕ) (out : KvTokens) (s gap t k sign s2 s3 : Bytes) (v : KvValue)
    → plain.space0 s ≡ some (gap, c ∷ t)
    → kv_key plain (c ∷ t) ≡ some ((k, some sign), s2)
    → kv_value plain s2 ≡ some (v, s3)
    → kv_loop plain (suc fuel) out s ≡ kv_loop plain fuel (push_pair k v out) s3
unfolding kv_loop
loop_pair fuel c out s gap t k sign s2 s3 v h1 h2 h3 = rw (h1, kv_loop) (rw (h2) (rw (h3) refl))

loop_flag :
    (fuel c : ℕ) (out : KvTokens) (s gap t k s2 : Bytes)
    → plain.space0 s ≡ some (gap, c ∷ t)
    → kv_key plain (c ∷ t) ≡ some ((k, none), s2)
    → kv_loop plain (suc fuel) out s ≡ kv_loop plain fuel (push_flag k out) s2
unfolding kv_loop
loop_flag fuel c out s gap t k s2 h1 h2 = rw (h1, kv_loop) (rw (h2) refl)

item_read :
    (fuel : ℕ) (out : KvTokens) (gap : Bytes) (item : Item) (rest : Bytes)
    → IsGap gap
    → IsItem item
    → EndsToken rest
    → kv_loop plain (suc fuel) out (gap ++ (render_item item ++ rest))
      ≡ kv_loop plain fuel (add_item item out) rest
item_read fuel out gap (pair_item [] v) rest g (_, one, _) ends = absurd (omega (arith, one))
item_read fuel out gap (flag_item []) rest g (_, one) ends = absurd (omega (arith, one))
item_read fuel out gap (pair_item (c ∷ k) v) rest g ((hc, hk), one, hv) ends =
    ap (λ t. kv_loop plain (suc fuel) out (gap ++ c ∷ t)) (append_assoc k (b'=' ∷ text v) rest)
    ∙ loop_pair fuel c out (gap ++ c ∷ (k ++ b'=' ∷ (text v ++ rest))) gap
        (k ++ b'=' ∷ (text v ++ rest)) (c ∷ k) (b'=' ∷ []) (text v ++ rest) rest v
        (gap_read gap c (k ++ b'=' ∷ (text v ++ rest)) g hc)
        (pair_key (c ∷ k) (text v ++ rest) (hc, hk) one) (value_read v rest hv ends)
item_read fuel out gap (flag_item (c ∷ k)) rest g ((hc, hk), one) ends =
    loop_flag fuel c out (gap ++ c ∷ (k ++ rest)) gap (k ++ rest) (c ∷ k) rest
      (gap_read gap c (k ++ rest) g hc) (flag_key (c ∷ k) rest (hc, hk) one ends)

items_read :
    (fuel : ℕ) (out : KvTokens) (items : List Item)
    → length items < fuel
    → All IsItem items
    → kv_loop plain fuel out (render_items items) ≡ some (add_items items out, [])
unfolding render_items add_items
items_read zero out items few h = absurd (omega (arith, few))
items_read (suc fuel) out [] few h = unfold kv_loop plain plain_take_while in refl
items_read (suc fuel) out (item ∷ items) few (hi, h) =
    item_read fuel out (32 ∷ []) item (render_items items) (refl, refl) hi (items_end items)
    ∙ items_read fuel (add_item item out) items (omega (arith, few)) h

render-longer : (items : List Item) → length items ≤ length (render_items items)
unfolding render_items
render-longer [] = omega arith
render-longer (item ∷ items) =
    omega (arith, render-longer items, length-append (render_item item) (render_items items))

plain-render :
    (first : Item) (items : List Item)
    → IsItem first
    → All IsItem items
    → kv_tokens plain (render_item first ++ render_items items)
      ≡ some (add_items items (add_item first default), [])
unfolding kv_tokens
plain-render first items hf h =
    let longer : length items < length (render_item first ++ render_items items) = omega (
      arith,
      render-longer items,
      length-append (render_item first) (render_items items),
      one_more first hf,
    ) in
    item_read (length (render_item first ++ render_items items)) default [] first
      (render_items items) tt hf (items_end items)
    ∙ items_read (length (render_item first ++ render_items items)) (add_item first default) items
        longer h
  where
    one_more : (item : Item) → IsItem item → 1 ≤ length (render_item item)
    one_more (pair_item k v) (_, one, _) = omega (arith, one, length-append k (b'=' ∷ text v))
    one_more (flag_item k) (_, one) = one

-- A line of pairs and flags, one space in front of each but the first, is read as exactly these, in
-- order. A key has at least one byte, none an equals sign or white space; a bare value has no white
-- space and does not start with a quote, and a quoted value has no quote in it.
pub kv_tokens-render :
    (x : Crates)
    → Documented x
    → (first : Item) (items : List Item) → IsItem first
    → All IsItem items
    → kv_tokens x (render_item first ++ render_items items)
      ≡ some (add_items items (add_item first default), [])
kv_tokens-render =
    for_all_crates
      (λ x.
        (first : Item) (items : List Item)
        → IsItem first
        → All IsItem items
        → kv_tokens x (render_item first ++ render_items items)
          ≡ some (add_items items (add_item first default), []))
      plain-render

-- A test for keys that are given in full.
abbrev pub all_keys : Bytes → Bool
all_keys [] = true
all_keys (c ∷ k) = is_key c && all_keys k

abbrev pub key_ok : Bytes → Bool
key_ok [] = false
key_ok (c ∷ k) = is_key c && all_keys k

keys_pass : (k : Bytes) → all_keys k ≡ true → AllPass is_key k
keys_pass [] h = tt
keys_pass (c ∷ k) h = (ground (arith, h), keys_pass k (ground (arith, h)))

pub key_passes : (k : Bytes) → key_ok k ≡ true → AllPass is_key k × (1 ≤ length k)
key_passes [] h = ground (arith, h)
key_passes (c ∷ k) h = ((ground (arith, h), keys_pass k (ground (arith, h))), omega arith)
