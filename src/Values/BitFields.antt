-- ===== src/Values/BitFields.antt =====
-- The two loops of `readBytesAsValue` in server/src/Tests.h: which number the copied bytes stand for.
use utbot_cpp.Base.{
  ℕ, zero, suc, ◌+◌, ◌-◌, ◌*◌, ◌/◌, ◌%◌, ◌^◌, ◌≤◌, ◌<◌, List, [], ◌∷◌, ◌++◌, ◌≡◌, refl, sym, ap,
  ◌∙◌, subst, arith, length, true, false, drop, replicate, ok, set, ltb, ◌==◌, if◌then◌else◌,
  append_assoc, ◌>>=◌, Result, length-replicate, get_elem?-append, set-append, get_elem?-drop,
  drop-suc, length-append,
}
use utbot_cpp.Base.Bits.{low_mask, bit_and_mask, bit_or-shift}
use utbot_cpp.Values.Bytes.{
  little_endian, merge_low, mask_byte, bit_loop, ValueError, read_at, write_at,
}
use utbot_cpp.Values.LittleEndian.{IsBytes, below_8, mask_last, pow_byte, little_endian-zeros}
use native.Mathlib.Nat.{div-eq_of_lt, mod-eq_of_lt, mod-le, lt_of_le_of_lt}
use Prim.Native.Nat.{bit_or, bit_and, bit_or-bitwise}

-- `mask_last`, by the byte that comes first.
pub mask_last_step :
    (top r : ℕ) (rs : List ℕ)
    → mask_last top (r ∷ rs) ≡ mask_byte (length rs == 0) top r ∷ mask_last top rs
unfolding mask_byte
mask_last_step top r [] = rw (bit_and_mask top r) refl
mask_last_step top r (c ∷ rs) = ground arith

-- What one byte, split at bit `lo`, adds to the number.
split_value :
    (lo : ℕ) (b x cur : ℕ)
    → lo < 8
    → cur + b % 2 ^ lo * 2 ^ (8 - lo) + 256 * (b / 2 ^ lo + 2 ^ (8 - lo) * x)
      ≡ cur + 2 ^ (8 - lo) * (b + 256 * x)
split_value lo b x cur h =
    below_8
      (λ k.
        cur + b % 2 ^ k * 2 ^ (8 - k) + 256 * (b / 2 ^ k + 2 ^ (8 - k) * x)
        ≡ cur + 2 ^ (8 - k) * (b + 256 * x))
      (omega arith) (omega arith) (omega arith) (omega arith) (omega arith) (omega arith)
      (omega arith) (omega arith) lo h

pub split_bounds :
    (lo : ℕ) (b cur : ℕ)
    → lo < 8
    → b < 256
    → cur < 2 ^ (8 - lo)
    → (b / 2 ^ lo < 2 ^ (8 - lo)) × (cur + b % 2 ^ lo * 2 ^ (8 - lo) < 256)
split_bounds lo b cur h =
    below_8
      (λ k.
        b < 256
        → cur < 2 ^ (8 - k)
        → (b / 2 ^ k < 2 ^ (8 - k)) × (cur + b % 2 ^ k * 2 ^ (8 - k) < 256))
      (λ p q. (omega arith, omega arith)) (λ p q. (omega arith, omega arith))
      (λ p q. (omega arith, omega arith)) (λ p q. (omega arith, omega arith))
      (λ p q. (omega arith, omega arith)) (λ p q. (omega arith, omega arith))
      (λ p q. (omega arith, omega arith)) (λ p q. (omega arith, omega arith)) lo h

-- The low bits go above the bits that are there.
merged_byte :
    (lo b cur : ℕ)
    → lo < 8
    → b < 256
    → cur < 2 ^ (8 - lo)
    → bit_or cur (bit_and (low_mask lo) b * 2 ^ (8 - lo)) % 256 ≡ cur + b % 2 ^ lo * 2 ^ (8 - lo)
merged_byte lo b cur h hb hc =
    let above : cur / 2 ^ (8 - lo) ≡ 0 = div-eq_of_lt hc in
    let below : cur % 2 ^ (8 - lo) ≡ cur = mod-eq_of_lt hc in
    let empty : bit_or 0 (b % 2 ^ lo) ≡ b % 2 ^ lo = simp bit_or-bitwise refl in
    rw (bit_and_mask lo b, bit_or-shift (8 - lo) cur (b % 2 ^ lo), above, below, empty)
      (mod-eq_of_lt (split_bounds lo b cur h hb hc).1)

-- One round of the loop, behind the bytes `front` that are done.
bit_loop_step :
    (array : List ℕ) (lo top rest i : ℕ) (r : ℕ) (rs front xs : List ℕ) (cur : ℕ)
    → lo < 8
    → mask_byte (rest == 0) top r < 256
    → cur < 2 ^ (8 - lo)
    → drop i array ≡ r ∷ rs
    → let b = mask_byte (rest == 0) top r in
      let merged = front ++ (cur + b % 2 ^ lo * 2 ^ (8 - lo)) ∷ xs in
      bit_loop array lo top (suc rest) i (suc (length front)) (front ++ cur ∷ xs)
      ≡ bit_loop array lo top rest (i + 1) (suc (length front) + 1) (
          if ltb (suc (length front)) (length (front ++ cur ∷ xs))
          then set merged (suc (length front)) (b / 2 ^ lo)
          else merged)
unfolding bit_loop merge_low
bit_loop_step array lo top rest i r rs front xs cur h hb hc e =
    let inside : ltb (length front) (length (front ++ cur ∷ xs)) ≡ true =
      ground (arith, length-append front (cur ∷ xs)) in
    rw
      (
        get_elem?-drop i array r rs e,
        get_elem?-append front cur xs,
        inside,
        set-append front cur
            (bit_or cur (bit_and (low_mask lo) (mask_byte (rest == 0) top r) * 2 ^ (8 - lo)) % 256)
            xs,
        merged_byte lo (mask_byte (rest == 0) top r) cur h hb hc,
        read_at,
        write_at,
        ◌>>=◌,
      )
      refl

-- What the loop leaves: the bytes in front as they were, then bytes that stand for a number.
abbrev pub Leaves : Result ValueError (List ℕ) → List ℕ → ℕ → ℕ → Type 0
Leaves r front n v =
    (out : List ℕ) × (r ≡ ok (front ++ out))
    × (length out ≡ n)
    × IsBytes out
    × (little_endian out ≡ v)

pub zeros-IsBytes : (n : ℕ) → IsBytes (replicate n 0)
zeros-IsBytes zero = tt
zeros-IsBytes (suc n) = (omega arith, zeros-IsBytes n)

-- The byte in front of the ones that are left belongs to the number that they stand for.
pub Leaves-cons :
    (r : Result ValueError (List ℕ)) (front : List ℕ) (c n v : ℕ)
    → c < 256
    → Leaves r (front ++ c ∷ []) n v
    → Leaves r front (suc n) (c + 256 * v)
unfolding little_endian
Leaves-cons r front c n v h (out, e, l, bytes, value) = (
  c ∷ out,
  e ∙ ap ok (append_assoc front (c ∷ []) out),
  ap suc l,
  (h, bytes),
  ap (λ (x : ℕ). c + 256 * x) value,
)

cur_byte : (lo cur : ℕ) → lo < 8 → cur < 2 ^ (8 - lo) → cur < 256
cur_byte lo cur h =
    below_8 (λ k. cur < 2 ^ (8 - k) → cur < 256) (λ p. p) (λ p. omega arith) (λ p. omega arith)
      (λ p. omega arith) (λ p. omega arith) (λ p. omega arith) (λ p. omega arith) (λ p. omega arith)
      lo h

module _ (array : List ℕ) (lo top : ℕ) (lo_bound : lo < 8) where
  -- The last byte of the result: there is no further one, so its high bits must be zero.
  last_byte :
      (r : ℕ) (rest : List ℕ) (i : ℕ) (front : List ℕ) (cur : ℕ)
      → drop i array ≡ r ∷ rest
      → mask_byte true top r < 256
      → cur < 2 ^ (8 - lo)
      → cur + 2 ^ (8 - lo) * (mask_byte true top r + 256 * 0) < 256
      → Leaves
          (bit_loop array lo top 1 i (suc (length front)) (front ++ cur ∷ []))
          front
          1
          (cur + 2 ^ (8 - lo) * (mask_byte true top r + 256 * 0))
  unfolding little_endian bit_loop
  last_byte r rest i front cur e hb hc fits =
      let b = mask_byte true top r in
      let total = split_value lo b 0 cur lo_bound in
      let outside : ltb (suc (length front)) (length (front ++ cur ∷ [])) ≡ false =
        ground (arith, length-append front (cur ∷ [])) in
      (
        (cur + b % 2 ^ lo * 2 ^ (8 - lo)) ∷ [],
        bit_loop_step array lo top 0 i r rest front [] cur lo_bound hb hc e ∙ rw outside refl,
        refl,
        ((split_bounds lo b cur lo_bound hb hc).1, tt),
        omega (arith, total),
      )

  -- A byte in the middle: its low bits end the byte before, its high bits begin the next one.
  middle_byte :
      (r : ℕ) (rest : List ℕ) (left i : ℕ) (front : List ℕ) (cur z : ℕ)
      → drop i array ≡ r ∷ rest
      → mask_byte (left == 0) top r < 256
      → cur < 2 ^ (8 - lo)
      → let b = mask_byte (left == 0) top r in
        let c = cur + b % 2 ^ lo * 2 ^ (8 - lo) in
        bit_loop array lo top (suc left) i (suc (length front)) (front ++ cur ∷ 0 ∷ replicate z 0)
        ≡ bit_loop array lo top left
            (suc i)
            (suc (length (front ++ c ∷ [])))
            ((front ++ c ∷ []) ++ b / 2 ^ lo ∷ replicate z 0)
  middle_byte r rest left i front cur z e hb hc =
      let b = mask_byte (left == 0) top r in
      let c = cur + b % 2 ^ lo * 2 ^ (8 - lo) in
      let inside : ltb (suc (length front)) (length (front ++ cur ∷ 0 ∷ replicate z 0)) ≡ true =
        ground (arith, length-append front (cur ∷ 0 ∷ replicate z 0)) in
      let index : length (front ++ c ∷ []) ≡ suc (length front) =
        ground (arith, length-append front (c ∷ [])) in
      let written : set (front ++ c ∷ 0 ∷ replicate z 0) (suc (length front)) (b / 2 ^ lo)
          ≡ (front ++ c ∷ []) ++ b / 2 ^ lo ∷ replicate z 0 =
        subst
          (λ (k : ℕ).
            set (front ++ c ∷ 0 ∷ replicate z 0) k (b / 2 ^ lo)
            ≡ (front ++ c ∷ []) ++ b / 2 ^ lo ∷ replicate z 0)
          index
          (subst
            (λ (xs : List ℕ).
              set xs (length (front ++ c ∷ [])) (b / 2 ^ lo)
              ≡ (front ++ c ∷ []) ++ b / 2 ^ lo ∷ replicate z 0)
            (append_assoc front (c ∷ []) (0 ∷ replicate z 0))
            (set-append (front ++ c ∷ []) 0 (b / 2 ^ lo) (replicate z 0))) in
      let next : i + 1 ≡ suc i = omega arith in
      let place : suc (length front) + 1 ≡ suc (length (front ++ c ∷ [])) = omega arith in
      bit_loop_step array lo top left i r rest front (0 ∷ replicate z 0) cur lo_bound hb hc e
      ∙ rw (inside, written, next, place) refl

  -- From the second byte on: `cur` holds the high bits of the byte before.
  pub bit_loop_lem :
      (rs rest : List ℕ) (i : ℕ) (front : List ℕ) (cur z : ℕ)
      → drop i array ≡ rs ++ rest
      → IsBytes (mask_last top rs)
      → cur < 2 ^ (8 - lo)
      → length rs ≤ suc z
      → cur + 2 ^ (8 - lo) * little_endian (mask_last top rs) < 2 ^ (8 * suc z)
      → Leaves
          (bit_loop array lo top (length rs) i (suc (length front)) (front ++ cur ∷ replicate z 0))
          front
          (suc z)
          (cur + 2 ^ (8 - lo) * little_endian (mask_last top rs))
  bit_loop_lem [] rest i front cur z e bytes hc len fits =
      let nothing : little_endian (mask_last top []) ≡ 0 = unfold little_endian in refl in
      let cleared : little_endian (cur ∷ replicate z 0)
          ≡ cur + 256 * little_endian (replicate z 0) =
        unfold little_endian in refl in
      (
        cur ∷ replicate z 0,
        unfold bit_loop in refl,
        ap suc (length-replicate z 0),
        (cur_byte lo cur lo_bound hc, zeros-IsBytes z),
        rw (nothing, cleared) (omega (arith, little_endian-zeros z)),
      )
  bit_loop_lem (r ∷ []) rest i front cur zero e bytes hc len fits =
      let b = mask_byte true top r in
      let masked : mask_last top (r ∷ []) ≡ b ∷ [] = mask_last_step top r [] in
      let all : IsBytes (b ∷ []) = subst IsBytes masked bytes in
      let one : little_endian (b ∷ []) ≡ b + 256 * 0 = unfold little_endian in refl in
      rw (masked, one)
        (last_byte r rest i front cur e all.0 hc (
          omega (
            arith,
            ap little_endian masked ∙ one,
            ap (λ (t : ℕ). 2 ^ (8 - lo) * t) (ap little_endian masked ∙ one),
          )))
  bit_loop_lem (r ∷ c ∷ rs) rest i front cur zero e bytes hc len fits = absurd (omega arith)
  bit_loop_lem (r ∷ rs) rest i front cur (suc z) e bytes hc len fits =
      let b = mask_byte (length rs == 0) top r in
      let low = cur + b % 2 ^ lo * 2 ^ (8 - lo) in
      let masked : mask_last top (r ∷ rs) ≡ b ∷ mask_last top rs = mask_last_step top r rs in
      let all : IsBytes (b ∷ mask_last top rs) = subst IsBytes masked bytes in
      let number : little_endian (mask_last top (r ∷ rs))
          ≡ b + 256 * little_endian (mask_last top rs) =
        ap little_endian masked ∙ unfold little_endian in refl in
      let total = split_value lo b (little_endian (mask_last top rs)) cur lo_bound in
      let bounds = split_bounds lo b cur lo_bound all.0 hc in
      rw (number, sym total, middle_byte r (rs ++ rest) (length rs) i front cur z e all.0 hc)
        (Leaves-cons _ front low (suc z) _ bounds.1 (
          bit_loop_lem rs rest (suc i) (front ++ low ∷ []) (b / 2 ^ lo) z
            (drop-suc i array r (rs ++ rest) e) all.1 bounds.0 (omega arith)
            (omega
              (arith, total, fits, ap (λ (t : ℕ). 2 ^ (8 - lo) * t) number, pow_byte (suc z)))))

pub mask_last-IsBytes : (top : ℕ) (bs : List ℕ) → IsBytes bs → IsBytes (mask_last top bs)
mask_last-IsBytes top [] h = tt
mask_last-IsBytes top (b ∷ []) (hb, h) = (lt_of_le_of_lt (mod-le b (2 ^ top)) hb, tt)
mask_last-IsBytes top (b ∷ c ∷ bs) (hb, h) = (hb, mask_last-IsBytes top (c ∷ bs) h)
