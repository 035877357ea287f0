-- ===== src/Session/Bytes/Laws.antt =====
-- packages/crypto/src/bytes.ts: what the comparison and the texts of byte strings tell.
use Prim.Native.Nat.{bit_or, bit_xor}
use tablefolk.Base.{
  ℕ, zero, suc, ◌/◌, ◌%◌, ◌<◌, ◌≡◌, refl, ap₂, ◌↔◌, Bool, true, false, ◌&&◌, List, [], ◌∷◌, arith,
  ltb, ◌==◌, length, if◌then◌else◌,
}
use tablefolk.Session.Bytes.{
  Bytes, IsBytes, difference, bytes_equal, bytes_to_hex, digit_code, text_equal,
}

all_below : ℕ → (ℕ → Bool) → Bool
all_below zero p = true
all_below (suc n) p = let rest = all_below n p in if p n then rest else false

all_below_sound : (n : ℕ) (p : ℕ → Bool) (x : ℕ) → all_below n p ≡ true → x < n → p x ≡ true
unfolding all_below
all_below_sound zero p x h l = absurd (omega arith)
all_below_sound (suc n) p x h l = ground (arith, all_below_sound n p x)

abbrev iff : Bool → Bool → Bool
iff true b = b
iff false b = if b then false else true

-- What holds of two bytes in a round of the loop.
abbrev round_holds : ℕ → ℕ → Bool
round_holds a b =
    ltb (bit_xor a b) 256
    && (ltb (bit_or a b) 256
        && (iff (bit_xor a b == 0) (a == b) && iff (bit_or a b == 0) (a == 0 && b == 0)))

rounds_checked : all_below 256 (λ a. all_below 256 (round_holds a)) ≡ true
unfolding all_below
rounds_checked = refl

round_lem : (a b : ℕ) → a < 256 → b < 256 → round_holds a b ≡ true
round_lem a b h k =
    all_below_sound 256 (round_holds a) b
      (all_below_sound 256 (λ a. all_below 256 (round_holds a)) a rounds_checked h) k

-- The parts of a checked round.
module _ (a b : ℕ) (ha : a < 256) (hb : b < 256) where
  xor-lt : bit_xor a b < 256
  xor-lt = ground (arith, round_lem a b ha hb)

  or-lt : bit_or a b < 256
  or-lt = ground (arith, round_lem a b ha hb)

  xor-zero : (bit_xor a b ≡ 0) ↔ (a ≡ b)
  xor-zero = (λ e. ground (arith, round_lem a b ha hb), λ e. ground (arith, round_lem a b ha hb))

  or-zero : (bit_or a b ≡ 0) ↔ ((a ≡ 0) × (b ≡ 0))
  or-zero = (
    λ e. (ground (arith, round_lem a b ha hb), ground (arith, round_lem a b ha hb)),
    λ e. ground (arith, round_lem a b ha hb),
  )

difference_sound :
    (d : ℕ) (left right : Bytes)
    → d < 256
    → IsBytes left
    → IsBytes right
    → length left ≡ length right
    → difference d left right ≡ 0
    → (d ≡ 0) × (left ≡ right)
unfolding difference
difference_sound d [] [] h l r e z = (z, refl)
difference_sound d [] (b ∷ right) h l r e z = absurd (omega arith)
difference_sound d (a ∷ left) [] h l r e z = absurd (omega arith)
difference_sound d (a ∷ left) (b ∷ right) h l r e z =
    let x = xor-lt a b l.0 r.0 in
    let (zero_now, same) =
      difference_sound (bit_or d (bit_xor a b)) left right (or-lt d (bit_xor a b) h x) l.1 r.1
        (omega arith) z in
    let (d_zero, x_zero) = (or-zero d (bit_xor a b) h x).0 zero_now in
    (d_zero, ap₂ ◌∷◌ ((xor-zero a b l.0 r.0).0 x_zero) same)

difference_self : (d : ℕ) (bytes : Bytes) → d ≡ 0 → IsBytes bytes → difference d bytes bytes ≡ 0
unfolding difference
difference_self d [] z h = z
difference_self d (a ∷ bytes) z h =
    let x : bit_xor a a ≡ 0 = (xor-zero a a h.0 h.0).1 refl in
    difference_self (bit_or d (bit_xor a a)) bytes
      (rw (z, x) ((or-zero 0 0 (omega arith) (omega arith)).1 (refl, refl))) h.1

-- The comparison that reads every byte accepts exactly the equal byte strings.
pub bytes_equal_iff :
    (left right : Bytes)
    → IsBytes left
    → IsBytes right
    → (bytes_equal left right ≡ true) ↔ (left ≡ right)
unfolding bytes_equal
bytes_equal_iff left right l r = (
  λ h. (difference_sound 0 left right (omega arith) l r (ground arith) (ground arith)).1,
  λ e. same e,
)
  where
    same : left ≡ right → bytes_equal left right ≡ true
    same e = rw (← e) (ground (arith, difference_self 0 left refl l))

pub text_equal→eq : (s t : List ℕ) → text_equal s t ≡ true → s ≡ t
unfolding text_equal
text_equal→eq [] [] h = refl
text_equal→eq (a ∷ s) (b ∷ t) h = ground (arith, text_equal→eq s t)
text_equal→eq [] (b ∷ t) h = cc
text_equal→eq (a ∷ s) [] h = cc

pub text_equal_self : (s : List ℕ) → text_equal s s ≡ true
unfolding text_equal
text_equal_self [] = refl
text_equal_self (a ∷ s) = ground (arith, text_equal_self s)

digit_code-inj : (a b : ℕ) → a < 16 → b < 16 → digit_code a ≡ digit_code b → a ≡ b
digit_code-inj a b h k e = ground arith

-- Two byte strings with one hexadecimal text are one, so a table that is keyed by the texts of
-- public keys is keyed by the keys.
pub bytes_to_hex-injective :
    (left right : Bytes)
    → IsBytes left
    → IsBytes right
    → bytes_to_hex left ≡ bytes_to_hex right
    → left ≡ right
unfolding bytes_to_hex
bytes_to_hex-injective [] [] l r e = refl
bytes_to_hex-injective [] (b ∷ right) l r e = cc
bytes_to_hex-injective (a ∷ left) [] l r e = cc
bytes_to_hex-injective (a ∷ left) (b ∷ right) l r e =
    let high : digit_code (a / 16) ≡ digit_code (b / 16) = head_eq e in
    let low : digit_code (a % 16) ≡ digit_code (b % 16) = head_eq (tail_eq e) in
    let high' = digit_code-inj (a / 16) (b / 16) (omega arith) (omega arith) high in
    let low' = digit_code-inj (a % 16) (b % 16) (omega arith) (omega arith) low in
    ap₂ ◌∷◌ (omega arith) (bytes_to_hex-injective left right l.1 r.1 (tail_eq (tail_eq e)))
  where
    head_eq : {x y : ℕ} {s t : List ℕ} → x ∷ s ≡ y ∷ t → x ≡ y
    head_eq h = cc

    tail_eq : {x y : ℕ} {s t : List ℕ} → x ∷ s ≡ y ∷ t → s ≡ t
    tail_eq h = cc
