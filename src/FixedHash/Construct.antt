-- ===== src/FixedHash/Construct.antt =====
-- What the constructors of a hash make of bytes and of text.
use mathlib.Core.List.{append_assoc, append-nil}
use fpga_ethash.Base.{
  ℕ, zero, suc, ◌+◌, ◌-◌, ◌≤◌, ◌<◌, ◌≡◌, refl, sym, ap, ap₂, ◌∙◌, List, [], ◌∷◌, ◌++◌, true, false,
  All, length, length-take, length-replicate, arith, IsU8, ◌==◌, if◌then◌else◌, take, drop, get_or,
  set, Bool-cases, inl, inr, ==_iff, ok, min,
}
use fpga_ethash.CommonData.{HexPrefix, throw}
use fpga_ethash.CommonData.Endian.{be_value}
use fpga_ethash.CommonData.Hex.RoundTrip.{from_hex-to_hex}
use fpga_ethash.FixedHash.{
  ConstructFromHash, align_left, align_right, fail_if_different, copy_aligned, copy_unequal,
  from_bytes, from_text, hex, zero_hash,
}

set-append : (xs ys : List ℕ) (y v i : ℕ) → i ≡ length xs → set (xs ++ y ∷ ys) i v ≡ xs ++ v ∷ ys
set-append [] ys y v zero e = refl
set-append [] ys y v (suc i) e = absurd (omega arith)
set-append (x ∷ xs) ys y v zero e = absurd (omega arith)
set-append (x ∷ xs) ys y v (suc i) e = ap (λ t. x ∷ t) (set-append xs ys y v i (omega arith))

get_or-cons-drop :
    (xs : List ℕ) (i : ℕ) → i < length xs → get_or xs i 0 ∷ drop (suc i) xs ≡ drop i xs
get_or-cons-drop [] i h = absurd (omega arith)
get_or-cons-drop (x ∷ xs) zero h = refl
get_or-cons-drop (x ∷ xs) (suc i) h = get_or-cons-drop xs i (omega arith)

take-suc : (xs : List ℕ) (i : ℕ) → i < length xs → take (suc i) xs ≡ take i xs ++ get_or xs i 0 ∷ []
take-suc [] i h = absurd (omega arith)
take-suc (x ∷ xs) zero h = refl
take-suc (x ∷ xs) (suc i) h = ap (λ t. x ∷ t) (take-suc xs i (omega arith))

zeros-snoc : (k : ℕ) (post : List ℕ) → 0 ∷ (zero_hash k ++ post) ≡ zero_hash k ++ 0 ∷ post
unfolding zero_hash
zeros-snoc zero post = refl
zeros-snoc (suc k) post = ap (λ (t : List ℕ). 0 ∷ t) (zeros-snoc k post)

length-zero_hash : (k : ℕ) → length (zero_hash k) ≡ k
unfolding zero_hash
length-zero_hash k = length-replicate k 0

module _ (n : ℕ) (source : List ℕ) where
  abbrev copy : ConstructFromHash → ℕ → ℕ → List ℕ → List ℕ
  copy t = copy_aligned t n (length source) source

  write_left :
      (i k : ℕ)
      → i < length source
      → set (take i source ++ 0 ∷ zero_hash k) i (get_or source i 0)
        ≡ take (i + 1) source ++ zero_hash k
  write_left i k h =
      set-append (take i source) (zero_hash k) 0 (get_or source i 0) i
        (omega (arith, length-take i source))
      ∙ sym (append_assoc (take i source) (get_or source i 0 ∷ []) (zero_hash k))
      ∙ ap (λ t. t ++ zero_hash k) (sym (take-suc source i h))
      ∙ ap (λ (j : ℕ). take j source ++ zero_hash k) {x = suc i} (omega arith)

  copy_left :
      (rounds i k : ℕ)
      → i + rounds ≤ length source
      → rounds ≤ k
      → copy align_left rounds i (take i source ++ zero_hash k)
        ≡ take (i + rounds) source ++ zero_hash (k - rounds)
  unfolding copy_aligned zero_hash
  copy_left zero i k h hk =
      ap₂ (λ (a b : ℕ). take a source ++ zero_hash b) (omega arith) (omega arith)
  copy_left (suc rounds) i zero h hk = absurd (omega arith)
  copy_left (suc rounds) i (suc k) h hk =
      ap (copy align_left rounds (i + 1)) (write_left i k (omega arith))
      ∙ copy_left rounds (i + 1) k (omega arith) (omega arith)
      ∙ ap₂ (λ (a b : ℕ). take a source ++ zero_hash b) (omega arith) (omega arith)

  write_right :
      (i k : ℕ)
      → i < length source
      → i + suc k ≡ n
      → set
          (0 ∷ (zero_hash k ++ drop (length source - i) source))
          (n - 1 - i)
          (get_or source (length source - 1 - i) 0)
        ≡ zero_hash k ++ drop (length source - (i + 1)) source
  write_right i k h e =
      ap (λ t. set t (n - 1 - i) v) (zeros-snoc k (drop (length source - i) source))
      ∙ set-append (zero_hash k) (drop (length source - i) source) 0 v (n - 1 - i)
          (omega (arith, length-zero_hash k))
      ∙ ap (λ (t : List ℕ). zero_hash k ++ t)
          (ap (λ (j : ℕ). v ∷ drop j source) {y = suc (length source - 1 - i)} (omega arith)
            ∙ get_or-cons-drop source (length source - 1 - i) (omega arith)
            ∙ ap (λ (j : ℕ). drop j source) (omega arith))
    where
      v : ℕ
      v = get_or source (length source - 1 - i) 0

  copy_right :
      (rounds i k : ℕ)
      → i + rounds ≤ length source
      → rounds ≤ k
      → i + k ≡ n
      → copy align_right rounds i (zero_hash k ++ drop (length source - i) source)
        ≡ zero_hash (k - rounds) ++ drop (length source - (i + rounds)) source
  unfolding copy_aligned zero_hash
  copy_right zero i k h hk e =
      ap₂ (λ (a b : ℕ). zero_hash a ++ drop b source) (omega arith) (omega arith)
  copy_right (suc rounds) i zero h hk e = absurd (omega arith)
  copy_right (suc rounds) i (suc k) h hk e =
      ap (copy align_right rounds (i + 1)) (write_right i k (omega arith) e)
      ∙ copy_right rounds (i + 1) k (omega arith) (omega arith) (omega arith)
      ∙ ap₂ (λ (a b : ℕ). zero_hash a ++ drop b source) (omega arith) (omega arith)

drop-all : (xs : List ℕ) (k : ℕ) → length xs ≤ k → drop k xs ≡ []
drop-all [] zero h = refl
drop-all [] (suc k) h = refl
drop-all (x ∷ xs) zero h = absurd (omega arith)
drop-all (x ∷ xs) (suc k) h = drop-all xs k (omega arith)

take-nil : (k : ℕ) → take {A = ℕ} k [] ≡ []
take-nil zero = refl
take-nil (suc k) = refl

take_capped : (xs : List ℕ) (m n : ℕ) → m ≡ min (length xs) n → take m xs ≡ take n xs
take_capped [] m n e = take-nil m ∙ sym (take-nil n)
take_capped (x ∷ xs) zero zero e = refl
take_capped (x ∷ xs) zero (suc n) e = absurd (omega arith)
take_capped (x ∷ xs) (suc m) zero e = absurd (omega arith)
take_capped (x ∷ xs) (suc m) (suc n) e = ap (λ t. x ∷ t) (take_capped xs m n (omega arith))

take-all : (xs : List ℕ) (k : ℕ) → length xs ≤ k → take k xs ≡ xs
take-all [] k h = take-nil k
take-all (x ∷ xs) zero h = absurd (omega arith)
take-all (x ∷ xs) (suc k) h = ap (λ t. x ∷ t) (take-all xs k (omega arith))

-- The bytes that a constructor should give: those of `b`, cut or filled with zeros on the side
-- away from the one that it aligns on, or zeros only where the sizes must agree and do not.
abbrev pub aligned : ℕ → List ℕ → ConstructFromHash → List ℕ
aligned n b align_left = take n b ++ zero_hash (n - length b)
aligned n b align_right = zero_hash (n - length b) ++ drop (length b - n) b
aligned n b fail_if_different = if length b == n then b else zero_hash n

copy_left_whole :
    (n : ℕ) (b : List ℕ)
    → copy_aligned align_left n (length b) b (min (length b) n) 0 (zero_hash n)
      ≡ aligned n b align_left
copy_left_whole n b =
    copy_left n b (min (length b) n) 0 n (omega arith) (omega arith)
    ∙ ap₂ {C = List ℕ} (λ t (a : ℕ). t ++ zero_hash a)
        (take_capped b (0 + min (length b) n) n (omega arith)) (omega arith)

copy_right_whole :
    (n : ℕ) (b : List ℕ)
    → copy_aligned align_right n (length b) b (min (length b) n) 0 (zero_hash n)
      ≡ aligned n b align_right
copy_right_whole n b =
    ap (copy_aligned align_right n (length b) b (min (length b) n) 0) start
    ∙ copy_right n b (min (length b) n) 0 n (omega arith) (omega arith) (omega arith)
    ∙ ap₂ (λ (a c : ℕ). zero_hash a ++ drop c b) (omega arith) (omega arith)
  where
    start : zero_hash n ≡ zero_hash n ++ drop (length b - 0) b
    start =
        sym (append-nil (zero_hash n))
        ∙ ap (λ (t : List ℕ). zero_hash n ++ t) (sym (drop-all b (length b - 0) (omega arith)))

aligned_same :
    (n : ℕ) (b : List ℕ) (t : ConstructFromHash) → length b ≡ n → take n b ≡ aligned n b t
unfolding zero_hash
aligned_same n b align_left e =
    sym (append-nil (take n b)) ∙ ap (λ (k : ℕ). take n b ++ zero_hash k) {x = 0} (omega arith)
aligned_same n b align_right e =
    take-all b n (omega arith)
    ∙ ap₂ (λ (k j : ℕ). zero_hash k ++ drop j b) {x = 0} {u = 0} (omega arith) (omega arith)
aligned_same n b fail_if_different e = rw (same) (take-all b n (omega arith))
  where
    same : (length b == n) ≡ true
    same = ground arith

copy_unequal-eq-aligned :
    (n : ℕ) (b : List ℕ) (t : ConstructFromHash)
    → (length b == n) ≡ false
    → copy_unequal n b t ≡ aligned n b t
unfolding copy_unequal
copy_unequal-eq-aligned n b align_left h = copy_left_whole n b
copy_unequal-eq-aligned n b align_right h = copy_right_whole n b
copy_unequal-eq-aligned n b fail_if_different h = rw h

-- `FixedHash(bytes, t)`, for bytes of any size.
pub from_bytes-eq-aligned :
    (n : ℕ) (b : List ℕ) (t : ConstructFromHash) → from_bytes n b t ≡ aligned n b t
unfolding from_bytes
from_bytes-eq-aligned n b t = elim (Bool-cases (length b == n)) [
  | inl same ↦ rw same (aligned_same n b t ((==_iff (length b) n).0 same))
  | inr other ↦ rw other (copy_unequal-eq-aligned n b t other)
]

be_value-zero_hash : (k : ℕ) (h : List ℕ) → be_value 0 (zero_hash k ++ h) ≡ be_value 0 h
unfolding zero_hash
be_value-zero_hash zero h = refl
be_value-zero_hash (suc k) h = be_value-zero_hash k h

-- Text of the right number of digits, as `hex` writes it, is read back as the same hash.
pub from_text-hex :
    (h : List ℕ) (prefix : HexPrefix) → All IsU8 h → from_text (length h) (hex h prefix) ≡ ok h
unfolding from_text hex
from_text-hex h prefix all = rw (from_hex-to_hex h prefix throw all) (
    ap ok (
      from_bytes-eq-aligned (length h) h fail_if_different
      ∙ sym (aligned_same (length h) h fail_if_different refl)
      ∙ take-all h (length h) (omega arith)))
