-- ===== src/FixedHash/Value.antt =====
-- A hash as a number: the order, the increment and the conversions are those of the number.
use native.Mathlib.Nat.{pow-suc, mod-eq_of_lt}
use fpga_ethash.Base.{
  ℕ, zero, suc, ◌+◌, ◌-◌, ◌*◌, ◌%◌, ◌^◌, ◌≤◌, ◌<◌, ◌≡◌, refl, sym, ap, ◌∙◌, List, [], ◌∷◌, true,
  false, All, All-set, All-get_or, length, length-set, arith, IsU8, u8, ltb, ◌==◌, if◌then◌else◌,
  get_or, set, Bool-cases, inl, inr, ==_iff, ◌≢◌,
}
use fpga_ethash.CommonData.Endian.{be_value, be_value-lt}
use fpga_ethash.FixedHash.{less, increment_loop, increment}

pow-suc_byte : (k : ℕ) → 256 ^ suc k ≡ 256 * 256 ^ k
pow-suc_byte k = omega (arith, pow-suc 256 k)

be_value-acc : (acc : ℕ) (h : List ℕ) → be_value acc h ≡ acc * 256 ^ length h + be_value 0 h
be_value-acc acc [] = omega arith
be_value-acc acc (b ∷ rest) =
    be_value-acc (acc * 256 + b) rest
    ∙ omega (
      arith,
      be_value-acc (0 * 256 + b) rest,
      ap (λ (t : ℕ). acc * t) (pow-suc_byte (length rest)),
    )

pub be_value-cons : (b : ℕ) (h : List ℕ) → be_value 0 (b ∷ h) ≡ b * 256 ^ length h + be_value 0 h
be_value-cons b h = be_value-acc (0 * 256 + b) h ∙ omega arith

less_high : (a b p x y : ℕ) → a < b → x < p → a * p + x < b * p + y
less_high a b p x y h hx = grind arith

-- The first byte that differs decides.
less_step :
    (a b p x y : ℕ)
    → x < p
    → y < p
    → (if ltb a b then true else if ltb b a then false else ltb x y) ≡ ltb (a * p + x) (b * p + y)
less_step a b p x y hx hy = ground (arith, less_high a b p x y, less_high b a p y x, same)
  where
    same : a ≡ b → a * p ≡ b * p
    same e = ap (λ (t : ℕ). t * p) e

-- `operator<` compares the numbers that two hashes of one size stand for.
pub less-eq-ltb :
    (a b : List ℕ)
    → length a ≡ length b
    → All IsU8 a
    → All IsU8 b
    → less a b ≡ ltb (be_value 0 a) (be_value 0 b)
unfolding less
less-eq-ltb [] [] e ha hb = refl
less-eq-ltb [] (y ∷ b) e ha hb = absurd (omega arith)
less-eq-ltb (x ∷ a) [] e ha hb = absurd (omega arith)
less-eq-ltb (x ∷ a) (y ∷ b) e ha hb =
    rw (be_value-cons x a, be_value-cons y b, ← same_size, less-eq-ltb a b same_size ha.1 hb.1)
      (less_step x y (256 ^ length a) (be_value 0 a) (be_value 0 b) (be_value-lt a ha.1)
        (rw same_size (be_value-lt b hb.1)))
  where
    same_size : length a ≡ length b
    same_size = omega arith

-- A write of byte `i` changes the number by the difference at that byte's weight `w`.
be_value-set :
    (h : List ℕ) (i b w : ℕ)
    → i < length h
    → w ≡ 256 ^ (length h - suc i)
    → be_value 0 (set h i b) + get_or h i 0 * w ≡ be_value 0 h + b * w
be_value-set [] i b w lt e = absurd (omega arith)
be_value-set (x ∷ h) zero b w lt e =
    rw (be_value-cons b h, be_value-cons x h)
      (omega (arith, ap (λ (t : ℕ). b * t) top, ap (λ (t : ℕ). x * t) top))
  where
    top : w ≡ 256 ^ length h
    top = e ∙ ap (λ (t : ℕ). 256 ^ t) (omega arith)
be_value-set (x ∷ h) (suc i) b w lt e =
    rw (be_value-cons x (set h i b), be_value-cons x h, length-set h i b)
      (omega (arith, be_value-set h i b w (omega arith) lower))
  where
    lower : w ≡ 256 ^ (length h - suc i)
    lower = e ∙ ap (λ (t : ℕ). 256 ^ t) (omega arith)

weight_above :
    (h : List ℕ) (i : ℕ) → suc i ≤ length h → 256 ^ (length h - i) ≡ 256 * 256 ^ (length h - suc i)
weight_above h i le = ap (λ (t : ℕ). 256 ^ t) split ∙ pow-suc_byte (length h - suc i)
  where
    split : length h - i ≡ suc (length h - suc i)
    split = omega arith

mod_wrap : (v p : ℕ) → v < p → v ≡ (v + p) % p
mod_wrap v p h = grind arith

module _ (i : ℕ) (h : List ℕ) (le : suc i ≤ length h) (all : All IsU8 h) where
  next_byte : ℕ
  next_byte = u8 (get_or h i 0 + 1)

  byte-lt : get_or h i 0 < 256
  byte-lt = All-get_or IsU8 h i 0 (omega arith) all

  next-IsU8 : All IsU8 (set h i next_byte)
  unfolding next_byte
  next-IsU8 = All-set IsU8 h i next_byte (omega arith) all

  moved :
      be_value 0 (set h i next_byte) + get_or h i 0 * 256 ^ (length h - suc i)
      ≡ be_value 0 h + next_byte * 256 ^ (length h - suc i)
  moved = be_value-set h i next_byte _ (omega arith) refl

  -- Where the byte becomes zero the carry is the weight of the byte before it.
  carry :
      next_byte ≡ 0
      → be_value 0 (set h i next_byte) + 256 ^ (length h - i)
        ≡ be_value 0 h + 256 ^ (length h - suc i)
  unfolding next_byte
  carry wraps = omega (
    arith,
    moved,
    weight_above h i le,
    byte-lt,
    ap (λ (t : ℕ). t * 256 ^ (length h - suc i)) wraps,
    ap (λ (t : ℕ). t * 256 ^ (length h - suc i)) at_top,
  )
    where
      at_top : get_or h i 0 ≡ 255
      at_top = omega (arith, byte-lt)

  no_carry :
      next_byte ≢ 0
      → be_value 0 (set h i next_byte) ≡ (be_value 0 h + 256 ^ (length h - suc i)) % 256 ^ length h
  unfolding next_byte
  no_carry stops =
      grown
      ∙ sym (
          mod-eq_of_lt
            (rw (← grown, ← length-set h i next_byte) (be_value-lt (set h i next_byte) next-IsU8)))
    where
      plain : next_byte ≡ get_or h i 0 + 1
      plain = omega (arith, byte-lt)

      grown : be_value 0 (set h i next_byte) ≡ be_value 0 h + 256 ^ (length h - suc i)
      grown = omega (arith, moved, ap (λ (t : ℕ). t * 256 ^ (length h - suc i)) plain)

increment_loop-value :
    (i : ℕ) (h : List ℕ)
    → i ≤ length h
    → All IsU8 h
    → be_value 0 (increment_loop i h) ≡ (be_value 0 h + 256 ^ (length h - i)) % 256 ^ length h
unfolding increment_loop next_byte
increment_loop-value zero h le all =
    mod_wrap (be_value 0 h) (256 ^ length h) (be_value-lt h all)
    ∙ ap (λ (t : ℕ). (be_value 0 h + 256 ^ t) % 256 ^ length h) (omega arith)
increment_loop-value (suc i) h le all = elim (Bool-cases (u8 (get_or h i 0 + 1) == 0)) [
  | inl wraps ↦ rw wraps (
      increment_loop-value i (set h i (u8 (get_or h i 0 + 1))) (rw length-set (omega arith))
        (next-IsU8 i h le all)
      ∙ rw length-set
          (ap (λ (t : ℕ). t % 256 ^ length h) (carry i h le all ((==_iff _ 0).0 wraps))))
  | inr stops ↦ rw stops (no_carry i h le all (ground arith))
]

-- `operator++` adds one to the number that a hash stands for, modulo the number of hashes.
pub increment-value :
    (h : List ℕ) → All IsU8 h → be_value 0 (increment h) ≡ (be_value 0 h + 1) % 256 ^ length h
unfolding increment
increment-value h all =
    increment_loop-value (length h) h (omega arith) all
    ∙ ap (λ (t : ℕ). (be_value 0 h + 256 ^ t) % 256 ^ length h)
        (let e : length h - length h ≡ 0 = omega arith in e)
