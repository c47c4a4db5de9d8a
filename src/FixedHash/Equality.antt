-- ===== src/FixedHash/Equality.antt =====
-- The two comparisons for equality: of arrays, and of the four 64-bit words of an `h256`.
use fpga_ethash.Base.{
  ℕ, zero, suc, ◌+◌, ◌*◌, ◌/◌, ◌%◌, ◌^◌, ◌<◌, ◌≡◌, refl, sym, ap, ap₂, subst, ◌∙◌, ◌↔◌, List, [],
  ◌∷◌, true, All, All-get_or, length, arith, IsU8, get_or, Bool-cases, inl, inr, ==_refl,
}
use fpga_ethash.FixedHash.{equal, equal_h256, u64_at}

equal_refl : (a : List ℕ) → equal a a ≡ true
unfolding equal
equal_refl [] = refl
equal_refl (x ∷ a) = rw (==_refl x) (equal_refl a)

equal_sound : (a b : List ℕ) → equal a b ≡ true → a ≡ b
unfolding equal
equal_sound [] [] h = refl
equal_sound [] (y ∷ b) h = cc
equal_sound (x ∷ a) [] h = cc
equal_sound (x ∷ a) (y ∷ b) h = ground (arith, equal_sound a b)

pub equal_iff : (a b : List ℕ) → (equal a b ≡ true) ↔ (a ≡ b)
equal_iff a b = (equal_sound a b, λ e. subst (λ x. equal a x ≡ true) e (equal_refl a))

-- Byte `r` of a little-endian word.
digit_of_word :
    (f : ℕ → ℕ) (r : ℕ)
    → ((i : ℕ) → f i < 256)
    → r < 8
    → f r
      ≡ (f 0
          + f 1 * 2 ^ 8
          + f 2 * 2 ^ 16
          + f 3 * 2 ^ 24
          + f 4 * 2 ^ 32
          + f 5 * 2 ^ 40
          + f 6 * 2 ^ 48
          + f 7 * 2 ^ 56)
        / 256 ^ r
        % 256
digit_of_word f zero b h = omega (arith, b 0)
digit_of_word f (suc zero) b h = omega (arith, b 0, b 1)
digit_of_word f (suc (suc zero)) b h = omega (arith, b 0, b 1, b 2)
digit_of_word f (suc (suc (suc zero))) b h = omega (arith, b 0, b 1, b 2, b 3)
digit_of_word f (suc (suc (suc (suc zero)))) b h = omega (arith, b 0, b 1, b 2, b 3, b 4)
digit_of_word f (suc (suc (suc (suc (suc zero))))) b h = omega (arith, b 0, b 1, b 2, b 3, b 4, b 5)
digit_of_word f (suc (suc (suc (suc (suc (suc zero)))))) b h =
    omega (arith, b 0, b 1, b 2, b 3, b 4, b 5, b 6)
digit_of_word f (suc (suc (suc (suc (suc (suc (suc zero))))))) b h =
    omega (arith, b 0, b 1, b 2, b 3, b 4, b 5, b 6, b 7)
digit_of_word f (suc (suc (suc (suc (suc (suc (suc (suc r)))))))) b h = absurd (omega arith)

byte_of_word :
    (h : List ℕ) (k r : ℕ)
    → All IsU8 h
    → r < 8
    → get_or h (8 * k + r) 0 ≡ u64_at h k / 256 ^ r % 256
unfolding u64_at
byte_of_word h k r all lt =
    digit_of_word (λ j. get_or h (8 * k + j) 0) r
      (λ i. All-get_or IsU8 h (8 * k + i) 0 (omega arith) all) lt
    ∙ ap
        (λ (p : ℕ).
          (get_or h p 0
            + get_or h (8 * k + 1) 0 * 2 ^ 8
            + get_or h (8 * k + 2) 0 * 2 ^ 16
            + get_or h (8 * k + 3) 0 * 2 ^ 24
            + get_or h (8 * k + 4) 0 * 2 ^ 32
            + get_or h (8 * k + 5) 0 * 2 ^ 40
            + get_or h (8 * k + 6) 0 * 2 ^ 48
            + get_or h (8 * k + 7) 0 * 2 ^ 56)
          / 256 ^ r
          % 256)
        (omega arith)

get_or_ext :
    (xs ys : List ℕ)
    → length xs ≡ length ys
    → ((i : ℕ) → i < length xs → get_or xs i 0 ≡ get_or ys i 0)
    → xs ≡ ys
get_or_ext [] [] e h = refl
get_or_ext [] (y ∷ ys) e h = absurd (omega arith)
get_or_ext (x ∷ xs) [] e h = absurd (omega arith)
get_or_ext (x ∷ xs) (y ∷ ys) e h =
    ap₂ ◌∷◌ (h 0 (omega arith)) (get_or_ext xs ys (omega arith) (λ i lt. h (suc i) (omega arith)))

module _ (a b : List ℕ) (size_a : length a ≡ 32) (size_b : length b ≡ 32) (all_a : All IsU8 a)
    (all_b : All IsU8 b) where
  words_decide : ((k : ℕ) → k < 4 → u64_at a k ≡ u64_at b k) → a ≡ b
  words_decide h = get_or_ext a b (size_a ∙ sym size_b) λ i lt.
      ap (λ (j : ℕ). get_or a j 0) (split i)
      ∙ byte_of_word a (i / 8) (i % 8) all_a (omega arith)
      ∙ ap (λ (w : ℕ). w / 256 ^ (i % 8) % 256) (h (i / 8) (omega arith))
      ∙ sym (byte_of_word b (i / 8) (i % 8) all_b (omega arith))
      ∙ ap (λ (j : ℕ). get_or b j 0) (sym (split i))
    where
      split : (i : ℕ) → i ≡ 8 * (i / 8) + i % 8
      split i = omega arith

  equal_h256_sound : equal_h256 a b ≡ true → a ≡ b
  unfolding equal_h256
  equal_h256_sound h = words_decide word
    where
      word : (k : ℕ) → k < 4 → u64_at a k ≡ u64_at b k
      word zero lt = ground arith
      word (suc zero) lt = ground arith
      word (suc (suc zero)) lt = ground arith
      word (suc (suc (suc zero))) lt = ground arith
      word (suc (suc (suc (suc k)))) lt = absurd (omega arith)

  equal_h256_complete : a ≡ b → equal_h256 a b ≡ true
  unfolding equal_h256
  equal_h256_complete e = rw (← e) (
      ground (
        arith,
        ==_refl (u64_at a 0),
        ==_refl (u64_at a 1),
        ==_refl (u64_at a 2),
        ==_refl (u64_at a 3),
      ))

  -- The comparison of two 256-bit hashes by words gives what the comparison by bytes gives.
  pub equal_h256-eq-equal : equal_h256 a b ≡ equal a b
  equal_h256-eq-equal = elim (Bool-cases (equal_h256 a b)) [
    | inl same ↦ same ∙ sym ((equal_iff a b).1 (equal_h256_sound same))
    | inr other ↦ elim (Bool-cases (equal a b)) [
      | inl same ↦ equal_h256_complete ((equal_iff a b).0 same) ∙ sym same
      | inr distinct ↦ other ∙ sym distinct
    ]
  ]
