-- ===== src/Stratum/Login/Extranonce.antt =====
-- The digits of a nonce that a pool fixes, and those that the program sends back.
use native.Mathlib.Nat.{
  pow-suc, mul-le-mul_right, mul_assoc, mul-one, add-mul, one-le-pow, le-div_iff_mul-le,
  div-lt_iff_lt-mul,
}
use mathlib.Core.List.{append-nil}
use fpga_ethash.CommonData.{dont_add, to_hex_number}
use fpga_ethash.CommonData.Hex.{digits_of, length-digits_of, digits_of-zero}
use fpga_ethash.CommonData.Hex.Digits.{
  digits_of-add, digits_of-IsHexDigit, IsHexDigit, to_hex_number-digits_of,
}
use fpga_ethash.Work.{Solution}
use fpga_ethash.Base.{
  ℕ, zero, suc, ◌+◌, ◌*◌, ◌/◌, ◌^◌, ◌≤◌, ◌<◌, ◌≡◌, refl, sym, ap, ap₂, ◌∙◌, List, [], ◌∷◌, ◌++◌,
  some, ok, err, Result, else_eq, length, length-append, replicate, take, drop, drop-all,
  take-append-drop, arith, ltb, All, All-append, u32,
}
use fpga_ethash.Stratum.{Client, Session, Text}
use fpga_ethash.Stratum.Effects.{
  M, Reply, value, ◌>>=◌, continue, change_session, put_session, lift, pure,
}
use fpga_ethash.Stratum.Numbers.{StdError, out_of_range, digits_value, stoull, resize, substr}
use fpga_ethash.Stratum.Numbers.Digits.{digits_value-digits_of, digits_value-nothing, stoull_digits}
use fpga_ethash.Stratum.Send.{own_digits}
use fpga_ethash.Stratum.Login.{process_extranonce}

pow_add : (k j : ℕ) → 16 ^ (k + j) ≡ 16 ^ k * 16 ^ j
pow_add k zero = ap (λ (t : ℕ). 16 ^ t) {x = k + 0} {y = k} (omega arith) ∙ sym (mul-one (16 ^ k))
pow_add k (suc j) =
    ap (λ (t : ℕ). 16 ^ t) {x = k + suc j} {y = suc (k + j)} (omega arith)
    ∙ pow-suc 16 (k + j)
    ∙ ap (λ (t : ℕ). t * 16) (pow_add k j)
    ∙ mul_assoc (16 ^ k) (16 ^ j) 16
    ∙ ap (λ (t : ℕ). 16 ^ k * t) (sym (pow-suc 16 j))

take_whole : (n : ℕ) (s : List ℕ) → length s ≤ n → take n s ≡ s
take_whole n s h =
    sym (append-nil (take n s))
    ∙ ap (λ (t : List ℕ). take n s ++ t) (sym (drop-all n s h))
    ∙ take-append-drop n s

drop-append : (s t : List ℕ) (k : ℕ) → k ≡ length s → drop k (s ++ t) ≡ t
drop-append [] t zero e = refl
drop-append [] t (suc k) e = absurd (omega arith)
drop-append (c ∷ s) t zero e = absurd (omega arith)
drop-append (c ∷ s) t (suc k) e = drop-append s t k (omega arith)

-- The pool's digits, filled up with zeros.
resize-digits :
    (k j x : ℕ) → k + j ≡ 16 → resize 16 b'0' (digits_of k x) ≡ digits_of k x ++ digits_of j 0
unfolding resize
resize-digits k j x e =
    ap₂ {C = List ℕ} (λ s t. s ++ t)
      (take_whole 16 (digits_of k x) (omega (arith, length-digits_of k x)))
      (ap (λ (n : ℕ). replicate n b'0') (omega (arith, length-digits_of k x))
        ∙ sym (digits_of-zero j 0 refl))

-- Sixteen digits as a number.
stoull-sixteen :
    (s : Text)
    → length s ≡ 16
    → All IsHexDigit s
    → digits_value 0 s < 2 ^ 64
    → stoull s ≡ ok (digits_value 0 s)
stoull-sixteen [] size all small = absurd (omega arith)
stoull-sixteen (a ∷ []) size all small = absurd (omega arith)
stoull-sixteen (a ∷ b ∷ s) size all small = stoull_digits a b s all.0 all.1.0 small

module _ (k j x : ℕ) (sixteen : k + j ≡ 16) (fits : x < 16 ^ k) where
  abbrev text : Text
  text = digits_of k x ++ digits_of j 0

  value_text : digits_value 0 text ≡ x * 16 ^ j
  value_text =
      digits_value-digits_of k x 0 (digits_of j 0) fits
      ∙ ap (digits_value (0 * 16 ^ k + x)) (sym (append-nil (digits_of j 0)))
      ∙ digits_value-digits_of j 0 (0 * 16 ^ k + x) [] (one-le-pow j 16 (omega arith))
      ∙ digits_value-nothing (omega arith)

  below : x * 16 ^ j + 16 ^ j ≤ 2 ^ 64
  below = omega (
    arith,
    mul-le-mul_right {m = x + 1} {n = 16 ^ k} (16 ^ j) (omega arith),
    add-mul x 1 (16 ^ j),
    pow_add k j,
    ap (λ (t : ℕ). 16 ^ t) sixteen,
  )

  reads : stoull (resize 16 b'0' (digits_of k x)) ≡ ok (x * 16 ^ j)
  reads =
      ap stoull (resize-digits k j x sixteen)
      ∙ stoull-sixteen text
          (omega (
            arith,
            length-append (digits_of k x) (digits_of j 0),
            length-digits_of k x,
            length-digits_of j 0,
          ))
          (All-append IsHexDigit (digits_of k x) (digits_of j 0) (digits_of-IsHexDigit k x)
            (digits_of-IsHexDigit j 0))
          (omega (arith, value_text, below, one-le-pow j 16 (omega arith)))
      ∙ ap ok value_text

  -- The quotient of a nonce of the pool's segment is the pool's number.
  quotient : (n : ℕ) → x * 16 ^ j ≤ n → n < x * 16 ^ j + 16 ^ j → n / 16 ^ j ≡ x
  quotient n low high = omega (
    arith,
    (le-div_iff_mul-le {x = x} {y = n} positive).1 low,
    (div-lt_iff_lt-mul {x = n} {y = x + 1} positive).1 (omega (arith, add-mul x 1 (16 ^ j))),
  )
    where
      positive : 0 < 16 ^ j
      positive = one-le-pow j 16 (omega arith)

change_some :
    (f : Session → Session) (c : Client) (s : Session)
    → c.session ≡ some s
    → change_session f c ≡ (value tt, record c { session = some (f s) })
unfolding ◌>>=◌
change_some f c s e = ap (λ o. put_session f o c) e

abbrev set_size : ℕ → Session → Session
set_size n s = record s { extra_nonce_size_bytes = n }

abbrev set_nonce : ℕ → Session → Session
set_nonce n s = record s { extra_nonce = n }

abbrev read_nonce : ℕ → ℕ → M (Unit {0})
read_nonce k x =
    lift (stoull (resize 16 b'0' (digits_of k x))) >>= λ nonce. change_session (set_nonce nonce)

substr_behind : (s t : Text) (k : ℕ) → k ≡ length s → substr k (s ++ t) ≡ ok t
unfolding substr
substr_behind s t k e =
    else_eq (ltb (length (s ++ t)) k) (err out_of_range) (ground (arith, length-append s t))
    ∙ ap ok (drop-append s t k e)

-- A pool that fixes the first `k` of a nonce's sixteen digits, as the digits of `x`: the session's
-- extra nonce becomes the first nonce with these digits and its size their number, nothing else
-- changes, and for every solution whose nonce begins with them and whose work has that size, the
-- digits that a submission carries are the rest of the nonce, so that the pool's digits with
-- them behind are the nonce's text.
pub process_extranonce-own_digits :
    (k j x : ℕ) (c : Client) (s : Session)
    → k + j ≡ 16
    → x < 16 ^ k
    → c.session ≡ some s
    → (process_extranonce (digits_of k x) c ≡ (
      value tt,
      record c {
        session = some (record s { extra_nonce_size_bytes = k; extra_nonce = x * 16 ^ j });
      },
    ))
      × ((solution : Solution)
          → solution.work.ex_size_bytes ≡ k
          → x * 16 ^ j ≤ solution.nonce
          → solution.nonce < x * 16 ^ j + 16 ^ j
          → (t : Text) × (own_digits solution ≡ pure t)
            × (digits_of k x ++ t ≡ to_hex_number solution.nonce dont_add 16))
unfolding process_extranonce own_digits ◌>>=◌
process_extranonce-own_digits k j x c s sixteen fits has = (
  ap (λ p. continue p.0 (λ _. read_nonce k x) p.1)
        (change_some (set_size (u32 (length (digits_of k x)))) c s has)
      ∙ ap
          (λ (r : Result StdError ℕ).
            (lift r >>= λ nonce. change_session (set_nonce nonce))
              (record c { session = some (set_size (u32 (length (digits_of k x))) s) }))
          (reads k j x sixteen fits)
      ∙ ap {B = Reply (Unit {0}) × Client}
          (λ (n : ℕ). (
            value tt,
            record c {
              session = some (record s { extra_nonce_size_bytes = n; extra_nonce = x * 16 ^ j });
            },
          ))
          {x = u32 (length (digits_of k x))} (omega (arith, length-digits_of k x)),
  λ solution size low high.
      let n : ℕ = solution.nonce in
      let written : to_hex_number n dont_add 16 ≡ digits_of k x ++ digits_of j n =
        to_hex_number-digits_of n (omega (arith, below k j x sixteen fits))
        ∙ ap (λ (t : ℕ). digits_of t n) (sym sixteen)
        ∙ digits_of-add k j n
        ∙ ap (λ (t : ℕ). digits_of k t ++ digits_of j n) (quotient k j x sixteen fits n low high) in
      (
        digits_of j n,
        ap lift (
            ap₂ substr size written
            ∙ substr_behind (digits_of k x) (digits_of j n) k (sym (length-digits_of k x))),
        sym written,
      ),
)
