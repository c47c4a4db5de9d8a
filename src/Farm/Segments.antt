-- ===== src/Farm/Segments.antt =====
-- `Farm::setWork`: the nonces that a pool leaves free are divided among the miners.
use fpga_ethash.Work.{WorkPackage}
use fpga_ethash.Miner.{Miner, paused, set_work, set_epoch}
use fpga_ethash.Miner.Pausing.{set_work_free, set_epoch-paused}
use fpga_ethash.Farm.{
  Farm, width_from, segment_width, hand_out, last_start, switch_epoch, farm_set_work,
}
use native.Mathlib.Nat.{mul-le-mul_right, one-le-pow}
use fpga_ethash.Base.{
  ℕ, zero, suc, ◌+◌, ◌-◌, ◌*◌, ◌^◌, ◌≤◌, ◌<◌, ◌≡◌, ◌⊎◌, inl, inr, refl, sym, ap, ◌∙◌, inl, inr,
  List, [], ◌∷◌, map, length-map, Bool, true, false, ◌&&◌, ◌==◌, ltb, leb, leb→le, le→leb, ==_iff,
  none-ne-some, some-injective, false≢true, ap₂, if◌then◌else◌, Option, none, some, bind_eq,
  if_either, else_eq, length, get_elem?, u64, shl64, lt→ltb, ◌=ℤ◌, arith, Bool-cases,
}

width_from-fits : (w n size : ℕ) → n ≤ size → n * 2 ^ width_from w n size ≤ size
unfolding width_from
width_from-fits zero n size h = omega arith
width_from-fits (suc w) n size h = elim (Bool-cases (leb (n * 2 ^ suc w) size)) [
  | inl fits ↦ rw fits (leb→le _ _ fits)
  | inr too_wide ↦ rw too_wide (width_from-fits w n size h)
]

width_from-le : (w n size : ℕ) → width_from w n size ≤ w
unfolding width_from
width_from-le zero n size = omega arith
width_from-le (suc w) n size = ground (arith, width_from-le w n size)

width_from-greatest : (w n size v : ℕ) → v ≤ w → n * 2 ^ v ≤ size → v ≤ width_from w n size
unfolding width_from
width_from-greatest zero n size v le fits = omega arith
width_from-greatest (suc w) n size v le fits = elim (Bool-cases (leb (n * 2 ^ suc w) size)) [
  | inl fits' ↦ rw fits' (omega arith)
  | inr too_wide ↦ elim (Bool-cases (v == suc w)) [
    | inl same ↦ absurd (too_much ((==_iff v (suc w)).0 same) too_wide)
    | inr other ↦ rw too_wide (width_from-greatest w n size v (ground (arith, other)) fits)
  ]
]
  where
    too_much : v ≡ suc w → leb (n * 2 ^ suc w) size ≡ false → ⊥
    too_much same wide = false≢true (sym wide ∙ le→leb (n * 2 ^ suc w) size (rw same at fits))

get_elem?-hand_out :
    (w : WorkPackage) (start width j i : ℕ) (ms : List Miner) (m : Miner)
    → get_elem? ms i ≡ some m
    → get_elem? (hand_out w start width j ms) i
      ≡ some (set_work (record w { start_nonce = u64 (start + shl64 (j + i) width) }) m)
unfolding hand_out
get_elem?-hand_out w start width j i [] m at = absurd (none-ne-some m at)
get_elem?-hand_out w start width j zero (x ∷ ms) m at =
    ap₂
      (λ (k : ℕ) (y : Miner).
        some (set_work (record w { start_nonce = u64 (start + shl64 k width) }) y))
      {x = j} {y = j + 0} (omega arith) (some-injective x m at)
get_elem?-hand_out w start width j (suc i) (x ∷ ms) m at =
    get_elem?-hand_out w start width (j + 1) i ms m at
    ∙ ap (λ (k : ℕ). some (set_work (record w { start_nonce = u64 (start + shl64 k width) }) m))
        {x = j + 1 + i} {y = j + suc i} (omega arith)

get_elem?-map :
    {A B : Type 0} (f : A → B) (xs : List A) (i : ℕ) (x : A)
    → get_elem? xs i ≡ some x
    → get_elem? (map f xs) i ≡ some (f x)
get_elem?-map f [] i x at = absurd (none-ne-some x at)
get_elem?-map f (y ∷ ys) zero x at = ap (λ z. some (f z)) (some-injective y x at)
get_elem?-map f (y ∷ ys) (suc i) x at = get_elem?-map f ys i x at

get_elem?-lt : {A : Type 0} (xs : List A) (i : ℕ) (x : A) → get_elem? xs i ≡ some x → i < length xs
get_elem?-lt [] i x at = absurd (none-ne-some x at)
get_elem?-lt (y ∷ ys) zero x at = omega arith
get_elem?-lt (y ∷ ys) (suc i) x at = omega (arith, get_elem?-lt ys i x at)

-- The width that is chosen, where there are miners and no more of them than free nonces.
segment_width-total :
    (ex n : ℕ)
    → ex ≤ 16
    → 0 < n
    → n ≤ 2 ^ (64 - ex * 4)
    → segment_width ex n ≡ some (width_from (64 - ex * 4) n (2 ^ (64 - ex * 4)))
unfolding segment_width
segment_width-total ex n small some_miner room =
    else_eq (n == 0) none (ground (arith, some_miner))
    ∙ if_true (leb (ex * 4) 64 && ltb n (2 * 2 ^ (64 - ex * 4)))
        (both (leb (ex * 4) 64) _ (le→leb (ex * 4) 64 (omega arith)) (lt→ltb n _ (omega arith)))
  where
    if_true : (b : Bool) {x : Option ℕ} → b ≡ true → (if b then x else none) ≡ x
    if_true true e = refl
    if_true false e = absurd (false≢true e)

    both : (a b : Bool) → a ≡ true → b ≡ true → (a && b) ≡ true
    both true b e e' = e'
    both false b e e' = e

segment_inside :
    (n i width bits : ℕ) → i < n → n * 2 ^ width ≤ 2 ^ bits → i * 2 ^ width + 2 ^ width ≤ 2 ^ bits
segment_inside n i width bits below fits =
    let step : suc i * 2 ^ width ≤ n * 2 ^ width = mul-le-mul_right (2 ^ width) below in
    omega (arith, step, fits)

-- The first nonce of a segment does not wrap.
segment_start :
    (start i width free : ℕ)
    → i * 2 ^ width + 2 ^ width ≤ free
    → start + free ≤ 2 ^ 64
    → u64 (start + shl64 (0 + i) width) ≡ start + i * 2 ^ width
segment_start start i width free inside room =
    ap (λ (k : ℕ). u64 (start + shl64 k width)) {x = 0 + i} {y = i} (omega arith)
    ∙ below (i * 2 ^ width) (2 ^ width) (one-le-pow width 2 (omega arith)) inside
  where
    below : (o q : ℕ) → 0 < q → o + q ≤ free → u64 (start + u64 o) ≡ start + o
    below o q pos h = omega arith

pub length-switch_epoch :
    (w : WorkPackage) (f : Farm) → length (switch_epoch w f).miners ≡ length f.miners
unfolding switch_epoch
length-switch_epoch w f = elim (Bool-cases (f.current_wp.epoch =ℤ w.epoch)) [
  | inl same ↦ rw same refl
  | inr other ↦ rw other (length-map f.miners (set_epoch w.epoch))
]

pub length-hand_out :
    (w : WorkPackage) (start width i : ℕ) (ms : List Miner)
    → length (hand_out w start width i ms) ≡ length ms
unfolding hand_out
length-hand_out w start width i [] = refl
length-hand_out w start width i (m ∷ ms) = ap suc (length-hand_out w start width (i + 1) ms)

-- A miner keeps its place and its flags when the epoch changes.
switched :
    (w : WorkPackage) (f : Farm) (i : ℕ) (m : Miner)
    → get_elem? f.miners i ≡ some m
    → (m' : Miner) × (get_elem? (switch_epoch w f).miners i ≡ some m') × (paused m' ≡ paused m)
unfolding switch_epoch
switched w f i m at = elim (Bool-cases (f.current_wp.epoch =ℤ w.epoch)) [
  | inl same ↦ (m, rw same at, refl)
  | inr other ↦ (
    set_epoch w.epoch m,
    rw other (get_elem?-map (set_epoch w.epoch) f.miners i m at),
    set_epoch-paused w.epoch m,
  )
]

-- The farm after a work package with an extra nonce.
abbrev divided : WorkPackage → ℕ → Farm → Farm
divided w width f = record f {
  nonce_segment_width = width;
  miners = hand_out w w.start_nonce width 0 f.miners;
  current_wp = record w {
    start_nonce = last_start w.start_nonce width (length f.miners) w.start_nonce;
  };
}

set_work_divided :
    (random width : ℕ) (w : WorkPackage) (f : Farm)
    → 0 < w.ex_size_bytes
    → segment_width w.ex_size_bytes (length (switch_epoch w f).miners) ≡ some width
    → farm_set_work random w f
      ≡ some (divided w width (record (switch_epoch w f) { current_wp = w }))
unfolding farm_set_work
set_work_divided random width w f pos chosen =
    rw
      (
        and_false ((switch_epoch w f).ergodicity == 2) (w.ex_size_bytes == 0) (ground (arith, pos)),
        lt→ltb 0 w.ex_size_bytes pos,
      )
      (bind_eq _ chosen)
  where
    and_false : (a b : Bool) → b ≡ false → (a && b) ≡ false
    and_false true b e = e
    and_false false b e = refl

-- A pool that fixes the first `exSizeBytes` hexadecimal digits of the nonce, with no more miners
-- than nonces left: `setWork` returns, and the segments that it hands out have a common width, lie
-- one behind the other from the pool's start nonce on, without a gap or an overlap, and all inside
-- the nonces left. The width is the greatest power of two with which they do. Every miner that is
-- not paused has the first nonce of its segment.
pub farm_set_work-segments :
    (random : ℕ) (w : WorkPackage) (f : Farm)
    → 0 < w.ex_size_bytes
    → w.ex_size_bytes ≤ 16
    → 0 < length f.miners
    → length f.miners ≤ 2 ^ (64 - w.ex_size_bytes * 4)
    → w.start_nonce + 2 ^ (64 - w.ex_size_bytes * 4) ≤ 2 ^ 64
    → (f' : Farm) × (farm_set_work random w f ≡ some f')
      × ((v : ℕ)
          → v ≤ 64 - w.ex_size_bytes * 4
          → length f.miners * 2 ^ v ≤ 2 ^ (64 - w.ex_size_bytes * 4)
          → v ≤ f'.nonce_segment_width)
      × ((i : ℕ) (m : Miner)
          → get_elem? f.miners i ≡ some m
          → paused m ≡ false
          → (m' : Miner) × (get_elem? f'.miners i ≡ some m')
            × (m'.work.start_nonce ≡ w.start_nonce + i * 2 ^ f'.nonce_segment_width)
            × (i * 2 ^ f'.nonce_segment_width + 2 ^ f'.nonce_segment_width
                ≤ 2 ^ (64 - w.ex_size_bytes * 4)))
farm_set_work-segments random w f pos small some_miner room in_range = (
  divided w width (record (switch_epoch w f) { current_wp = w }),
  set_work_divided random width w f pos (
      ap (segment_width w.ex_size_bytes) (length-switch_epoch w f)
      ∙ segment_width-total w.ex_size_bytes (length f.miners) small some_miner room),
  width_from-greatest bits (length f.miners) (2 ^ bits),
  λ i m at free.
      let (m', at', flags) = switched w f i m at in
      let inside : i * 2 ^ width + 2 ^ width ≤ 2 ^ bits =
        segment_inside (length f.miners) i width bits (get_elem?-lt f.miners i m at)
          (width_from-fits bits (length f.miners) (2 ^ bits) room) in
      (
        set_work (record w { start_nonce = u64 (w.start_nonce + shl64 (0 + i) width) }) m',
        get_elem?-hand_out w w.start_nonce width 0 i (switch_epoch w f).miners m' at',
        ap (λ (p : WorkPackage). p.start_nonce)
              (set_work_free (record w { start_nonce = u64 (w.start_nonce + shl64 (0 + i) width) })
                m' (flags ∙ free))
            ∙ segment_start w.start_nonce i width (2 ^ bits) inside in_range,
        inside,
      ),
)
  where
    bits : ℕ
    bits = 64 - w.ex_size_bytes * 4

    width : ℕ
    width = width_from bits (length f.miners) (2 ^ bits)

-- `n` miners can share the nonces that a pool leaves free with the given `exSizeBytes`.
abbrev pub Divisible : ℕ → ℕ → Type 0
Divisible ex n = (ex ≡ 0) ⊎ ((ex ≤ 16) × (0 < n) × (n ≤ 2 ^ (64 - ex * 4)))

pub farm_set_work-total :
    (random : ℕ) (w : WorkPackage) (f : Farm)
    → Divisible w.ex_size_bytes (length f.miners)
    → (f' : Farm) × (farm_set_work random w f ≡ some f')
unfolding farm_set_work
farm_set_work-total random w f fits =
    if_either (λ o. (f' : Farm) × (o ≡ some f')) (ltb 0 w.ex_size_bytes)
      (λ extra. (
        _,
        bind_eq _ (
            ap (segment_width w.ex_size_bytes) (length-switch_epoch w f)
            ∙ segment_width-total w.ex_size_bytes (length f.miners) (ground (arith, extra))
                (ground (arith, extra)) (ground (arith, extra))),
      ))
      (λ none_extra. (_, refl))
