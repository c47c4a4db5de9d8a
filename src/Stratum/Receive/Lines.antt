-- ===== src/Stratum/Receive/Lines.antt =====
-- The lines of what is received do not depend on how the bytes are cut into transmissions.
use mathlib.Core.List.{append_assoc, append-nil}
use fpga_ethash.Json.{Json, JsonError}
use fpga_ethash.Base.{
  ℕ, ◌≡◌, refl, sym, ap, ◌∙◌, List, [], ◌∷◌, ◌++◌, false, Bool-cases, inl, inr, ◌==◌, ==_iff, arith,
  Option, Result, All, All-append,
}
use fpga_ethash.Stratum.{Client, Text, is_connected}
use fpga_ethash.Stratum.Effects.{
  Reply, value, returned, threw, threw_pointer, undefined, M, continue, ◌>>=◌,
}
use fpga_ethash.Stratum.Receive.{
  split_lines, join_lines, process_line, process_lines, end_transmission, on_received,
}

-- The lines behind a first part, from where that part ends.
split_lines-append :
    (line a b : Text)
    → split_lines line (a ++ b) ≡ (
      (split_lines line a).0 ++ (split_lines (split_lines line a).1 b).0,
      (split_lines (split_lines line a).1 b).1,
    )
unfolding split_lines
split_lines-append line [] b = refl
split_lines-append line (c ∷ a) b = elim (Bool-cases (c == 10)) [
  | inl newline ↦ rw (newline, split_lines-append [] a b) refl
  | inr other ↦ rw other (split_lines-append (line ++ c ∷ []) a b)
]

-- Nothing is lost: the lines, with their ends, are the buffer again.
join_lines-split_lines :
    (line a : Text) → join_lines (split_lines line a).0 (split_lines line a).1 ≡ line ++ a
unfolding split_lines join_lines
join_lines-split_lines line [] = sym (append-nil line)
join_lines-split_lines line (c ∷ a) = elim (Bool-cases (c == 10)) [
  | inl newline ↦ rw newline (
      ap (λ (t : Text). line ++ 10 ∷ t) (join_lines-split_lines [] a)
      ∙ ap (λ (n : ℕ). line ++ n ∷ a) (sym ((==_iff c 10).0 newline)))
  | inr other ↦ rw other (join_lines-split_lines (line ++ c ∷ []) a ∙ append_assoc line (c ∷ []) a)
]

-- The lines that a transmission completes, behind what the buffer holds.
abbrev pub lines_of : Text → Text → List Text
lines_of old bytes = (split_lines [] (old ++ bytes)).0

abbrev NoEnd : ℕ → Type 0
NoEnd n = (n == 10) ≡ false

split_lines-begun :
    (line rest b : Text)
    → All NoEnd rest
    → split_lines line (rest ++ b) ≡ split_lines (line ++ rest) b
unfolding split_lines
split_lines-begun line [] b plain = ap (λ (t : Text). split_lines t b) (sym (append-nil line))
split_lines-begun line (n ∷ rest) b plain = rw plain.0 (
    split_lines-begun (line ++ n ∷ []) rest b plain.1
    ∙ ap (λ (t : Text). split_lines t b) (append_assoc line (n ∷ []) rest))

split_lines-NoEnd : (line a : Text) → All NoEnd line → All NoEnd (split_lines line a).1
unfolding split_lines
split_lines-NoEnd line [] plain = plain
split_lines-NoEnd line (n ∷ a) plain = elim (Bool-cases (n == 10)) [
  | inl newline ↦ rw newline (split_lines-NoEnd [] a tt)
  | inr other ↦
      rw other
        (split_lines-NoEnd (line ++ n ∷ []) a (All-append NoEnd line (n ∷ []) plain (other, tt)))
]

value_inv :
    {A B : Type 0} (r : Reply A) (f : A → M B) (c : Client) {b : B}
    → (continue r f c).0 ≡ value b
    → (a : A) × (r ≡ value a) × ((f a c).0 ≡ value b)
value_inv (value a) f c e = (a, refl, e)
value_inv returned f c e = cc
value_inv threw f c e = cc
value_inv threw_pointer f c e = cc
value_inv undefined f c e = cc

-- The client when a transmission begins.
abbrev pub begun : Text → Client → Client
begun bytes c = record c { message = c.message ++ bytes; new_job_processed = false }

module _ (J : Json) (parse : Text → Option J.Value)
    (target_of_difficulty : J.Value → Result JsonError (List ℕ)) (project : Text) (now : ℕ) where
  process_lines-message :
      (rest : Text) (lines : List Text) (c : Client)
      → c.message ≡ join_lines lines rest
      → (process_lines J parse target_of_difficulty project now rest lines c).0 ≡ value tt
      → (process_lines J parse target_of_difficulty project now rest lines c).1.message ≡ rest
  unfolding process_lines join_lines ◌>>=◌
  process_lines-message rest [] c e done = e
  process_lines-message rest (line ∷ lines) c e done =
      let (a, first, more) =
        value_inv (process_line J parse target_of_difficulty project now line c).0 _ _ done in
      rw first (process_lines-message rest lines _ refl more)

  end_transmission-message : (c : Client) → (end_transmission c).1.message ≡ c.message
  unfolding end_transmission ◌>>=◌ is_connected
  end_transmission-message c = ground arith

  on_received-message :
      (bytes : Text) (c : Client)
      → (on_received J parse target_of_difficulty project now bytes c).0 ≡ value tt
      → (on_received J parse target_of_difficulty project now bytes c).1.message
        ≡ (split_lines [] (c.message ++ bytes)).1
  unfolding on_received ◌>>=◌
  on_received-message bytes c done =
      let buffer : Text = c.message ++ bytes in
      let start : Client = record c { message = buffer; new_job_processed = false } in
      let m =
        process_lines J parse target_of_difficulty project now (split_lines [] buffer).1
          (split_lines [] buffer).0 start in
      let (a, first, more) = value_inv m.0 _ _ done in
      ap (λ (r : Reply (Unit {0})). (continue r (λ _. end_transmission) m.1).1.message) first
      ∙ (end_transmission-message m.1
          ∙ process_lines-message (split_lines [] buffer).1 (split_lines [] buffer).0 start
              (sym (join_lines-split_lines [] buffer)) first)

  -- The lines are processed one after another, each by `process_line` on the client that the one before
  -- left, and each to its end; only the buffer is changed in between.
  pub data Through : List Text → Client → Client → Type 0 where
    no_line : {c : Client} → Through [] c c
    next_line :
        {line : Text} {lines : List Text} {c d : Client} (buffer : Text)
        → (process_line J parse target_of_difficulty project now line c).0 ≡ value tt
        → Through lines
            (record (process_line J parse target_of_difficulty project now line c).1 {
              message = buffer;
            })
            d
        → Through (line ∷ lines) c d

  process_lines-Through :
      (rest : Text) (lines : List Text) (c : Client)
      → (process_lines J parse target_of_difficulty project now rest lines c).0 ≡ value tt
      → Through lines c (process_lines J parse target_of_difficulty project now rest lines c).1
  unfolding process_lines ◌>>=◌
  process_lines-Through rest [] c done = no_line
  process_lines-Through rest (line ∷ lines) c done =
      let (a, first, more) =
        value_inv (process_line J parse target_of_difficulty project now line c).0 _ _ done in
      rw first (next_line (join_lines lines rest) first (process_lines-Through rest lines _ more))

  on_received-Through :
      (bytes : Text) (c : Client)
      → (on_received J parse target_of_difficulty project now bytes c).0 ≡ value tt
      → (m : Client) × Through (lines_of c.message bytes) (begun bytes c) m
        × (on_received J parse target_of_difficulty project now bytes c ≡ end_transmission m)
  unfolding on_received ◌>>=◌
  on_received-Through bytes c done =
      let m =
        process_lines J parse target_of_difficulty project now
          (split_lines [] (c.message ++ bytes)).1 (lines_of c.message bytes) (begun bytes c) in
      let (a, first, more) = value_inv m.0 _ _ done in
      (
        m.1,
        process_lines-Through (split_lines [] (c.message ++ bytes)).1 (lines_of c.message bytes)
            (begun bytes c) first,
        ap (λ (r : Reply (Unit {0})). continue r (λ _. end_transmission) m.1) first,
      )

  -- Two transmissions that are handled to their end: each call processes the lines that its bytes
  -- complete, one after another, and then ends the transmission; the lines of the two calls, one
  -- behind the other, are those of one transmission with all the bytes, and the same bytes without a
  -- line end are left.
  pub on_received-chunks :
      (a b : Text) (c : Client)
      → (on_received J parse target_of_difficulty project now a c).0 ≡ value tt
      → (on_received J parse target_of_difficulty project now b
          (on_received J parse target_of_difficulty project now a c).1).0
        ≡ value tt
      → let r = on_received J parse target_of_difficulty project now a c in
        ((m : Client) × Through (lines_of c.message a) (begun a c) m × (r ≡ end_transmission m))
        × ((n : Client) × Through (lines_of r.1.message b) (begun b r.1) n
            × (on_received J parse target_of_difficulty project now b r.1 ≡ end_transmission n))
        × (lines_of c.message a ++ lines_of r.1.message b ≡ lines_of c.message (a ++ b))
        × ((split_lines [] (r.1.message ++ b)).1 ≡ (split_lines [] (c.message ++ (a ++ b))).1)
  on_received-chunks a b c done more =
      let whole =
        ap (split_lines []) (sym (append_assoc c.message a b))
        ∙ split_lines-append [] (c.message ++ a) b in
      let begun =
        split_lines-begun [] (split_lines [] (c.message ++ a)).1 b
          (split_lines-NoEnd [] (c.message ++ a) tt) in
      let left = on_received-message a c done in
      (
        on_received-Through a c done,
        on_received-Through b (on_received J parse target_of_difficulty project now a c).1 more,
        ap (λ (m : Text). lines_of c.message a ++ lines_of m b) left
            ∙ ap (λ (p : List Text × Text). lines_of c.message a ++ p.0) begun
            ∙ sym (ap (λ p. p.0) whole),
        ap (λ (m : Text). (split_lines [] (m ++ b)).1) left
            ∙ ap (λ (p : List Text × Text). p.1) begun
            ∙ sym (ap (λ p. p.1) whole),
      )
