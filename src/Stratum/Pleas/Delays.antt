-- ===== src/Stratum/Pleas/Delays.antt =====
-- From which request a delay is measured.
use fpga_ethash.Base.{
  ℕ, suc, ◌-◌, ◌≤◌, ◌≡◌, refl, sym, ap, ◌∙◌, List, [], ◌∷◌, ◌++◌, length, length-append, arith,
}
use mathlib.Core.List.{append_assoc, append-nil}
use fpga_ethash.Stratum.{Client}
use fpga_ethash.Stratum.Effects.{Reply, value}
use fpga_ethash.Stratum.Pleas.{enqueue_response_plea, dequeue_response_plea}

-- Requests that are sent at these times.
pub enqueue_all : List ℕ → Client → Client
enqueue_all [] c = c
enqueue_all (t ∷ ts) c = enqueue_all ts (enqueue_response_plea t c)

delay_value : Reply ℕ → ℕ
delay_value (value d) = d
delay_value _ = 0

-- The delays of responses that come at these times.
pub delays : List ℕ → Client → List ℕ
unfolding delay_value
delays [] c = []
delays (now ∷ later) c =
    delay_value (dequeue_response_plea now c).0 ∷ delays later (dequeue_response_plea now c).1

-- The time from each of the second list to the one of the first.
unfoldable pub differences : List ℕ → List ℕ → List ℕ
differences [] ts = []
differences (n ∷ ns) [] = []
differences (n ∷ ns) (t ∷ ts) = (n - t) ∷ differences ns ts

-- One response: the delay counts from the older time, and the oldest waiting time becomes it.
dequeue_step :
    (now t : ℕ) (ts : List ℕ) (c : Client)
    → c.response_plea_times ≡ t ∷ ts
    → c.response_pleas_count ≡ suc (length ts)
    → dequeue_response_plea now c ≡ (
      value (now - c.response_plea_older),
      record c {
        response_plea_older = t;
        response_plea_times = ts;
        response_pleas_count = length ts;
      },
    )
unfolding dequeue_response_plea
dequeue_step now t ts c times count = ground arith

delays_lag :
    (nows ts : List ℕ) (c : Client)
    → c.response_plea_times ≡ ts
    → c.response_pleas_count ≡ length ts
    → length nows ≤ length ts
    → delays nows c ≡ differences nows (c.response_plea_older ∷ ts)
unfolding delays differences
delays_lag [] ts c times count room = refl
delays_lag (now ∷ later) [] c times count room = absurd (omega arith)
delays_lag (now ∷ later) (t ∷ ts) c times count room = rw (dequeue_step now t ts c times count) (
    ap (λ (xs : List ℕ). (now - c.response_plea_older) ∷ xs)
      (delays_lag later ts
        (record c {
          response_plea_older = t;
          response_plea_times = ts;
          response_pleas_count = length ts;
        })
        refl refl (omega arith)))

enqueued :
    (ts old : List ℕ) (t : ℕ) (c : Client)
    → c.response_plea_times ≡ t ∷ old
    → c.response_pleas_count ≡ suc (length old)
    → (c.response_plea_older ≡ t)
    → ((enqueue_all ts c).response_plea_times ≡ t ∷ (old ++ ts))
      × ((enqueue_all ts c).response_pleas_count ≡ suc (length (old ++ ts)))
      × ((enqueue_all ts c).response_plea_older ≡ t)
unfolding enqueue_all enqueue_response_plea
enqueued [] old t c times count older = (
  times ∙ ap (λ (xs : List ℕ). t ∷ xs) (sym (append-nil old)),
  count ∙ ap (λ (xs : List ℕ). suc (length xs)) (sym (append-nil old)),
  older,
)
enqueued (u ∷ ts) old t c times count older =
    let regroup : (old ++ u ∷ []) ++ ts ≡ old ++ u ∷ ts = append_assoc old (u ∷ []) ts in
    let rest =
      enqueued ts (old ++ u ∷ []) t (enqueue_response_plea u c)
        (ap (λ (xs : List ℕ). xs ++ u ∷ []) times)
        (omega (arith, count, length-append old (u ∷ []))) (ground (arith, count, older)) in
    (
      rest.0 ∙ ap (λ (xs : List ℕ). t ∷ xs) regroup,
      rest.1 ∙ ap (λ (xs : List ℕ). suc (length xs)) regroup,
      rest.2,
    )

-- Of requests that are sent one after another to a pool that owed no response, the first response's
-- delay counts from the first request, and each later response's delay from the request before
-- its own.
pub delays-differences :
    (t : ℕ) (ts nows : List ℕ) (c : Client)
    → c.response_pleas_count ≡ 0
    → c.response_plea_times ≡ []
    → length nows ≤ length (t ∷ ts)
    → delays nows (enqueue_all (t ∷ ts) c) ≡ differences nows (t ∷ t ∷ ts)
unfolding enqueue_all enqueue_response_plea
delays-differences t ts nows c count times room =
    let all =
      enqueued ts [] t (enqueue_response_plea t c) (ap (λ (xs : List ℕ). xs ++ t ∷ []) times)
        (omega (arith, count)) (ground (arith, count)) in
    delays_lag nows (t ∷ ts) (enqueue_all (t ∷ ts) c) all.0 all.1 room
    ∙ ap (λ (o : ℕ). differences nows (o ∷ t ∷ ts)) all.2
