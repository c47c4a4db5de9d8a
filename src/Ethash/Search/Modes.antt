-- ===== src/Ethash/Search/Modes.antt =====
-- The full dataset and the light cache: the two ways of `krnl_ethash_func` to find a node agree.
use fpga_ethash.Ethash.{Light, fnv_hash, compute_dag_item, hash_node}
use fpga_ethash.Ethash.Search.{
  Progress, dag_loop, compute_full_dag, ReturnValue, full, light_mode, dag_node, mix_node, mix_page,
  access_loop, krnl_ethash_func,
}
use fpga_ethash.Base.{
  ℕ, zero, suc, ◌+◌, ◌*◌, ◌/◌, ◌%◌, ◌^◌, ◌<◌, ◌≡◌, refl, sym, ap, subst, some-injective, ◌∙◌, inl,
  inr, List, Option, none, some, Bool, true, false, not, ◌||◌, ◌==◌, ==_iff, if◌then◌else◌, ltb,
  Bool-cases, bind_inv, guard_inv, bind_ext, bind_cong, else_cong, bind-some_id, ltb→lt, false≢true,
  length, get_or, take, ◌++◌, bit_xor, get_elem?, get_elem?-set_self, get_elem?-set_ne, set, arith,
  u32,
}

-- What returned true did not take a branch that returns false.
not_stopped_if :
    {A : Type 0} (b : Bool) {o : Option (Bool × A)} (x : A) {y : A}
    → (if b then some (false, x) else o) ≡ some (true, y)
    → o ≡ some (true, y)
not_stopped_if false x e = e
not_stopped_if {A} true x e =
    absurd (false≢true (ap (λ (p : Bool × A). p.0) (some-injective _ _ e)))

-- The nodes below `n` are the items of the cache.
abbrev Filled : Light → ℕ → List (List ℕ) → Type 0
Filled light n nodes = (k : ℕ) → k < n → get_elem? nodes k ≡ compute_dag_item k light

Filled-set :
    (light : Light) (n : ℕ) (nodes : List (List ℕ)) (item : List ℕ)
    → n < length nodes
    → compute_dag_item n light ≡ some item
    → Filled light n nodes
    → Filled light (n + 1) (set nodes n item)
Filled-set light n nodes item room made filled k below = elim (Bool-cases (k == n)) [
  | inl same ↦
      let e : k ≡ n = (==_iff k n).0 same in rw e (get_elem?-set_self nodes n item room ∙ sym made)
  | inr other ↦
      get_elem?-set_ne nodes item (λ e. ground (arith, other)) ∙ filled k (ground (arith, other))
]

dag_loop-Filled :
    (progress : Option Progress) (light : Light) (max_n left n : ℕ) (nodes dag : List (List ℕ))
    → Filled light n nodes
    → dag_loop progress light max_n left n nodes ≡ some (true, dag)
    → Filled light (n + left) dag
unfolding dag_loop
dag_loop-Filled progress light max_n zero n nodes dag filled run =
    subst (λ (d : List (List ℕ)). Filled light (n + 0) d)
      (ap (λ (p : Bool × List (List ℕ)). p.1) (some-injective _ _ run))
      (λ k below. filled k (omega arith))
dag_loop-Filled progress light max_n (suc left) n nodes dag filled run =
    let (goes_on, go, run1) = bind_inv run in
    let (item, made, run2) = bind_inv (not_stopped_if (not goes_on) nodes run1) in
    let (room, run3) = guard_inv (ltb n (length nodes)) run2 in
    let last : Filled light (n + 1 + left) dag =
      dag_loop-Filled progress light max_n left (n + 1) (set nodes n item) dag
        (Filled-set light n nodes item (ltb→lt n (length nodes) room) made filled) run3 in
    λ k below. last k (omega arith)

-- What a call of `compute_full_dag` that returned true leaves in the memory of the dataset.
compute_full_dag-Filled :
    (mem dag : List (List ℕ)) (full_size : ℕ) (light : Light) (callback : Option Progress)
    → compute_full_dag mem full_size light callback ≡ some (true, dag)
    → Filled light (u32 (full_size / 64)) dag
unfolding compute_full_dag
compute_full_dag-Filled mem dag full_size light callback run = λ k below. nodes k (omega arith)
  where
    nodes : Filled light (0 + u32 (full_size / 64)) dag
    nodes =
        dag_loop-Filled callback light (u32 (full_size / 64)) (u32 (full_size / 64)) 0 mem dag
          (λ k below. absurd (omega arith))
          (not_stopped_if (not (full_size % 128 == 0) || not (full_size % 64 == 0)) mem run)

module _ (dag : List (List ℕ)) (light : Light) (expired : List ℕ → List ℕ) (pages : ℕ)
    (filled : Filled light (2 * pages) dag) (kept : (node : List ℕ) → expired node ≡ node) where
  dag_node_agree :
      (k : ℕ) → k < 2 * pages → dag_node (full dag) k ≡ dag_node (light_mode light expired) k
  unfolding dag_node
  dag_node_agree k below =
      filled k below ∙ sym (bind-some_id (compute_dag_item k light) expired kept)

  mix_page_agree :
      (index : ℕ) (mix : List ℕ)
      → index < pages
      → mix_page (full dag) index mix ≡ mix_page (light_mode light expired) index mix
  unfolding mix_page
  mix_page_agree index mix below =
      bind_cong (dag_node_agree (u32 (u32 (2 * index) + 0)) (omega arith)) λ first.
        bind_ext (mix_node 0 first mix) λ mix'.
          bind_cong (dag_node_agree (u32 (u32 (2 * index) + 1)) (omega arith)) λ second. refl

  access_loop_agree :
      (seed left i : ℕ) (mix : List ℕ)
      → access_loop (full dag) pages seed left i mix
        ≡ access_loop (light_mode light expired) pages seed left i mix
  unfolding access_loop
  access_loop_agree seed zero i mix = refl
  access_loop_agree seed (suc left) i mix = else_cong (pages == 0) none λ some_page.
      bind_ext (get_elem? mix (i % 32)) λ mixed.
        bind_cong
          (mix_page_agree (fnv_hash (bit_xor seed i) mixed % pages) mix (ground (arith, some_page)))
          (access_loop_agree seed left (i + 1))

-- With the dataset that `compute_full_dag` computes from a light cache, whatever its callback, the
-- search gives what it gives from the light cache itself, for every header, nonce and content of the
-- stack, if reading the node after its block keeps the value. The dataset is below 256 GiB, so no
-- index of a node wraps.
pub krnl_ethash_func-modes :
    (mem dag : List (List ℕ)) (full_size : ℕ) (light : Light) (callback : Option Progress)
    → (expired : List ℕ → List ℕ) (ret : ReturnValue) (header_hash : List ℕ) (nonce : ℕ)
      (stack : List ℕ)
    → full_size < 2 ^ 38
    → ((node : List ℕ) → expired node ≡ node)
    → compute_full_dag mem full_size light callback ≡ some (true, dag)
    → krnl_ethash_func ret (full dag) full_size header_hash nonce stack
      ≡ krnl_ethash_func ret (light_mode light expired) full_size header_hash nonce stack
unfolding krnl_ethash_func
krnl_ethash_func-modes mem dag full_size light callback expired ret header_hash nonce stack small
      kept run =
    else_cong (not (full_size % 32 == 0)) (some ret) λ whole.
      bind_ext (hash_node (take 32 header_hash ++ take 8 stack)) λ s_mix.
        bind_cong
          (access_loop_agree dag light expired (u32 (full_size / 128)) nodes kept (get_or s_mix 0 0)
            64 0 (s_mix ++ s_mix))
          λ mix. refl
  where
    nodes : Filled light (2 * u32 (full_size / 128)) dag
    nodes k below = compute_full_dag-Filled mem dag full_size light callback run k (omega arith)
