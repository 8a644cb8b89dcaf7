-- ===== src/Queue/Completion/Progress.antt =====
-- The completion loop against counters: it ends, and consumes exactly up to the expected completion.
use openeuler_ummu.Base.{
  ℕ, zero, suc, ◌+◌, ◌-◌, ◌*◌, ◌%◌, ◌^◌, ◌≤◌, ◌<◌, ◌≡◌, ◌≢◌, refl, ap, ◌∙◌, arith, ◌==◌,
  if◌then◌else◌, Bool, true, false, Option, some, einval, eagain,
}
use mathlib.Core.Path.{subst₂}
use native.Mathlib.Nat.{pow-suc, one-le-pow, mod-lt, mod-eq_of_lt, add-mod_right}
use native.Mathlib.Decide.{ℕ_discrete, dec_lt}
use openeuler_ummu.Queue.Index.{
  index_of, mod-injective, ummu_update_queue_index_lem, mask, q_idx-index,
}
use openeuler_ummu.Queue.Completion.{CplEntry, psync_loop, ummu_get_cpl_psync}

-- Two counters less than a whole turn apart have different indices.
index_of-injective :
    (size a b : ℕ) → a ≤ b → b < a + 2 * 2 ^ size → index_of size b ≡ index_of size a → b ≡ a
index_of-injective size a b h k e =
    mod-injective (2 ^ suc size) a b h (omega (arith, pow-suc 2 size)) e

-- The test on the indices of two such counters is the test on the counters.
index_of_test :
    (size a b : ℕ) → a ≤ b → b < a + 2 * 2 ^ size → (index_of size b == index_of size a) ≡ (b == a)
index_of_test size a b h k = elim (ℕ_discrete b a) [
  | yes e ↦ rw e (ground arith)
  | no ne ↦
      let apart : index_of size b ≢ index_of size a = λ e. ne (index_of-injective size a b h k e) in
      ground arith
]

module _ (entries : ℕ → CplEntry) (size pi_sync : ℕ) (small : size < 16) where
  -- the completion that the device wrote as number `c`
  abbrev pub completion : ℕ → ℕ
  completion c = (entries (c % 2 ^ size)).cmdq_ci

  -- `found` says whether the consumption, from `used` on, ended with the expected completion at
  -- `last - 1`; else it went to `made`.
  pub record Consumed (used made : ℕ) (found : Bool) (last : ℕ) : Type 0 where
    pub from : used ≤ last
    pub upto : last ≤ made
    pub others : (c : ℕ) → used ≤ c → c + 1 < last → completion c ≢ pi_sync
    pub met : found ≡ true → (used < last) × (completion (last - 1) ≡ pi_sync)
    pub missed :
        found ≡ false → (last ≡ made) × ((c : ℕ) → used ≤ c → c < made → completion c ≢ pi_sync)

  -- One round, at counters that differ.
  psync_round :
      (n used made : ℕ)
      → used < made
      → made < used + 2 * 2 ^ size
      → psync_loop (suc n) entries size (index_of size made) pi_sync (index_of size used) ≡ (
          if completion used == pi_sync
          then some (true, index_of size (used + 1))
          else psync_loop n entries size (index_of size made) pi_sync (index_of size (used + 1)))
  unfolding psync_loop
  psync_round n used made h t =
      let apart : (index_of size made == index_of size used) ≡ false =
        differ (λ e. omega (arith, h, index_of-injective size used made (omega arith) t e)) in
      rw
        (
          apart,
          mask size used small,
          q_idx-index size used,
          ummu_update_queue_index_lem size used small,
        )
        refl
    where
      differ :
          (index_of size made ≡ index_of size used → ⊥)
          → (index_of size made == index_of size used) ≡ false
      differ ne = ground arith

  ended :
      (n used : ℕ)
      → psync_loop n entries size (index_of size used) pi_sync (index_of size used)
        ≡ some (false, index_of size used)
  unfolding psync_loop
  ended zero used = ground arith
  ended (suc n) used = ground arith

  later :
      (used made : ℕ) (found : Bool) (last : ℕ)
      → completion used ≢ pi_sync
      → Consumed (used + 1) made found last
      → Consumed used made found last
  later used made found last other c = record {
    from = omega (arith, c.from);
    upto = c.upto;
    others = λ k p q. elim (ℕ_discrete k used) [
      | yes e ↦ rw e other
      | no ne ↦ c.others k (omega arith) q
    ];
    met = λ h. (omega (arith, (c.met h).0), (c.met h).1);
    missed = λ h. (
      (c.missed h).0,
      λ k p q. elim (ℕ_discrete k used) [
        | yes e ↦ rw e other
        | no ne ↦ (c.missed h).1 k (omega arith) q
      ],
    );
  }

  abbrev pub ConsumedTo : ℕ → ℕ → ℕ → Type 0
  ConsumedTo n used made =
      (found : Bool) × (last : ℕ) × (psync_loop n entries size (index_of size made) pi_sync
          (index_of size used)
        ≡ some (found, index_of size last))
      × Consumed used made found last

  at_end : (n used made : ℕ) → made ≡ used → ConsumedTo n used made
  at_end n used made e = (
    false,
    used,
    rw e (ended n used),
    record {
      from = omega arith;
      upto = omega arith;
      others = λ c p q. absurd (omega arith);
      met = λ q. cc;
      missed = λ _. (omega arith, λ c p q. absurd (omega arith));
    },
  )

  -- With as many rounds as there are completions, the loop ends.
  pub psync_loop_lem :
      (n used made : ℕ)
      → used ≤ made
      → made ≤ used + n
      → made < used + 2 * 2 ^ size
      → ConsumedTo n used made
  psync_loop_lem zero used made h k t = at_end zero used made (omega arith)
  psync_loop_lem (suc n) used made h k t = elim (ℕ_discrete made used) [
    | yes e ↦ at_end (suc n) used made e
    | no ne ↦ elim (ℕ_discrete (completion used) pi_sync) [
      | yes e ↦ (
        true,
        used + 1,
        psync_round n used made (omega arith) t ∙ ground (arith, e),
        record {
          from = omega arith;
          upto = omega arith;
          others = λ c p q. absurd (omega arith);
          met = λ _. (omega arith, ap completion (omega arith) ∙ e);
          missed = λ q. cc;
        },
      )
      | no other ↦
          let (found, last, run, c) =
            psync_loop_lem n (used + 1) made (omega arith) (omega arith) (omega arith) in
          (
            found,
            last,
            psync_round n used made (omega arith) t ∙ ground (arith, run, other),
            later used made found last other c,
          )
    ]
  ]

  -- With a queue of at most 2^15 entries and the device's counter at most one queue ahead of ours, the
  -- consumption ends. The status is 0 exactly if the expected completion was met; the new consumer index
  -- is that of the first counter behind it, or of the device's counter, and no completion passed over was
  -- the expected one. An empty queue is reported as -EINVAL and left alone.
  pub ummu_get_cpl_psync-Consumed :
      (used made : ℕ)
      → used ≤ made
      → made ≤ used + 2 ^ size
      → (found : Bool) × (last : ℕ) × (ummu_get_cpl_psync entries size
            (index_of size made)
            (index_of size used)
            pi_sync
          ≡ some (if made == used then einval else if found then 0 else eagain, index_of size last))
        × Consumed used made found last
  unfolding ummu_get_cpl_psync
  ummu_get_cpl_psync-Consumed used made h k =
      let t : made < used + 2 * 2 ^ size = omega (arith, k, one-le-pow size 2 (omega arith)) in
      let (found, last, run, c) = psync_loop_lem (2 * 2 ^ size) used made h (omega arith) t in
      (found, last, rw (index_of_test size used made h t, run) (status found last c), c)
    where
      status :
          (found : Bool) (last : ℕ)
          → Consumed used made found last
          → if◌then◌else◌ {A = Option (ℕ × ℕ)}
              (made == used)
              (some (einval, index_of size used))
              (some (if found then 0 else eagain, index_of size last))
            ≡ some
                (if made == used then einval else if found then 0 else eagain, index_of size last)
      status found last c = elim (ℕ_discrete made used) [
        | yes e ↦
            let same : last ≡ used = omega (arith, e, c.from, c.upto) in rw same (ground arith)
        | no ne ↦ ground arith
      ]

  -- Whatever indices the control page holds, if they fit their queue (entry and wrap bit), the loop
  -- ends, with an index that fits its queue.
  pub ummu_get_cpl_psync-ends :
      (pi ci : ℕ)
      → pi < 2 * 2 ^ size
      → ci < 2 * 2 ^ size
      → (status : ℕ) × (next : ℕ) × (ummu_get_cpl_psync entries size pi ci pi_sync
          ≡ some (status, next))
        × (next < 2 * 2 ^ size)
  unfolding ummu_get_cpl_psync
  ummu_get_cpl_psync-ends pi ci hp hc =
      let m = 2 ^ suc size in
      let width : m ≡ 2 * 2 ^ size = omega (arith, pow-suc 2 size) in
      elim (dec_lt pi ci) [
        | yes l ↦
            from_counters ci (pi + m) (omega arith) (omega arith)
              (add-mod_right pi m ∙ mod-eq_of_lt (omega arith)) (mod-eq_of_lt (omega arith))
        | no g ↦
            from_counters ci pi (omega arith) (omega arith) (mod-eq_of_lt (omega arith))
              (mod-eq_of_lt (omega arith))
      ]
    where
      from_counters :
          (used made : ℕ)
          → used ≤ made
          → made < used + 2 * 2 ^ size
          → index_of size made ≡ pi
          → index_of size used ≡ ci
          → (status : ℕ) × (next : ℕ) × (ummu_get_cpl_psync entries size pi ci pi_sync
              ≡ some (status, next))
            × (next < 2 * 2 ^ size)
      from_counters used made h t ep ec = elim (ℕ_discrete pi ci) [
        | yes e ↦ (einval, ci, ground arith, hc)
        | no ne ↦
            let (found, last, run, c) = psync_loop_lem (2 * 2 ^ size) used made h (omega arith) t in
            (
              if found then 0 else eagain,
              index_of size last,
              ground (
                arith,
                subst₂
                    (λ x y.
                      psync_loop (2 * 2 ^ size) entries size x pi_sync y
                      ≡ some (found, index_of size last))
                    ep ec run,
              ),
              omega (arith, pow-suc 2 size, mod-lt last (one-le-pow (suc size) 2 (omega arith))),
            )
      ]
