-- ===== src/Queue/Command/Wait.antt =====
-- The two waits of `ummu_send_cmd`: for room in the ring, and for the completion.
use openeuler_ummu.Base.{
  ℕ, zero, suc, ◌+◌, ◌-◌, ◌*◌, ◌%◌, ◌^◌, ◌≤◌, ◌<◌, ◌≡◌, inl, inr, refl, ap, ◌∙◌, arith, ◌==◌, Bool,
  true, false, some, Bool-cases,
}
use native.Mathlib.Decide.{ℕ_discrete}
use openeuler_ummu.Queue.{queue_has_space}
use openeuler_ummu.Queue.Completion.Progress.{ummu_get_cpl_psync-ends}
use openeuler_ummu.Queue.Command.{Device, Queue, wait_not_full, wait_psync}

module _ (dev : Device) (size n : ℕ) where
  abbrev pub space_at : Queue → ℕ → Bool
  space_at q t = queue_has_space q.ucmdq_pi (dev.ucmdq_ci t) size n

  -- Only the time has passed, at most `us` of it, and there was space at the last look, or at none.
  pub record Waited (us times : ℕ) (q : Queue) (space : Bool) (q1 : Queue) : Type 0 where
    pub same_ring : q1.cmd_entry ≡ q.cmd_entry
    pub same_pi : q1.ucmdq_pi ≡ q.ucmdq_pi
    pub same_ci : q1.ucplq_ci ≡ q.ucplq_ci
    pub slept_le : q1.slept ≤ q.slept + us
    pub looked : q.looks < q1.looks
    pub looked_le : q1.looks ≤ q.looks + times + 1
    pub found : space ≡ true → space_at q (q1.looks - 1) ≡ true
    pub missed : space ≡ false → (t : ℕ) → q.looks ≤ t → t ≤ q.looks + times → space_at q t ≡ false

  found-Waited :
      (us times : ℕ) (q : Queue)
      → space_at q q.looks ≡ true
      → Waited us times q true (record q { looks = q.looks + 1 })
  found-Waited us times q e = record {
    same_ring = refl;
    same_pi = refl;
    same_ci = refl;
    slept_le = omega arith;
    looked = omega arith;
    looked_le = omega arith;
    found = λ _. ap (space_at q) (omega arith) ∙ e;
    missed = λ h. cc;
  }

  pub wait_not_full-Waited :
      (times interval : ℕ) (q : Queue)
      → interval ≤ 100
      → let (space, q1) = wait_not_full dev size n times interval q in
        Waited (100 * (times + 1)) times q space q1
  unfolding wait_not_full
  wait_not_full-Waited zero interval q h = elim (Bool-cases (space_at q q.looks)) [
    | inl e ↦ rw e (found-Waited _ 0 q e)
    | inr e ↦ rw e (record {
      same_ring = refl;
      same_pi = refl;
      same_ci = refl;
      slept_le = omega arith;
      looked = omega arith;
      looked_le = omega arith;
      found = λ h. cc;
      missed = λ _ t p l. ap (space_at q) (omega arith) ∙ e;
    })
  ]
  wait_not_full-Waited (suc times) interval q h = elim (Bool-cases (space_at q q.looks)) [
    | inl e ↦ rw e (found-Waited _ (suc times) q e)
    | inr e ↦
        let w =
          wait_not_full-Waited times (25 * ((300 - times) % 5))
            (record q { looks = q.looks + 1; slept = q.slept + interval }) (omega arith) in
        rw e (record {
          same_ring = w.same_ring;
          same_pi = w.same_pi;
          same_ci = w.same_ci;
          slept_le = omega (arith, w.slept_le);
          looked = omega (arith, w.looked);
          looked_le = omega (arith, w.looked_le);
          found = w.found;
          missed = λ s t p l. elim (ℕ_discrete t q.looks) [
            | yes q' ↦ ap (space_at q) q' ∙ e
            | no ne ↦ w.missed s t (omega arith) (omega arith)
          ];
        })
  ]

module _ (dev : Device) (size pi_sync : ℕ) (small : size < 16)
    (fits : (t : ℕ) → dev.ucplq_pi t < 2 * 2 ^ size) where
  -- The run ends, and only completions have been consumed meanwhile.
  pub record Synced (us : ℕ) (q : Queue) (q' : Queue) : Type 0 where
    pub same_ring : q'.cmd_entry ≡ q.cmd_entry
    pub same_pi : q'.ucmdq_pi ≡ q.ucmdq_pi
    pub slept_le : q'.slept ≤ q.slept + us
    pub ci_fits : q'.ucplq_ci < 2 * 2 ^ size

  pub wait_psync-Synced :
      (times : ℕ) (q : Queue)
      → q.ucplq_ci < 2 * 2 ^ size
      → (q' : Queue) × (wait_psync dev size pi_sync times q ≡ some q') × Synced (8 * times) q q'
  unfolding wait_psync
  wait_psync-Synced zero q h =
      (q, refl, record { same_ring = refl; same_pi = refl; slept_le = omega arith; ci_fits = h })
  wait_psync-Synced (suc times) q h =
      let t = q.looks in
      let (status, next, run, next_fits) =
        ummu_get_cpl_psync-ends (dev.cpl_entry t) size pi_sync small (dev.ucplq_pi t) q.ucplq_ci
          (fits t) h in
      let q1 : Queue = record q { looks = q.looks + 1; ucplq_ci = next } in
      let (q', rest, s) =
        wait_psync-Synced times (record q1 { slept = q.slept + 2 * (4 - times) }) next_fits in
      let stop : Synced (8 * suc times) q q1 = record {
        same_ring = refl;
        same_pi = refl;
        slept_le = omega arith;
        ci_fits = next_fits;
      } in
      elim (Bool-cases (status == 0)) [
        | inl e ↦ (q1, rw (run, wait_psync, e) refl, stop)
        | inr e ↦ elim (Bool-cases (times == 0)) [
          | inl z ↦ (q1, rw (run, wait_psync, e, z) refl, stop)
          | inr nz ↦ (
            q',
            rw (run, wait_psync, e, nz) rest,
            record {
              same_ring = s.same_ring;
              same_pi = s.same_pi;
              slept_le = omega (arith, s.slept_le);
              ci_fits = s.ci_fits;
            },
          )
        ]
      ]
