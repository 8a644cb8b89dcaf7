-- ===== src/Queue/Command/Ring.antt =====
-- What the command loop leaves in the ring.
use openeuler_ummu.Base.{
  ℕ, zero, suc, ◌+◌, ◌-◌, ◌*◌, ◌%◌, ◌^◌, ◌≤◌, ◌<◌, ◌≡◌, ◌≢◌, refl, ap, sym, ◌∙◌, arith, ◌==◌,
  if◌then◌else◌,
}
use mathlib.Core.Path.{subst}
use native.Mathlib.Decide.{ℕ_discrete}
use openeuler_ummu.Queue.{q_idx, ummu_update_queue_index}
use openeuler_ummu.Queue.Index.{index_of, mod-injective, ummu_update_queue_index_lem, q_idx-index}
use openeuler_ummu.Queue.Command.{CmdEntry, cmd_psync, put, write_plbi}

module _ (cmd : CmdEntry) (size : ℕ) (small : size < 16) where
  -- From counter `c` on the ring has `n` times the command and a synchronisation. Commands before `c`
  -- that are still in the ring's reach stay.
  pub record Written (n c : ℕ) (ring ring' : ℕ → CmdEntry) : Type 0 where
    pub commands : (j : ℕ) → j < n → ring' ((c + 2 * j) % 2 ^ size) ≡ cmd
    pub syncs : (j : ℕ) → j < n → ring' ((c + 2 * j + 1) % 2 ^ size) ≡ cmd_psync
    pub others :
        (k : ℕ) → k < c → c + 2 * n ≤ k + 2 ^ size → ring' (k % 2 ^ size) ≡ ring (k % 2 ^ size)

  put-slot :
      (ring : ℕ → CmdEntry) (c : ℕ) (e : CmdEntry)
      → put ring (q_idx (index_of size c) size) e (c % 2 ^ size) ≡ e
  put-slot ring c e = rw (q_idx-index size c) (ground arith)

  put-other :
      (ring : ℕ → CmdEntry) (c k : ℕ) (e : CmdEntry)
      → k < c
      → c < k + 2 ^ size
      → put ring (q_idx (index_of size c) size) e (k % 2 ^ size) ≡ ring (k % 2 ^ size)
  put-other ring c k e l near =
      let apart : k % 2 ^ size ≢ c % 2 ^ size =
        λ q. omega (arith, l, mod-injective (2 ^ size) k c (omega arith) near (sym q)) in
      rw (q_idx-index size c) (ground arith)

  -- the ring after half a round, and after one
  abbrev half : ℕ → (ℕ → CmdEntry) → ℕ → CmdEntry
  half c ring = put ring (q_idx (index_of size c) size) cmd

  round : ℕ → (ℕ → CmdEntry) → ℕ → CmdEntry
  round c ring =
      put (put ring (q_idx (index_of size c) size) cmd) (q_idx (index_of size (c + 1)) size)
        cmd_psync

  write_plbi-round :
      (n c s0 : ℕ) (ring : ℕ → CmdEntry)
      → write_plbi (suc n) cmd size s0 (index_of size c) ring
        ≡ write_plbi n cmd size (index_of size (c + 1)) (index_of size (c + 1 + 1)) (round c ring)
  unfolding write_plbi round
  write_plbi-round n c s0 ring =
      ap
        (λ x.
          write_plbi n cmd size x (ummu_update_queue_index x size)
            (put (put ring (q_idx (index_of size c) size) cmd) (q_idx x size) cmd_psync))
        (ummu_update_queue_index_lem size c small)
      ∙ ap (λ x. write_plbi n cmd size (index_of size (c + 1)) x (round c ring))
          (ummu_update_queue_index_lem size (c + 1) small)

  round-first : (c : ℕ) (ring : ℕ → CmdEntry) → 2 ≤ 2 ^ size → round c ring (c % 2 ^ size) ≡ cmd
  unfolding round
  round-first c ring h =
      put-other (half c ring) (c + 1) c cmd_psync (omega arith) (omega arith) ∙ put-slot ring c cmd

  round-second : (c : ℕ) (ring : ℕ → CmdEntry) → round c ring ((c + 1) % 2 ^ size) ≡ cmd_psync
  unfolding round
  round-second c ring = put-slot (half c ring) (c + 1) cmd_psync

  round-other :
      (c k : ℕ) (ring : ℕ → CmdEntry)
      → k < c
      → c + 2 ≤ k + 2 ^ size
      → round c ring (k % 2 ^ size) ≡ ring (k % 2 ^ size)
  unfolding round
  round-other c k ring l near =
      put-other (half c ring) (c + 1) k cmd_psync (omega arith) (omega arith)
      ∙ put-other ring c k cmd l (omega arith)

  Written-suc :
      (n c : ℕ) (ring ring' : ℕ → CmdEntry)
      → 2 * suc n ≤ 2 ^ size
      → Written n (c + 1 + 1) (round c ring) ring'
      → Written (suc n) c ring ring'
  Written-suc n c ring ring' h w = record {
    commands = λ j p. elim (ℕ_discrete j 0) [
      | yes z ↦
          ap (λ (t : ℕ). ring' (t % 2 ^ size)) (omega arith)
          ∙ w.others c (omega arith) (omega arith)
          ∙ round-first c ring (omega arith)
      | no s ↦ ap (λ (t : ℕ). ring' (t % 2 ^ size)) (omega arith) ∙ w.commands (j - 1) (omega arith)
    ];
    syncs = λ j p. elim (ℕ_discrete j 0) [
      | yes z ↦
          ap (λ (t : ℕ). ring' (t % 2 ^ size)) (omega arith)
          ∙ w.others (c + 1) (omega arith) (omega arith)
          ∙ round-second c ring
      | no s ↦ ap (λ (t : ℕ). ring' (t % 2 ^ size)) (omega arith) ∙ w.syncs (j - 1) (omega arith)
    ];
    others = λ k p q. w.others k (omega arith) (omega arith) ∙ round-other c k ring p (omega arith);
  }

  -- `pi_sync` is the index of the last synchronisation.
  abbrev pub Outcome : ℕ → ℕ → ℕ → (ℕ → CmdEntry) → ℕ × ℕ × (ℕ → CmdEntry) → Type 0
  Outcome n c s0 ring (pi_sync, pi_wr, ring') =
      (pi_wr ≡ index_of size (c + 2 * n))
      × (pi_sync ≡ (if n == 0 then s0 else index_of size (c + 2 * n - 1)))
      × Written n c ring ring'

  pub write_plbi-Written :
      (n c s0 : ℕ) (ring : ℕ → CmdEntry)
      → 2 * n ≤ 2 ^ size
      → Outcome n c s0 ring (write_plbi n cmd size s0 (index_of size c) ring)
  unfolding write_plbi
  write_plbi-Written zero c s0 ring h = (
    ap (index_of size) (omega arith),
    refl,
    record {
      commands = λ j p. absurd (omega arith);
      syncs = λ j p. absurd (omega arith);
      others = λ k p q. refl;
    },
  )
  write_plbi-Written (suc n) c s0 ring h =
      let (last, sync, w) =
        write_plbi-Written n (c + 1 + 1) (index_of size (c + 1)) (round c ring) (omega arith) in
      subst (Outcome (suc n) c s0 ring) (sym (write_plbi-round n c s0 ring)) (
        last ∙ ap (index_of size) (omega arith),
        sync ∙ sync_index (ℕ_discrete n 0),
        Written-suc n c ring _ h w,
      )
    where
      sync_index :
          Dec (n ≡ 0)
          → (if n == 0 then index_of size (c + 1) else index_of size (c + 1 + 1 + 2 * n - 1))
            ≡ (if suc n == 0 then s0 else index_of size (c + 2 * suc n - 1))
      sync_index (yes z) =
          let e : c + 1 ≡ c + 2 * suc n - 1 = omega arith in ground (arith, ap (index_of size) e)
      sync_index (no s) =
          let e : c + 1 + 1 + 2 * n - 1 ≡ c + 2 * suc n - 1 = omega arith in
          ground (arith, ap (index_of size) e)
